-- ===== src/ControlPlane/Runs.antt =====
-- The admin routes of app/api/control_plane.py that change keys, and the references between the tables.
use firecrawl_manger.Prelude.{
  ℕ, ◌≡◌, refl, String, true, not, ◌&&◌, Option, none, some, List, [], ◌∷◌, ◌++◌, arith, inl, inr,
  All-filter, All-append, filter, map, Bool-cases, Option-cases, is_some, ◌==◌, nat_equality,
}
use firecrawl_manger.Errors.{database_unavailable}
use firecrawl_manger.Models.{ApiKey, Client, RequestLog}
use firecrawl_manger.ResourceBinding.{Answer}
use firecrawl_manger.KeyPool.{option_beq, option_beq_iff}
use firecrawl_manger.Forwarder.{set_key}
use firecrawl_manger.Forwarder.Keys.{find_key}
use firecrawl_manger.ControlPlane.{Db, is_known, assigned}
use firecrawl_manger.ControlPlane.Keys.{
  Vault, CreateKeyRequest, UpdateKeyRequest, create_key, update_key, delete_key, purge_key,
  reset_keys_quota, new_key, updated_key, switched_off, reset_quota, unlink_key, with_client,
  is_valid_provider, duplicate_key, audit_rotation,
}
use firecrawl_manger.ControlPlane.KeyBatch.{
  BatchKeysRequest, batch_one, batch_each, applied_to, changes,
}
use firecrawl_manger.ControlPlane.Sound.{
  is_present, IsSound, commit-IsSound, audit-IsSound, keys-IsSound, set_key-has, append-has,
  set_key-All, map-All, find_key-All, without-has,
}

pub create_key-IsSound :
    (vault : Vault) (new_id today : ℕ) (answer : Answer) (p : CreateKeyRequest) (db : Db)
    → IsSound db
    → IsSound (create_key vault new_id today answer p db).1
unfolding create_key
create_key-IsSound vault new_id today answer p db s = elim (Bool-cases vault.has_master_key) [
  | inr off ↦ rw off s
  | inl on ↦ elim (Bool-cases (is_valid_provider p.provider)) [
    | inr bad ↦ rw (on, bad) s
    | inl good ↦ elim (Bool-cases (is_known (assigned p.client_id) db.clients)) [
      | inr unknown ↦ rw (on, good, unknown) s
      | inl known ↦
          let key : ApiKey = new_key vault new_id today (assigned p.client_id) p in
          rw (on, good, known)
            (commit-IsSound duplicate_key _ db _ s (
              audit-IsSound "key.create" (some new_id) (record db { keys = db.keys ++ (key ∷ []) })
                (keys-IsSound db (db.keys ++ (key ∷ [])) (append-has key db.keys)
                  (All-append (λ k. is_known k.client_id db.clients ≡ true) db.keys (key ∷ [])
                    s.keys_clients (known, tt))
                  s)))
    ]
  ]
]

-- A key that is written back for another one of its client.
set_key-IsSound :
    (db : Db) (key : ApiKey)
    → is_known key.client_id db.clients ≡ true
    → IsSound db
    → IsSound (record db { keys = set_key key db.keys })
set_key-IsSound db key known s =
    keys-IsSound db (set_key key db.keys) (set_key-has key db.keys)
      (set_key-All (λ k. is_known k.client_id db.clients ≡ true) key db.keys known s.keys_clients) s

updated_key-client :
    (vault : Vault) (p : UpdateKeyRequest) (key : ApiKey)
    → (updated_key vault p key).client_id ≡ (with_client p.client_id key).client_id
updated_key-client vault p key = ground arith

with_client-known :
    (client_id : Option ℕ) (key : ApiKey) (clients : List Client)
    → is_known (assigned client_id) clients ≡ true
    → is_known key.client_id clients ≡ true
    → is_known (with_client client_id key).client_id clients ≡ true
with_client-known none key clients new old = old
with_client-known (some id) key clients new old = new

audit_rotation-IsSound :
    (api_key : Option String) (id : ℕ) (db : Db)
    → IsSound db
    → IsSound (audit_rotation api_key id db)
audit_rotation-IsSound none id db s = s
audit_rotation-IsSound (some api_key) id db s = audit-IsSound "key.rotate" (some id) db s

pub update_key-IsSound :
    (vault : Vault) (answer : Answer) (key_id : ℕ) (p : UpdateKeyRequest) (db : Db)
    → IsSound db
    → IsSound (update_key vault answer key_id p db).1
unfolding update_key
update_key-IsSound vault answer key_id p db s = elim (Option-cases (find_key key_id db.keys)) [
  | inl gone ↦ rw (update_key, gone) s
  | inr (key, there) ↦ elim (Bool-cases (is_known (assigned p.client_id) db.clients)) [
    | inr unknown ↦ rw (update_key, there, unknown) s
    | inl known ↦ elim (Bool-cases (is_some p.api_key && not vault.has_master_key)) [
      | inl locked ↦ rw (update_key, there, known, locked) s
      | inr open' ↦
          let key' : ApiKey = updated_key vault p key in
          let old =
            find_key-All (λ k. is_known k.client_id db.clients ≡ true) key_id key db.keys there
              s.keys_clients in
          rw (update_key, there, known, open')
            (commit-IsSound duplicate_key _ db _ s (
              audit-IsSound "key.update" (some key_id)
                (audit_rotation p.api_key key_id (record db { keys = set_key key' db.keys }))
                (audit_rotation-IsSound p.api_key key_id (record db { keys = set_key key' db.keys })
                  (set_key-IsSound db key'
                    (rw (updated_key-client vault p key)
                      (with_client-known p.client_id key db.clients known old))
                    s))))
    ]
  ]
]

pub delete_key-IsSound :
    (answer : Answer) (key_id : ℕ) (db : Db) → IsSound db → IsSound (delete_key answer key_id db).1
unfolding delete_key
delete_key-IsSound answer key_id db s = elim (Option-cases (find_key key_id db.keys)) [
  | inl gone ↦ rw (delete_key, gone) s
  | inr (key, there) ↦
      rw (delete_key, there)
        (commit-IsSound database_unavailable answer db _ s (
          audit-IsSound "key.delete" (some key_id)
            (record db { keys = set_key (switched_off key) db.keys })
            (set_key-IsSound db (switched_off key)
              (find_key-All (λ k. is_known k.client_id db.clients ≡ true) key_id key db.keys there
                s.keys_clients)
              s)))
]

-- A log that named the key names none.
unlink_key-has :
    (id : ℕ) (keys : List ApiKey) (log : RequestLog)
    → is_present log.api_key_id keys ≡ true
    → is_present (unlink_key id log).api_key_id (filter (λ k. not (k.id == id)) keys) ≡ true
unlink_key-has id keys log h = elim (Bool-cases (option_beq log.api_key_id (some id))) [
  | inl same ↦ rw same refl
  | inr other ↦ rw other (
      without-has log.api_key_id id keys
        (λ e. ground (arith, option_beq_iff log.api_key_id (some id))) h)
]

unlink_key-client : (id : ℕ) (log : RequestLog) → (unlink_key id log).client_id ≡ log.client_id
unlink_key-client id log = ground arith

pub purge_key-IsSound :
    (answer : Answer) (key_id : ℕ) (db : Db) → IsSound db → IsSound (purge_key answer key_id db).1
unfolding purge_key
purge_key-IsSound answer key_id db s = elim (Option-cases (find_key key_id db.keys)) [
  | inl gone ↦ rw (purge_key, gone) s
  | inr (key, there) ↦
      rw (purge_key, there)
        (commit-IsSound database_unavailable answer db _ s (
          audit-IsSound "key.purge" (some key_id) _ record {
            keys_clients =
                All-filter (λ k. is_known k.client_id db.clients ≡ true) (λ k. not (k.id == key_id))
                  db.keys s.keys_clients;
            logs_clients =
                map-All (λ l. is_known l.client_id db.clients ≡ true)
                  (λ l. is_known l.client_id db.clients ≡ true) (unlink_key key_id) db.logs
                  (λ l h. ground (arith, unlink_key-client key_id l)) s.logs_clients;
            logs_keys =
                map-All (λ l. is_present l.api_key_id db.keys ≡ true)
                  (λ l. is_present l.api_key_id (filter (λ k. not (k.id == key_id)) db.keys) ≡ true)
                  (unlink_key key_id) db.logs (unlink_key-has key_id db.keys) s.logs_keys;
            records_clients = s.records_clients;
          }))
]

-- The keys may be changed one by one, as long as their ids stay.
pub map_keys-has :
    (f : ApiKey → ApiKey)
    → ((k : ApiKey) → (f k).id ≡ k.id)
    → (keys : List ApiKey) (i : Option ℕ) → is_present i keys ≡ true
    → is_present i (map f keys) ≡ true
map_keys-has f same keys none h = refl
map_keys-has f same keys (some id) h = found keys h
  where
    found :
        (keys : List ApiKey)
        → is_some (find_key id keys) ≡ true
        → is_some (find_key id (map f keys)) ≡ true
    found [] h = h
    found (k ∷ keys) h = elim (Bool-cases (k.id == id)) [
      | inl here ↦ rw (same k, here) refl
      | inr other ↦ rw (same k, other) (found keys (rw other at h))
    ]

map_keys-IsSound :
    (db : Db) (f : ApiKey → ApiKey)
    → ((k : ApiKey) → ((f k).id ≡ k.id) × ((f k).client_id ≡ k.client_id))
    → IsSound db
    → IsSound (record db { keys = map f db.keys })
map_keys-IsSound db f same s =
    keys-IsSound db (map f db.keys) (map_keys-has f (λ k. (same k).0) db.keys)
      (map-All (λ k. is_known k.client_id db.clients ≡ true)
        (λ k. is_known k.client_id db.clients ≡ true) f db.keys (λ k h. rw (same k).1 h)
        s.keys_clients)
      s

pub reset_keys_quota-IsSound :
    (today : ℕ) (answer : Answer) (db : Db)
    → IsSound db
    → IsSound (reset_keys_quota today answer db).1
unfolding reset_keys_quota
reset_keys_quota-IsSound today answer db s = commit-IsSound database_unavailable answer db _ s (
    audit-IsSound "quota.reset" none (record db { keys = map (reset_quota today) db.keys })
      (map_keys-IsSound db (reset_quota today) (λ k. (refl, refl)) s))

applied_to-client :
    (p : BatchKeysRequest) (key : ApiKey) → (applied_to p key).client_id ≡ key.client_id
applied_to-client p key = ground arith

batch_one-IsSound :
    (p : BatchKeysRequest) (answer : Answer) (key_id : ℕ) (db : Db)
    → IsSound db
    → IsSound (batch_one p answer key_id db).1
unfolding batch_one
batch_one-IsSound p answer key_id db s = elim (Option-cases (find_key key_id db.keys)) [
  | inl gone ↦ rw (batch_one, gone) s
  | inr (key, there) ↦ elim (Bool-cases (changes p)) [
    | inr idle ↦ rw (batch_one, there, idle) s
    | inl busy ↦
        rw (batch_one, there, busy)
          (commit-IsSound _ _ db _ s (
            audit-IsSound "key.batch" (some key_id)
              (record db { keys = set_key (applied_to p key) db.keys })
              (set_key-IsSound db (applied_to p key)
                (rw (applied_to-client p key) (
                  find_key-All (λ k. is_known k.client_id db.clients ≡ true) key_id key db.keys
                    there s.keys_clients))
                s)))
  ]
]

pub batch_each-IsSound :
    (p : BatchKeysRequest) (answers : ℕ → Answer) (ids : List ℕ) (db : Db)
    → IsSound db
    → IsSound (batch_each p answers ids db).1
unfolding batch_each
batch_each-IsSound p answers [] db s = s
batch_each-IsSound p answers (id ∷ ids) db s =
    batch_each-IsSound p answers ids (batch_one p (answers id) id db).1
      (batch_one-IsSound p (answers id) id db s)
