-- ===== src/ControlPlane/ClientRuns.antt =====
-- The admin routes of app/api/control_plane.py that change clients, and the references between the tables.
use firecrawl_manger.Prelude.{
  ℕ, ◌+◌, ◌≡◌, ◌≢◌, refl, String, true, false, not, Option, some, List, [], ◌∷◌, ◌++◌, arith, inl,
  inr, All, filter, map, Bool-cases, Option-cases, ◌==◌, nat_equality, string_equality,
}
use firecrawl_manger.Errors.{database_unavailable}
use firecrawl_manger.Models.{ApiKey, Client, RequestLog, IdempotencyRecord}
use firecrawl_manger.ResourceBinding.{Answer}
use firecrawl_manger.KeyPool.{option_beq, option_beq_iff}
use firecrawl_manger.ControlPlane.{Db, audit, find_client, is_known, set_client}
use firecrawl_manger.ControlPlane.Keys.{Vault}
use firecrawl_manger.ControlPlane.Clients.{
  CreateClientRequest, UpdateClientRequest, BatchAction, create_client, update_client,
  delete_client, purge_client, rotate_client_token, batch_update_clients, batch_rounds,
  change_client, leave_client, unlink_client, new_client, duplicate_client,
  apply_batch_action_to_client, action_name, updated_client, deleted_client,
}
use firecrawl_manger.ControlPlane.Sound.{
  is_present, IsSound, commit-IsSound, audit-IsSound, clients-IsSound, set_client-known,
  append-known, map-All, without-known,
}
use firecrawl_manger.ControlPlane.Runs.{map_keys-has}

change_client-IsSound :
    (action : String) (answer : Answer) (client : Client) (db : Db)
    → IsSound db
    → IsSound (change_client action answer client db).1
change_client-IsSound action answer client db s =
    commit-IsSound database_unavailable answer db _ s (
      audit-IsSound action (some client.id) (record db { clients = set_client client db.clients })
        (clients-IsSound db (set_client client db.clients) (set_client-known client db.clients) s))

pub create_client-IsSound :
    (vault : Vault) (new_id today : ℕ) (token : String) (answer : Answer) (p : CreateClientRequest)
    (db : Db)
    → IsSound db
    → IsSound (create_client vault new_id today token answer p db).1
unfolding create_client
create_client-IsSound vault new_id today token answer p db s =
    elim (Bool-cases vault.has_master_key) [
      | inr off ↦ rw off s
      | inl on ↦
          let client : Client = new_client vault new_id today token p in
          rw on (
            commit-IsSound duplicate_client _ db _ s (
              audit-IsSound "client.create" (some new_id)
                (record db { clients = db.clients ++ (client ∷ []) })
                (clients-IsSound db (db.clients ++ (client ∷ [])) (append-known client db.clients)
                  s)))
    ]

pub update_client-IsSound :
    (answer : Answer) (client_id : ℕ) (p : UpdateClientRequest) (db : Db)
    → IsSound db
    → IsSound (update_client answer client_id p db).1
unfolding update_client
update_client-IsSound answer client_id p db s =
    elim (Option-cases (find_client client_id db.clients)) [
      | inl gone ↦ rw (update_client, gone) s
      | inr (client, there) ↦ elim (Bool-cases (client.status == "deleted")) [
        | inl deleted ↦ rw (update_client, there, deleted) s
        | inr kept ↦
            rw (update_client, there, kept)
              (change_client-IsSound "client.update" answer (updated_client p client) db s)
      ]
    ]

pub delete_client-IsSound :
    (answer : Answer) (client_id : ℕ) (db : Db)
    → IsSound db
    → IsSound (delete_client answer client_id db).1
unfolding delete_client
delete_client-IsSound answer client_id db s =
    elim (Option-cases (find_client client_id db.clients)) [
      | inl gone ↦ rw (delete_client, gone) s
      | inr (client, there) ↦
          rw (delete_client, there)
            (change_client-IsSound "client.delete" answer (deleted_client client) db s)
    ]

pub rotate_client_token-IsSound :
    (vault : Vault) (token : String) (answer : Answer) (client_id : ℕ) (db : Db)
    → IsSound db
    → IsSound (rotate_client_token vault token answer client_id db).1
unfolding rotate_client_token
rotate_client_token-IsSound vault token answer client_id db s =
    elim (Bool-cases vault.has_master_key) [
      | inr off ↦ rw off s
      | inl on ↦ elim (Option-cases (find_client client_id db.clients)) [
        | inl gone ↦ rw (on, rotate_client_token, gone) s
        | inr (client, there) ↦
            rw (on, rotate_client_token, there)
              (change_client-IsSound "client.rotate" answer
                (record client { token_hash = vault.hash token }) db s)
      ]
    ]

-- What named the client that goes names none.
named_other : (i : Option ℕ) (gone : ℕ) → option_beq i (some gone) ≡ false → i ≢ some gone
named_other i gone other e = ground (arith, option_beq_iff i (some gone))

leave_client-known :
    (gone : ℕ) (clients : List Client) (key : ApiKey)
    → is_known key.client_id clients ≡ true
    → is_known (leave_client gone key).client_id (filter (λ c. not (c.id == gone)) clients) ≡ true
leave_client-known gone clients key h = elim (Bool-cases (option_beq key.client_id (some gone))) [
  | inl same ↦ rw same refl
  | inr other ↦
      rw other (without-known key.client_id gone clients (named_other key.client_id gone other) h)
]

unlink_client-known :
    (gone : ℕ) (clients : List Client) (log : RequestLog)
    → is_known log.client_id clients ≡ true
    → is_known (unlink_client gone log).client_id (filter (λ c. not (c.id == gone)) clients) ≡ true
unlink_client-known gone clients log h = elim (Bool-cases (option_beq log.client_id (some gone))) [
  | inl same ↦ rw same refl
  | inr other ↦
      rw other (without-known log.client_id gone clients (named_other log.client_id gone other) h)
]

unlink_client-key : (id : ℕ) (log : RequestLog) → (unlink_client id log).api_key_id ≡ log.api_key_id
unlink_client-key id log = ground arith

leave_client-same : (id : ℕ) (key : ApiKey) → (leave_client id key).id ≡ key.id
leave_client-same id key = ground arith

pub purge_client-IsSound :
    (answer : Answer) (client_id : ℕ) (db : Db)
    → IsSound db
    → IsSound (purge_client answer client_id db).1
unfolding purge_client
purge_client-IsSound answer client_id db s =
    elim (Option-cases (find_client client_id db.clients)) [
      | inl gone ↦ rw (purge_client, gone) s
      | inr (client, there) ↦
          rw (purge_client, there)
            (commit-IsSound database_unavailable answer db _ s (
              audit-IsSound "client.purge" (some client_id) _ record {
                keys_clients =
                    map-All (λ k. is_known k.client_id db.clients ≡ true)
                      (λ k. is_known k.client_id kept ≡ true) (leave_client client_id) db.keys
                      (leave_client-known client_id db.clients) s.keys_clients;
                logs_clients =
                    map-All (λ l. is_known l.client_id db.clients ≡ true)
                      (λ l. is_known l.client_id kept ≡ true) (unlink_client client_id) db.logs
                      (unlink_client-known client_id db.clients) s.logs_clients;
                logs_keys =
                    map-All (λ l. is_present l.api_key_id db.keys ≡ true)
                      (λ l. is_present l.api_key_id (map (leave_client client_id) db.keys) ≡ true)
                      (unlink_client client_id) db.logs
                      (λ l h. rw (unlink_client-key client_id l) (
                        map_keys-has (leave_client client_id) (leave_client-same client_id) db.keys
                          l.api_key_id h))
                      s.logs_keys;
                records_clients = owned db.records s.records_clients;
              }))
    ]
  where
    kept : List Client
    kept = filter (λ c. not (c.id == client_id)) db.clients

    owned :
        (records : List IdempotencyRecord)
        → All (λ r. is_known (some r.client_id) db.clients ≡ true) records
        → All
            (λ r. is_known (some r.client_id) kept ≡ true)
            (filter (λ r. not (r.client_id == client_id)) records)
    owned [] all = tt
    owned (r ∷ records) (here, all) = elim (Bool-cases (r.client_id == client_id)) [
      | inl same ↦ rw same (owned records all)
      | inr other ↦ rw other (
        without-known (some r.client_id) client_id db.clients
            (λ e. ground (arith, nat_equality.test_iff r.client_id client_id)) here,
        owned records all,
      )
    ]

batch_rounds-IsSound :
    (action : BatchAction) (ids : List ℕ) (good : ℕ) (bad : List ℕ) (db : Db)
    → IsSound db
    → IsSound (batch_rounds action ids good bad db).1
unfolding batch_rounds
batch_rounds-IsSound action [] good bad db s = s
batch_rounds-IsSound action (id ∷ ids) good bad db s =
    elim (Option-cases (find_client id db.clients)) [
      | inl gone ↦ rw (batch_rounds, gone) (batch_rounds-IsSound action ids good bad db s)
      | inr (client, there) ↦
          let client' : Client = apply_batch_action_to_client action client in
          let db1 : Db = record db { clients = set_client client' db.clients } in
          rw (batch_rounds, there)
            (batch_rounds-IsSound action ids (good + 1) bad
              (audit (action_name action) (some id) db1)
              (audit-IsSound (action_name action) (some id) db1 (
                clients-IsSound db (set_client client' db.clients)
                  (set_client-known client' db.clients) s)))
    ]

pub batch_update_clients-IsSound :
    (action : BatchAction) (answer : Answer) (client_ids : List ℕ) (db : Db)
    → IsSound db
    → IsSound (batch_update_clients action answer client_ids db).1
unfolding batch_update_clients
batch_update_clients-IsSound action answer client_ids db s =
    commit-IsSound database_unavailable answer db _ s (batch_rounds-IsSound action _ 0 _ db s)
