-- ===== src/ControlPlane/Sound.antt =====
-- The references between the tables, through the admin routes of app/api/control_plane.py.
use firecrawl_manger.Prelude.{
  ℕ, ◌≡◌, ◌≢◌, refl, ap, subst, String, Bool, true, not, Option, none, some, List, [], ◌∷◌, ◌++◌,
  arith, inl, inr, All, All-imp, filter, map, Bool-cases, is_some, ◌==◌, nat_equality,
}
use firecrawl_manger.Errors.{FcamError}
use firecrawl_manger.Models.{ApiKey, Client}
use firecrawl_manger.ResourceBinding.{Answer, accepts, violated, fails}
use firecrawl_manger.Forwarder.{set_key}
use firecrawl_manger.Forwarder.Keys.{find_key}
use firecrawl_manger.ControlPlane.{Db, audit, commit, find_client, is_known, set_client}

abbrev pub is_present : Option ℕ → List ApiKey → Bool
is_present none keys = true
is_present (some id) keys = is_some (find_key id keys)

-- Every client and every key that a row names is there.
pub record IsSound (db : Db) : Type 0 where
  pub keys_clients : All (λ k. is_known k.client_id db.clients ≡ true) db.keys
  pub logs_clients : All (λ l. is_known l.client_id db.clients ≡ true) db.logs
  pub logs_keys : All (λ l. is_present l.api_key_id db.keys ≡ true) db.logs
  pub records_clients : All (λ r. is_known (some r.client_id) db.clients ≡ true) db.records

pub commit-IsSound :
    (e : FcamError) (answer : Answer) (old new : Db)
    → IsSound old
    → IsSound new
    → IsSound (commit e answer old new).1
unfolding commit
commit-IsSound e accepts old new before after = after
commit-IsSound e violated old new before after = before
commit-IsSound e fails old new before after = before

pub audit-IsSound :
    (action : String) (id : Option ℕ) (db : Db) → IsSound db → IsSound (audit action id db)
audit-IsSound action id db s = record {
  keys_clients = s.keys_clients;
  logs_clients = s.logs_clients;
  logs_keys = s.logs_keys;
  records_clients = s.records_clients;
}

-- The clients may change as long as none goes.
pub clients-IsSound :
    (db : Db) (clients : List Client)
    → ((i : Option ℕ) → is_known i db.clients ≡ true → is_known i clients ≡ true)
    → IsSound db
    → IsSound (record db { clients = clients })
clients-IsSound db clients keep s = record {
  keys_clients = All-imp _ _ db.keys (λ k. keep k.client_id) s.keys_clients;
  logs_clients = All-imp _ _ db.logs (λ l. keep l.client_id) s.logs_clients;
  logs_keys = s.logs_keys;
  records_clients = All-imp _ _ db.records (λ r. keep (some r.client_id)) s.records_clients;
}

-- The keys may change as long as none goes and each has a client that is there.
pub keys-IsSound :
    (db : Db) (keys : List ApiKey)
    → ((i : Option ℕ) → is_present i db.keys ≡ true → is_present i keys ≡ true)
    → All (λ k. is_known k.client_id db.clients ≡ true) keys
    → IsSound db
    → IsSound (record db { keys = keys })
keys-IsSound db keys keep known s = record {
  keys_clients = known;
  logs_clients = s.logs_clients;
  logs_keys = All-imp _ _ db.logs (λ l. keep l.api_key_id) s.logs_keys;
  records_clients = s.records_clients;
}

set_client-found :
    (id : ℕ) (client : Client) (clients : List Client)
    → is_some (find_client id clients) ≡ true
    → is_some (find_client id (set_client client clients)) ≡ true
set_client-found id client [] h = h
set_client-found id client (c ∷ clients) h = ground (arith, set_client-found id client clients)

pub set_client-known :
    (client : Client) (clients : List Client) (i : Option ℕ)
    → is_known i clients ≡ true
    → is_known i (set_client client clients) ≡ true
set_client-known client clients none h = refl
set_client-known client clients (some id) h = set_client-found id client clients h

append-found :
    (id : ℕ) (client : Client) (clients : List Client)
    → is_some (find_client id clients) ≡ true
    → is_some (find_client id (clients ++ (client ∷ []))) ≡ true
append-found id client [] h = absurd (ground arith)
append-found id client (c ∷ clients) h = ground (arith, append-found id client clients)

pub append-known :
    (client : Client) (clients : List Client) (i : Option ℕ)
    → is_known i clients ≡ true
    → is_known i (clients ++ (client ∷ [])) ≡ true
append-known client clients none h = refl
append-known client clients (some id) h = append-found id client clients h

set_key-found :
    (id : ℕ) (key : ApiKey) (keys : List ApiKey)
    → is_some (find_key id keys) ≡ true
    → is_some (find_key id (set_key key keys)) ≡ true
set_key-found id key [] h = h
set_key-found id key (c ∷ keys) h = ground (arith, set_key-found id key keys)

pub set_key-has :
    (key : ApiKey) (keys : List ApiKey) (i : Option ℕ)
    → is_present i keys ≡ true
    → is_present i (set_key key keys) ≡ true
set_key-has key keys none h = refl
set_key-has key keys (some id) h = set_key-found id key keys h

key_append-found :
    (id : ℕ) (key : ApiKey) (keys : List ApiKey)
    → is_some (find_key id keys) ≡ true
    → is_some (find_key id (keys ++ (key ∷ []))) ≡ true
key_append-found id key [] h = absurd (ground arith)
key_append-found id key (c ∷ keys) h = ground (arith, key_append-found id key keys)

pub append-has :
    (key : ApiKey) (keys : List ApiKey) (i : Option ℕ)
    → is_present i keys ≡ true
    → is_present i (keys ++ (key ∷ [])) ≡ true
append-has key keys none h = refl
append-has key keys (some id) h = key_append-found id key keys h

pub set_key-All :
    (P : ApiKey → Type 0) (key : ApiKey) (keys : List ApiKey)
    → P key
    → All P keys
    → All P (set_key key keys)
set_key-All P key [] h all = tt
set_key-All P key (k ∷ keys) h (here, all) = elim (Bool-cases (k.id == key.id)) [
  | inl same ↦ rw same (h, set_key-All P key keys h all)
  | inr other ↦ rw other (here, set_key-All P key keys h all)
]

pub map-All :
    {A : Type 0} (P Q : A → Type 0) (f : A → A) (xs : List A)
    → ((a : A) → P a → Q (f a))
    → All P xs
    → All Q (map f xs)
map-All P Q f [] keep all = tt
map-All P Q f (a ∷ xs) keep (here, all) = (keep a here, map-All P Q f xs keep all)

-- A row that was found has what all rows have.
pub find_key-All :
    (P : ApiKey → Type 0) (id : ℕ) (key : ApiKey) (keys : List ApiKey)
    → find_key id keys ≡ some key
    → All P keys
    → P key
find_key-All P id key [] h all = absurd (ground arith)
find_key-All P id key (k ∷ keys) h (here, all) = elim (Bool-cases (k.id == id)) [
  | inl same ↦ subst P (some-inj k key (rw same at h)) here
  | inr other ↦ find_key-All P id key keys (rw other at h) all
]
  where
    some-inj : (a b : ApiKey) → Path (Option ApiKey) (some a) (some b) → a ≡ b
    some-inj a b e = cc

-- Rows that name no longer what is taken away.
without-found :
    (id gone : ℕ) (clients : List Client)
    → id ≢ gone
    → is_some (find_client id clients) ≡ true
    → is_some (find_client id (filter (λ c. not (c.id == gone)) clients)) ≡ true
without-found id gone [] differ h = h
without-found id gone (c ∷ clients) differ h = ground (arith, without-found id gone clients differ)

pub without-known :
    (i : Option ℕ) (gone : ℕ) (clients : List Client)
    → i ≢ some gone
    → is_known i clients ≡ true
    → is_known i (filter (λ c. not (c.id == gone)) clients) ≡ true
without-known none gone clients differ h = refl
without-known (some id) gone clients differ h =
    without-found id gone clients (λ e. differ (ap some e)) h

key_without-found :
    (id gone : ℕ) (keys : List ApiKey)
    → id ≢ gone
    → is_some (find_key id keys) ≡ true
    → is_some (find_key id (filter (λ c. not (c.id == gone)) keys)) ≡ true
key_without-found id gone [] differ h = h
key_without-found id gone (c ∷ keys) differ h =
    ground (arith, key_without-found id gone keys differ)

pub without-has :
    (i : Option ℕ) (gone : ℕ) (keys : List ApiKey)
    → i ≢ some gone
    → is_present i keys ≡ true
    → is_present i (filter (λ k. not (k.id == gone)) keys) ≡ true
without-has none gone keys differ h = refl
without-has (some id) gone keys differ h =
    key_without-found id gone keys (λ e. differ (ap some e)) h
