-- ===== src/ControlPlane/Import/Runs.antt =====
-- `import_keys_text` of app/api/control_plane.py, and the references between the tables.
use firecrawl_manger.Prelude.{
  ℕ, ◌≡◌, refl, sym, subst, String, Bool, true, false, not, ◌||◌, Option, none, some, List, [], ◌∷◌,
  ◌++◌, arith, inl, inr, All, All-append, Bool-cases, if-elim, not-false, ◌==◌, string_equality,
}
use firecrawl_manger.Errors.{Result}
use firecrawl_manger.Models.{ApiKey, Client}
use firecrawl_manger.ResourceBinding.{Answer, accepts, violated, fails}
use firecrawl_manger.Forwarder.{set_key}
use firecrawl_manger.KeyImport.{ParsedKeyLine, parse_keys_text}
use firecrawl_manger.ControlPlane.{Db, assigned, is_known}
use firecrawl_manger.ControlPlane.Keys.{is_valid_provider, has_hash, unless_taken}
use firecrawl_manger.ControlPlane.Sound.{
  IsSound, audit-IsSound, keys-IsSound, set_key-has, append-has, set_key-All,
}
use firecrawl_manger.ControlPlane.Import.{
  ImportKeysTextRequest, Secrets, Account, Attempt, Import, imported_key, account_of,
  is_bound_elsewhere, binds, fills_account, fill, fill_existing, find_hash, leave_savepoint,
  create_imported,
}
use firecrawl_manger.ControlPlane.Import.Lines.{
  update_imported, import_as, import_item, import_items, has_no_items, import_keys_text,
}

-- The references are sound, and the clients are those of the start.
abbrev Holds : List Client → Import → Type 0
Holds clients s = IsSound s.db × (s.db.clients ≡ clients)

fill-known :
    (client_id old : Option ℕ) (clients : List Client)
    → is_known client_id clients ≡ true
    → is_known old clients ≡ true
    → is_known (fill client_id old) clients ≡ true
fill-known none none clients new known = known
fill-known none (some id) clients new known = known
fill-known (some id) none clients new known = new
fill-known (some id) (some other) clients new known = known

find_hash-All :
    (P : ApiKey → Type 0) (hash : String) (key : ApiKey) (keys : List ApiKey)
    → find_hash hash keys ≡ some key
    → All P keys
    → P key
find_hash-All P hash key [] found all = absurd (ground arith)
find_hash-All P hash key (k ∷ keys) found all = elim (Bool-cases (k.api_key_hash == hash)) [
  | inl own ↦ subst P (ground (arith, rw own at found)) all.0
  | inr other ↦ find_hash-All P hash key keys (rw other at found) all.1
]

leave_savepoint-Holds :
    (clients : List Client) (released : Bool) (item : ParsedKeyLine) (before after : Import)
    → Holds clients before
    → Holds clients after
    → Holds clients (leave_savepoint released item before after)
leave_savepoint-Holds clients true item before after b a = a
leave_savepoint-Holds clients false item before after b a = b

module _ (secrets : Secrets) (today : ℕ) (client_id : Option ℕ) (p : ImportKeysTextRequest)
    (clients : List Client) (known : is_known client_id clients ≡ true) where
  known_in : (s : Import) → Holds clients s → is_known client_id s.db.clients ≡ true
  known_in s h = subst (λ cs. is_known client_id cs ≡ true) (sym h.1) known

  create_imported-Holds :
      (new_id : ℕ) (item : ParsedKeyLine) (s : Import)
      → Holds clients s
      → Holds clients (create_imported secrets new_id today client_id p item s)
  create_imported-Holds new_id item s h =
      let key = imported_key secrets new_id today client_id p item in
      let keys = s.db.keys ++ key ∷ [] in
      (
        audit-IsSound "key.import_text.create" (some new_id) (record s.db { keys = keys })
            (keys-IsSound s.db keys (append-has key s.db.keys)
              (All-append (λ k. is_known k.client_id s.db.clients ≡ true) s.db.keys (key ∷ [])
                h.0.keys_clients (known_in s h, tt))
              h.0),
        h.1,
      )

  fill_existing-Holds :
      (item : ParsedKeyLine) (existing : ApiKey) (s : Import)
      → is_known existing.client_id s.db.clients ≡ true
      → Holds clients s
      → Holds clients (fill_existing secrets client_id item existing s)
  fill_existing-Holds item existing s old h =
      let key : ApiKey = record existing { client_id = fill client_id existing.client_id } in
      let keys = set_key key s.db.keys in
      elim (Bool-cases (is_bound_elsewhere client_id existing.client_id)) [
        | inl bound ↦ rw bound h
        | inr free ↦
            elim (Bool-cases (
              binds client_id existing.client_id
              || fills_account (account_of secrets item) (s.accounts existing.id))) [
                | inl changed ↦
                    rw (free, changed)
                      (
                        audit-IsSound "key.import_text.update" (some existing.id)
                            (record s.db { keys = keys })
                            (keys-IsSound s.db keys (set_key-has key s.db.keys)
                              (set_key-All (λ k. is_known k.client_id s.db.clients ≡ true) key
                                s.db.keys
                                (fill-known client_id existing.client_id s.db.clients (known_in s h)
                                  old)
                                h.0.keys_clients)
                              h.0),
                        h.1,
                      )
                | inr same ↦ rw (free, same) h
              ]
      ]

  update_imported-Holds :
      (item : ParsedKeyLine) (existing : Option ApiKey) (s : Import)
      → find_hash (secrets.hash item.api_key) s.db.keys ≡ existing
      → Holds clients s
      → Holds clients (update_imported secrets client_id item existing s)
  update_imported-Holds item none s found h = h
  update_imported-Holds item (some existing) s found h =
      fill_existing-Holds item existing s
        (find_hash-All (λ k. is_known k.client_id s.db.clients ≡ true) (secrets.hash item.api_key)
          existing s.db.keys found h.0.keys_clients)
        h

  import_as-Holds :
      (t : Attempt) (item : ParsedKeyLine) (answer : Answer) (s : Import)
      → Holds clients s
      → Holds clients (import_as secrets today client_id p t item answer s)
  import_as-Holds t item accepts s h =
      leave_savepoint-Holds clients t.released item s _ h (create_imported-Holds t.new_id item s h)
  import_as-Holds t item violated s h =
      leave_savepoint-Holds clients t.update_released item s _ h
        (update_imported-Holds item _ s refl h)
  import_as-Holds t item fails s h = h

  import_items-Holds :
      (tries : ℕ → Attempt) (items : List ParsedKeyLine) (s : Import)
      → Holds clients s
      → Holds clients (import_items secrets today client_id p tries items s)
  unfolding import_items import_item
  import_items-Holds tries [] s h = h
  import_items-Holds tries (item ∷ items) s h = import_items-Holds tries items _ (
      import_as-Holds (tries item.line_no) item
        (unless_taken (has_hash (secrets.hash item.api_key) s.db.keys) (tries item.line_no).flush) s
        h)

pub import_keys_text-IsSound :
    (secrets : Secrets) (today : ℕ) (p : ImportKeysTextRequest) (tries : ℕ → Attempt)
    (commit_ok : Bool) (db : Db) (accounts : ℕ → Account)
    → IsSound db
    → IsSound (import_keys_text secrets today p tries commit_ok db accounts).1
unfolding import_keys_text
import_keys_text-IsSound secrets today p tries commit_ok db accounts s =
    let parsed = parse_keys_text secrets.fromisoformat p.lines in
    let sound : Result Import × Db × (ℕ → Account) → Type 0 = λ r. IsSound r.1 in
    if-elim sound (not secrets.has_master_key) _ _ (λ off. s)
      λ on.
        if-elim sound (not (is_valid_provider p.provider)) _ _ (λ bad. s)
          λ good.
            if-elim sound (not (is_known (assigned p.client_id) db.clients)) _ _ (λ unknown. s)
              λ known.
                if-elim sound (has_no_items parsed.0 parsed.1) _ _ (λ empty. s)
                  λ full.
                    if-elim sound commit_ok _ _
                      (λ done.
                        (import_items-Holds secrets today (assigned p.client_id) p db.clients
                          (not-false _ known) tries parsed.0
                          (record {
                            db = db;
                            accounts = accounts;
                            created = 0;
                            updated = 0;
                            skipped = 0;
                            failures = parsed.1;
                          })
                          (s, refl)).0)
                      (λ lost. s)
