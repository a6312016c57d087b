-- ===== src/ControlPlane/Import/Counts.antt =====
-- What `import_keys_text` of app/api/control_plane.py counts.
use firecrawl_manger.Prelude.{
  ℕ, suc, ◌+◌, ◌≡◌, String, refl, true, false, not, ◌||◌, Option, none, some, List, [], ◌∷◌, arith,
  inl, inr, Bool-cases, filter, length, length-append,
}
use firecrawl_manger.Errors.{ok}
use firecrawl_manger.Models.{ApiKey}
use firecrawl_manger.ResourceBinding.{Answer, accepts, violated, fails}
use firecrawl_manger.KeyImport.{ParsedKeyLine, is_skipped, parse_keys_text}
use firecrawl_manger.KeyImport.Laws.{parse_keys_text_accounts}
use firecrawl_manger.ControlPlane.{Db, assigned, is_known}
use firecrawl_manger.ControlPlane.Keys.{is_valid_provider, has_hash, unless_taken}
use firecrawl_manger.ControlPlane.Import.{
  ImportKeysTextRequest, Secrets, Account, Attempt, Import, add_failure, account_of,
  is_bound_elsewhere, binds, fills_account, fill_existing,
}
use firecrawl_manger.ControlPlane.Import.Lines.{
  update_imported, import_as, import_item, import_items, has_no_items, import_keys_text,
}

-- The lines that are done.
abbrev pub counted : Import → ℕ
counted s = s.created + s.updated + s.skipped + length s.failures

add_failure-counted :
    (item : ParsedKeyLine) (message : String) (s : Import)
    → counted (add_failure item message s) ≡ suc (counted s)
add_failure-counted item message s = omega (arith, length-append s.failures (_ ∷ []))

module _ (secrets : Secrets) (today : ℕ) (client_id : Option ℕ) (p : ImportKeysTextRequest) where
  fill_existing-counted :
      (item : ParsedKeyLine) (existing : ApiKey) (s : Import)
      → counted (fill_existing secrets client_id item existing s) ≡ suc (counted s)
  fill_existing-counted item existing s =
      elim (Bool-cases (is_bound_elsewhere client_id existing.client_id)) [
        | inl bound ↦ rw bound (add_failure-counted item _ s)
        | inr free ↦
            elim (Bool-cases (
              binds client_id existing.client_id
              || fills_account (account_of secrets item) (s.accounts existing.id))) [
                | inl changed ↦ rw (free, changed) (omega arith)
                | inr same ↦ rw (free, same) (omega arith)
              ]
      ]

  update_imported-counted :
      (item : ParsedKeyLine) (existing : Option ApiKey) (s : Import)
      → counted (update_imported secrets client_id item existing s) ≡ suc (counted s)
  update_imported-counted item none s = add_failure-counted item _ s
  update_imported-counted item (some existing) s = fill_existing-counted item existing s

  import_as-counted :
      (t : Attempt) (item : ParsedKeyLine) (answer : Answer) (s : Import)
      → t.released ≡ true
      → t.update_released ≡ true
      → counted (import_as secrets today client_id p t item answer s) ≡ suc (counted s)
  import_as-counted t item accepts s r u = rw r (omega arith)
  import_as-counted t item violated s r u = rw u (update_imported-counted item _ s)
  import_as-counted t item fails s r u = add_failure-counted item _ s

  import_items-counted :
      (tries : ℕ → Attempt) (items : List ParsedKeyLine) (s : Import)
      → ((i : ℕ) → (tries i).released ≡ true)
      → ((i : ℕ) → (tries i).update_released ≡ true)
      → counted (import_items secrets today client_id p tries items s) ≡ length items + counted s
  unfolding import_items import_item
  import_items-counted tries [] s r u = omega arith
  import_items-counted tries (item ∷ items) s r u =
      let t = tries item.line_no in
      let answer = unless_taken (has_hash (secrets.hash item.api_key) s.db.keys) t.flush in
      omega (
        arith,
        import_items-counted tries items (import_as secrets today client_id p t item answer s) r u,
        import_as-counted t item answer s (r item.line_no) (u item.line_no),
      )

-- An import that is admitted, has a line to import and commits is answered, and where every savepoint
-- is released, the keys created, updated and skipped and the failures are together as many as the
-- lines that are neither empty nor comments.
pub import_keys_text_counts :
    (secrets : Secrets) (today : ℕ) (p : ImportKeysTextRequest) (tries : ℕ → Attempt) (db : Db)
    (accounts : ℕ → Account)
    → secrets.has_master_key ≡ true
    → is_valid_provider p.provider ≡ true
    → is_known (assigned p.client_id) db.clients ≡ true
    → (let parsed = parse_keys_text secrets.fromisoformat p.lines in
        has_no_items parsed.0 parsed.1 ≡ false)
    → ((i : ℕ) → (tries i).released ≡ true)
    → ((i : ℕ) → (tries i).update_released ≡ true)
    → (end : Import) × (import_keys_text secrets today p tries true db accounts
        ≡ (ok end, end.db, end.accounts))
      × (counted end ≡ length (filter (λ raw. not (is_skipped raw)) p.lines))
unfolding import_keys_text
import_keys_text_counts secrets today p tries db accounts key provider known items r u =
    let parsed = parse_keys_text secrets.fromisoformat p.lines in
    let start : Import = record {
      db = db;
      accounts = accounts;
      created = 0;
      updated = 0;
      skipped = 0;
      failures = parsed.1;
    } in
    (
      import_items secrets today (assigned p.client_id) p tries parsed.0 start,
      rw (key, provider, known, items) refl,
      omega (
        arith,
        import_items-counted secrets today (assigned p.client_id) p tries parsed.0 start r u,
        (parse_keys_text_accounts secrets.fromisoformat p.lines).0,
      ),
    )
