-- ===== src/ControlPlane/Import/Lines.antt =====
-- app/api/control_plane.py: the loop of `import_keys_text` over the lines, and the call as a whole.
use firecrawl_manger.Prelude.{
  ℕ, Bool, true, false, not, Option, none, some, List, [], ◌∷◌, nat_equality, string_equality,
  if◌then◌else◌,
}
use firecrawl_manger.Errors.{
  Result, ok, err, error, validation_error, not_found, database_unavailable,
}
use firecrawl_manger.Models.{ApiKey}
use firecrawl_manger.ResourceBinding.{Answer, accepts, violated, fails}
use firecrawl_manger.KeyImport.{ParsedKeyLine, ParseFailure, parse_keys_text}
use firecrawl_manger.ControlPlane.{Db, assigned, is_known}
use firecrawl_manger.ControlPlane.Keys.{is_valid_provider, no_master_key, has_hash, unless_taken}
use firecrawl_manger.ControlPlane.Import.{
  ImportKeysTextRequest, Secrets, Account, Attempt, Import, add_failure, leave_savepoint,
  create_imported, fill_existing, find_hash,
}

-- The handler of the `IntegrityError`.
abbrev pub update_imported : Secrets → Option ℕ → ParsedKeyLine → Option ApiKey → Import → Import
update_imported secrets client_id item none s =
    add_failure item "duplicate api key but existing record missing" s
update_imported secrets client_id item (some existing) s =
    fill_existing secrets client_id item existing s

abbrev pub import_as :
    Secrets
    → ℕ
    → Option ℕ
    → ImportKeysTextRequest
    → Attempt
    → ParsedKeyLine
    → Answer
    → Import
    → Import
import_as secrets today client_id p t item accepts s =
    leave_savepoint t.released item s (create_imported secrets t.new_id today client_id p item s)
import_as secrets today client_id p t item violated s =
    leave_savepoint t.update_released item s
      (update_imported secrets client_id item (find_hash (secrets.hash item.api_key) s.db.keys) s)
import_as secrets today client_id p t item fails s = add_failure item "database" s

-- The body of the loop.
unfoldable pub import_item :
    Secrets → ℕ → Option ℕ → ImportKeysTextRequest → Attempt → ParsedKeyLine → Import → Import
import_item secrets today client_id p t item s =
    import_as secrets today client_id p t item
      (unless_taken (has_hash (secrets.hash item.api_key) s.db.keys) t.flush) s

unfoldable pub import_items :
    Secrets
    → ℕ
    → Option ℕ
    → ImportKeysTextRequest
    → (ℕ → Attempt)
    → List ParsedKeyLine
    → Import
    → Import
import_items secrets today client_id p tries [] s = s
import_items secrets today client_id p tries (item ∷ items) s =
    import_items secrets today client_id p tries items
      (import_item secrets today client_id p (tries item.line_no) item s)

abbrev pub has_no_items : List ParsedKeyLine → List ParseFailure → Bool
has_no_items [] (f ∷ failures) = true
has_no_items _ _ = false

-- The loop and its commit; the answer has the counters and the failures.
abbrev pub import_parsed :
    Secrets
    → ℕ
    → ImportKeysTextRequest
    → (ℕ → Attempt)
    → Bool
    → List ParsedKeyLine × List ParseFailure
    → Db
    → (ℕ → Account)
    → Result Import × Db × (ℕ → Account)
import_parsed secrets today p tries commit_ok (items, failures) db accounts =
    if has_no_items items failures
    then (err (error 400 validation_error "No valid lines to import"), db, accounts)
    else let end : Import =
        import_items secrets today (assigned p.client_id) p tries items (record {
          db = db;
          accounts = accounts;
          created = 0;
          updated = 0;
          skipped = 0;
          failures = failures;
        }) in
      if commit_ok then (ok end, end.db, end.accounts) else (err database_unavailable, db, accounts)

-- `import_keys_text`
unfoldable pub import_keys_text :
    Secrets
    → ℕ
    → ImportKeysTextRequest
    → (ℕ → Attempt)
    → Bool
    → Db
    → (ℕ → Account)
    → Result Import × Db × (ℕ → Account)
import_keys_text secrets today p tries commit_ok db accounts =
    if not secrets.has_master_key
    then (err no_master_key, db, accounts)
    else if not (is_valid_provider p.provider)
    then (err (error 400 validation_error "Invalid provider"), db, accounts)
    else if not (is_known (assigned p.client_id) db.clients)
    then (err (error 404 not_found "Client not found"), db, accounts)
    else import_parsed secrets today p tries commit_ok
        (parse_keys_text secrets.fromisoformat p.lines) db accounts
