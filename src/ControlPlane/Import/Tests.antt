-- ===== src/ControlPlane/Import/Tests.antt =====
-- `import_keys_text` of app/api/control_plane.py on a text with a comment, the same key twice and a line
-- that is too short.
use firecrawl_manger.Prelude.{ℕ, ◌≡◌, refl, true, false, not, none, some, [], ◌∷◌, filter, length}
use firecrawl_manger.Prelude.Text.{text, split, strip}
use firecrawl_manger.Errors.{ok}
use firecrawl_manger.ResourceBinding.{accepts}
use firecrawl_manger.Forwarder.Tests.{client}
use firecrawl_manger.KeyImport.{
  refused, is_skipped, parse_keys_text, parse_lines, parse_line, split_fields,
}
use firecrawl_manger.ControlPlane.{Db}
use firecrawl_manger.ControlPlane.Import.{ImportKeysTextRequest, Secrets, Account, Attempt, Import}
use firecrawl_manger.ControlPlane.Import.Lines.{
  import_keys_text, import_items, import_item, has_no_items,
}
use firecrawl_manger.ControlPlane.Import.Counts.{counted, import_keys_text_counts}

abbrev secrets : Secrets
secrets = record {
  has_master_key = true;
  hash = λ key. "hash";
  encrypt = λ key. "secret";
  encrypt_password = λ password. "secret";
  fromisoformat = λ s. refused "Invalid isoformat string";
}

abbrev request : ImportKeysTextRequest
request = record {
  client_id = some 1;
  lines =
      text "# keys"
      ∷ text "fc-0123456789"
      ∷ text "user, fc-0123456789"
      ∷ text "user|fc-0123456789"
      ∷ text "fc-1"
      ∷ [];
  plan_type = "free";
  daily_quota = 5;
  max_concurrent = 2;
  rate_limit_per_min = 10;
  is_active = true;
  provider = "firecrawl";
}

abbrev tries : ℕ → Attempt
tries i = record { new_id = i; flush = accepts; released = true; update_released = true }

abbrev tables : Db
tables = record { keys = []; clients = client ∷ []; logs = []; records = []; audits = [] }

abbrev accounts : ℕ → Account
accounts id = record { username = none; password = none; verified_at = none }

-- The key is created, then its user is filled in, and then nothing is new.
abbrev outcome : Import → ℕ × ℕ × ℕ × ℕ
outcome s = (s.created, s.updated, s.skipped, length s.failures)

abbrev imported : Import
imported =
    import_items secrets 20 (some 1) request tries
      (parse_keys_text secrets.fromisoformat request.lines).0
      (record {
        db = tables;
        accounts = accounts;
        created = 0;
        updated = 0;
        skipped = 0;
        failures = (parse_keys_text secrets.fromisoformat request.lines).1;
      })

counters : outcome imported ≡ (1, 1, 1, 1)
unfolding import_items import_item parse_keys_text parse_lines parse_line split_fields split strip
counters = refl

some_items :
    (let parsed = parse_keys_text secrets.fromisoformat request.lines in
      has_no_items parsed.0 parsed.1)
    ≡ false
unfolding parse_keys_text parse_lines parse_line split_fields split strip
some_items = refl

import_keys_text_counts_example :
    (end : Import) × (import_keys_text secrets 20 request tries true tables accounts
      ≡ (ok end, end.db, end.accounts))
    × (counted end ≡ length (filter (λ raw. not (is_skipped raw)) request.lines))
import_keys_text_counts_example =
    import_keys_text_counts secrets 20 request tries tables accounts refl refl refl some_items
      (λ i. refl) (λ i. refl)
