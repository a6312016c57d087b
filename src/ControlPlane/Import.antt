-- ===== src/ControlPlane/Import.antt =====
-- app/api/control_plane.py: what `import_keys_text` does with the key of a line; the loop over the lines
-- is in ControlPlane/Import/Lines. The columns of a key's account stand in a table of
-- their own. The texts of database errors, and the last four characters of a key, are left out.
pub mod Counts
pub mod Lines
pub mod Runs
mod Tests
use firecrawl_manger.Prelude.{
  ℕ, zero, suc, ◌+◌, String, Bool, true, false, not, ◌&&◌, ◌||◌, Option, none, some, List, [], ◌∷◌,
  ◌++◌, find, is_some, ◌==◌, nat_equality, string_equality, if◌then◌else◌, length,
}
use firecrawl_manger.Prelude.Text.{Text}
use firecrawl_manger.Errors.{
  Result, ok, err, FcamError, error, validation_error, not_found, database_unavailable,
}
use firecrawl_manger.Models.{ApiKey, active, disabled}
use firecrawl_manger.ResourceBinding.{Answer, accepts, violated, fails}
use firecrawl_manger.Forwarder.{set_key}
use firecrawl_manger.KeyImport.{ParsedKeyLine, ParseFailure, Parsed, parse_keys_text}
use firecrawl_manger.ControlPlane.{Db, audit, assigned, is_known}
use firecrawl_manger.ControlPlane.Keys.{is_valid_provider, no_master_key, has_hash, unless_taken}

-- `class ImportKeysTextRequest`, its text split into lines.
pub record ImportKeysTextRequest : Type 0 where
  pub client_id : Option ℕ
  pub lines : List Text
  pub plan_type : String
  pub daily_quota : ℕ
  pub max_concurrent : ℕ
  pub rate_limit_per_min : ℕ
  pub is_active : Bool
  pub provider : String

-- The secrets, with `hmac_sha256_hex`, `encrypt_api_key` and `encrypt_account_password`, and
-- `datetime.fromisoformat`.
pub record Secrets : Type 0 where
  pub has_master_key : Bool
  pub hash : Text → String
  pub encrypt : Text → String
  pub encrypt_password : Text → String
  pub fromisoformat : Text → Parsed ℕ

-- The columns `account_*` of a key.
pub record Account : Type 0 where
  pub username : Option Text
  pub password : Option String
  pub verified_at : Option ℕ

-- What the database answers for a line: the id of its row, the flush of the row, whether the savepoint
-- around it is released, and whether the second savepoint is.
pub record Attempt : Type 0 where
  pub new_id : ℕ
  pub flush : Answer
  pub released : Bool
  pub update_released : Bool

-- The variables of the loop, with the tables.
pub record Import : Type 0 where
  pub db : Db
  pub accounts : ℕ → Account
  pub created : ℕ
  pub updated : ℕ
  pub skipped : ℕ
  pub failures : List ParseFailure

abbrev pub add_failure : ParsedKeyLine → String → Import → Import
add_failure item message s = record s {
  failures =
      s.failures ++ record { line_no = item.line_no; raw = item.raw; message = message } ∷ [];
}

-- The end of a savepoint: where it is not released, the tables are those of its start and the line
-- fails, but the counters stay.
abbrev pub leave_savepoint : Bool → ParsedKeyLine → Import → Import → Import
leave_savepoint true item before after = after
leave_savepoint false item before after =
    add_failure item "savepoint" (record after { db = before.db; accounts = before.accounts })

abbrev pub imported_key :
    Secrets → ℕ → ℕ → Option ℕ → ImportKeysTextRequest → ParsedKeyLine → ApiKey
imported_key secrets new_id today client_id p item = record {
  id = new_id;
  client_id = client_id;
  api_key_ciphertext = secrets.encrypt item.api_key;
  api_key_hash = secrets.hash item.api_key;
  name = none;
  plan_type = p.plan_type;
  is_active = p.is_active;
  daily_quota = some p.daily_quota;
  daily_usage = 0;
  quota_reset_at = some today;
  max_concurrent = p.max_concurrent;
  rate_limit_per_min = p.rate_limit_per_min;
  cooldown_until = none;
  total_requests = 0;
  last_used_at = none;
  cached_remaining_credits = none;
  cached_plan_credits = none;
  next_refresh_at = none;
  provider = p.provider;
  status = if p.is_active then active else disabled;
}

abbrev pub set_account : ℕ → Account → (ℕ → Account) → ℕ → Account
set_account id account accounts k = if k == id then account else accounts k

abbrev encrypted : Secrets → Option Text → Option String
encrypted secrets none = none
encrypted secrets (some password) = some (secrets.encrypt_password password)

abbrev pub account_of : Secrets → ParsedKeyLine → Account
account_of secrets item = record {
  username = item.account_username;
  password = encrypted secrets item.account_password;
  verified_at = item.account_verified_at;
}

-- A key is added.
abbrev pub create_imported :
    Secrets → ℕ → ℕ → Option ℕ → ImportKeysTextRequest → ParsedKeyLine → Import → Import
create_imported secrets new_id today client_id p item s = record s {
  db =
      audit "key.import_text.create" (some new_id) (record s.db {
        keys = s.db.keys ++ imported_key secrets new_id today client_id p item ∷ [];
      });
  accounts = set_account new_id (account_of secrets item) s.accounts;
  created = s.created + 1;
}

-- A column is filled where it is empty and the line has a value.
abbrev pub fill {ℓ} : {A : Type ℓ} → Option A → Option A → Option A
fill (some new) none = some new
fill _ old = old

abbrev fills {ℓ} : {A : Type ℓ} → Option A → Option A → Bool
fills (some new) none = true
fills _ old = false

abbrev pub fill_account : Account → Account → Account
fill_account new old = record {
  username = fill new.username old.username;
  password = fill new.password old.password;
  verified_at = fill new.verified_at old.verified_at;
}

abbrev pub fills_account : Account → Account → Bool
fills_account new old =
    fills new.username old.username
    || fills new.password old.password
    || fills new.verified_at old.verified_at

abbrev pub is_bound_elsewhere : Option ℕ → Option ℕ → Bool
is_bound_elsewhere (some id) (some other) = not (other == id)
is_bound_elsewhere _ _ = false

abbrev pub binds : Option ℕ → Option ℕ → Bool
binds (some id) none = true
binds _ _ = false

-- The key is there: its empty columns are filled.
abbrev pub fill_existing : Secrets → Option ℕ → ParsedKeyLine → ApiKey → Import → Import
fill_existing secrets client_id item existing s =
    let new : Account = account_of secrets item in
    if is_bound_elsewhere client_id existing.client_id
    then add_failure item "api key already bound to a different client" s
    else if binds client_id existing.client_id || fills_account new (s.accounts existing.id)
    then record s {
      db = audit "key.import_text.update" (some existing.id) (record s.db {
        keys =
            set_key (record existing { client_id = fill client_id existing.client_id }) s.db.keys;
      });
      accounts = set_account existing.id (fill_account new (s.accounts existing.id)) s.accounts;
      updated = s.updated + 1;
    }
    else record s { skipped = s.skipped + 1 }

abbrev pub find_hash : String → List ApiKey → Option ApiKey
find_hash hash keys = find (λ k. k.api_key_hash == hash) keys
