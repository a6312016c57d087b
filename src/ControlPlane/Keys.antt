-- ===== src/ControlPlane/Keys.antt =====
-- app/api/control_plane.py: the admin routes that change keys. The keys that a response shows are not
-- modelled.
use firecrawl_manger.Prelude.{
  ℕ, String, Bool, true, false, not, ◌&&◌, ◌||◌, Option, none, some, List, [], ◌∷◌, ◌++◌, filter,
  any, is_some, leb, ◌==◌, nat_equality, string_equality, map, if◌then◌else◌,
}
use firecrawl_manger.Errors.{
  Result, err, FcamError, error, not_ready, validation_error, not_found, api_key_duplicate,
  database_unavailable,
}
use firecrawl_manger.Models.{
  ApiKey, Status, active, cooling, failed, disabled, quota_exceeded, RequestLog,
}
use firecrawl_manger.ResourceBinding.{Answer, violated}
use firecrawl_manger.KeyPool.{option_beq}
use firecrawl_manger.Forwarder.{set_key}
use firecrawl_manger.Forwarder.Keys.{find_key}
use firecrawl_manger.ControlPlane.{Db, audit, commit, missing, assigned, is_known}

-- The secrets and what is made with them: `hmac_sha256_hex` and `encrypt_api_key`.
pub record Vault : Type 0 where
  pub has_master_key : Bool
  pub hash : String → String
  pub encrypt : String → String

-- `class CreateKeyRequest`
pub record CreateKeyRequest : Type 0 where
  pub api_key : String
  pub client_id : Option ℕ
  pub name : Option String
  pub plan_type : String
  pub daily_quota : ℕ
  pub max_concurrent : ℕ
  pub rate_limit_per_min : ℕ
  pub is_active : Bool
  pub provider : String

abbrev pub is_valid_provider : String → Bool
is_valid_provider provider = provider == "firecrawl" || provider == "exa"

abbrev pub no_master_key : FcamError
no_master_key = error 503 not_ready "Master key not configured"

abbrev pub duplicate_key : FcamError
duplicate_key = error 409 api_key_duplicate "Duplicate api key"

-- The answer to a commit, where the unique constraint on the hash is violated.
abbrev pub unless_taken : Bool → Answer → Answer
unless_taken true answer = violated
unless_taken false answer = answer

abbrev pub has_hash : String → List ApiKey → Bool
has_hash hash keys = any (λ k. k.api_key_hash == hash) keys

-- The row of a new key.
abbrev pub new_key : Vault → ℕ → ℕ → Option ℕ → CreateKeyRequest → ApiKey
new_key vault new_id today client_id p = record {
  id = new_id;
  client_id = client_id;
  api_key_ciphertext = vault.encrypt p.api_key;
  api_key_hash = vault.hash p.api_key;
  name = p.name;
  plan_type = p.plan_type;
  is_active = p.is_active;
  daily_quota = some p.daily_quota;
  daily_usage = 0;
  quota_reset_at = some today;
  max_concurrent = p.max_concurrent;
  rate_limit_per_min = p.rate_limit_per_min;
  cooldown_until = none;
  total_requests = 0;
  last_used_at = none;
  cached_remaining_credits = none;
  cached_plan_credits = none;
  next_refresh_at = none;
  provider = p.provider;
  status = if p.is_active then active else disabled;
}

-- `create_key`
unfoldable pub create_key : Vault → ℕ → ℕ → Answer → CreateKeyRequest → Db → Result (Unit {0}) × Db
unfolding commit
create_key vault new_id today answer p db =
    if not vault.has_master_key
    then (err no_master_key, db)
    else if not (is_valid_provider p.provider)
    then (err (error 400 validation_error "Invalid provider"), db)
    else if not (is_known (assigned p.client_id) db.clients)
    then (err (error 404 not_found "Client not found"), db)
    else let key : ApiKey = new_key vault new_id today (assigned p.client_id) p in
      commit duplicate_key (unless_taken (has_hash key.api_key_hash db.keys) answer) db
        (audit "key.create" (some new_id) (record db { keys = db.keys ++ (key ∷ []) }))

-- `class UpdateKeyRequest`
pub record UpdateKeyRequest : Type 0 where
  pub client_id : Option ℕ
  pub name : Option String
  pub plan_type : Option String
  pub daily_quota : Option ℕ
  pub max_concurrent : Option ℕ
  pub rate_limit_per_min : Option ℕ
  pub is_active : Option Bool
  pub api_key : Option String

abbrev pub or_else {ℓ} : {A : Type ℓ} → Option A → A → A
or_else none old = old
or_else (some new) old = new

abbrev pub with_client : Option ℕ → ApiKey → ApiKey
with_client none key = key
with_client (some id) key = record key { client_id = assigned (some id) }

abbrev pub with_secret : Vault → Option String → ApiKey → ApiKey
with_secret vault none key = key
with_secret vault (some api_key) key = record key {
  api_key_ciphertext = vault.encrypt api_key;
  api_key_hash = vault.hash api_key;
}

abbrev pub with_quota : Option ℕ → ApiKey → ApiKey
with_quota none key = key
with_quota (some quota) key = record key {
  daily_quota = some quota;
  status = if leb quota key.daily_usage then quota_exceeded else key.status;
}

abbrev pub is_status : Status → Status → Bool
is_status disabled disabled = true
is_status quota_exceeded quota_exceeded = true
is_status cooling cooling = true
is_status failed failed = true
is_status _ _ = false

abbrev pub with_activity : Option Bool → ApiKey → ApiKey
with_activity none key = key
with_activity (some false) key = record key { is_active = false; status = disabled }
with_activity (some true) key = record key {
  is_active = true;
  status = if is_status key.status disabled then active else key.status;
}

-- The columns that `update_key` and `batch_keys` change alike.
abbrev pub with_limits : Option ℕ → Option ℕ → Option ℕ → Option Bool → ApiKey → ApiKey
with_limits daily_quota max_concurrent rate_limit_per_min is_active key =
    let k1 : ApiKey = with_quota daily_quota key in
    with_activity is_active (record k1 {
      max_concurrent = or_else max_concurrent k1.max_concurrent;
      rate_limit_per_min = or_else rate_limit_per_min k1.rate_limit_per_min;
    })

abbrev pub updated_key : Vault → UpdateKeyRequest → ApiKey → ApiKey
updated_key vault p key =
    let k1 : ApiKey = with_secret vault p.api_key (with_client p.client_id key) in
    with_limits p.daily_quota p.max_concurrent p.rate_limit_per_min p.is_active
      (record k1 { name = named p.name k1.name; plan_type = or_else p.plan_type k1.plan_type })
  where
    named : Option String → Option String → Option String
    named none old = old
    named (some new) old = some new

-- The new secret is that of another key.
abbrev pub is_stolen : ApiKey → List ApiKey → Bool
is_stolen key keys = any (λ k. not (k.id == key.id) && k.api_key_hash == key.api_key_hash) keys

abbrev pub audit_rotation : Option String → ℕ → Db → Db
audit_rotation none id db = db
audit_rotation (some _) id db = audit "key.rotate" (some id) db

-- `update_key`
unfoldable pub update_key : Vault → Answer → ℕ → UpdateKeyRequest → Db → Result (Unit {0}) × Db
unfolding commit
update_key vault answer key_id p db = elim (find_key key_id db.keys) [
  | none ↦ (err missing, db)
  | some key ↦
      if not (is_known (assigned p.client_id) db.clients)
      then (err (error 404 not_found "Client not found"), db)
      else if is_some p.api_key && not vault.has_master_key
      then (err no_master_key, db)
      else let key' : ApiKey = updated_key vault p key in
        commit duplicate_key (unless_taken (is_stolen key' db.keys) answer) db (
          audit "key.update" (some key_id)
            (audit_rotation p.api_key key_id (record db { keys = set_key key' db.keys })))
]

abbrev pub switched_off : ApiKey → ApiKey
switched_off key = record key { is_active = false; status = disabled }

-- `delete_key`
unfoldable pub delete_key : Answer → ℕ → Db → Result (Unit {0}) × Db
unfolding commit
delete_key answer key_id db = elim (find_key key_id db.keys) [
  | none ↦ (err missing, db)
  | some key ↦
      commit database_unavailable answer db
        (audit "key.delete" (some key_id) (record db { keys = set_key (switched_off key) db.keys }))
]

abbrev pub unlink_key : ℕ → RequestLog → RequestLog
unlink_key id log =
    if option_beq log.api_key_id (some id) then record log { api_key_id = none } else log

-- `purge_key`
unfoldable pub purge_key : Answer → ℕ → Db → Result (Unit {0}) × Db
unfolding commit
purge_key answer key_id db = elim (find_key key_id db.keys) [
  | none ↦ (err missing, db)
  | some key ↦ commit database_unavailable answer db (
      audit "key.purge" (some key_id) (record db {
        keys = filter (λ k. not (k.id == key_id)) db.keys;
        logs = map (unlink_key key_id) db.logs;
      }))
]

-- `reset_keys_quota`
abbrev pub reset_quota : ℕ → ApiKey → ApiKey
reset_quota today key = record key {
  daily_usage = 0;
  quota_reset_at = some today;
  status = if is_status key.status quota_exceeded && key.is_active then active else key.status;
}

unfoldable pub reset_keys_quota : ℕ → Answer → Db → Result (Unit {0}) × Db
unfolding commit
reset_keys_quota today answer db =
    commit database_unavailable answer db
      (audit "quota.reset" none (record db { keys = map (reset_quota today) db.keys }))
