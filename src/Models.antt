-- ===== src/Models.antt =====
-- app/db/models.py: the columns of the tables that the modelled components read or write. Times are
-- microseconds since the epoch, dates are numbers of days, and `none` is NULL.
use firecrawl_manger.Prelude.{ℕ, String, Bool, Option}
use firecrawl_manger.Prelude.Text.{Text}

-- The values that the code gives `ApiKey.status`.
pub data Status : Type 0 where
  active cooling failed disabled quota_exceeded decrypt_failed : Status

-- `class ApiKey`, less the columns that only the admin pages show.
pub record ApiKey : Type 0 where
  pub id : ℕ
  pub client_id : Option ℕ
  pub api_key_ciphertext : String
  pub api_key_hash : String
  pub name : Option String
  pub plan_type : String
  pub is_active : Bool
  pub daily_quota : Option ℕ
  pub daily_usage : ℕ
  pub quota_reset_at : Option ℕ
  pub max_concurrent : ℕ
  pub rate_limit_per_min : ℕ
  pub cooldown_until : Option ℕ
  pub total_requests : ℕ
  pub last_used_at : Option ℕ
  pub cached_remaining_credits : Option ℕ
  pub cached_plan_credits : Option ℕ
  pub next_refresh_at : Option ℕ
  pub provider : String
  pub status : Status

-- `class Client`, likewise.
pub record Client : Type 0 where
  pub id : ℕ
  pub name : String
  pub token_hash : String
  pub is_active : Bool
  pub daily_quota : Option ℕ
  pub daily_usage : ℕ
  pub quota_reset_at : Option ℕ
  pub rate_limit_per_min : ℕ
  pub max_concurrent : ℕ
  pub last_used_at : Option ℕ
  pub status : String

-- `class RequestLog`, less the columns that nothing but its page reads.
pub record RequestLog : Type 0 where
  pub id : ℕ
  pub client_id : Option ℕ
  pub api_key_id : Option ℕ
  pub status_code : Option ℕ
  pub success : Option Bool

pub data RecordStatus : Type 0 where
  in_progress completed : RecordStatus

-- `class IdempotencyRecord`
pub record IdempotencyRecord : Type 0 where
  pub id : ℕ
  pub client_id : ℕ
  pub idempotency_key : String
  pub request_hash : String
  pub status : RecordStatus
  pub response_status_code : Option ℕ
  pub response_body : Option String
  pub expires_at : Option ℕ

-- `class UpstreamResourceBinding`
pub record UpstreamResourceBinding : Type 0 where
  pub client_id : ℕ
  pub api_key_id : ℕ
  pub resource_type : Text
  pub resource_id : Text
  pub created_at : ℕ
  pub expires_at : Option ℕ
