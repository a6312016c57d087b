-- ===== src/Errors.antt =====
-- app/errors.py: the exception that every component raises, and functions that may raise it.
use firecrawl_manger.Prelude.{ℕ, String, Option, none}

-- The `code` strings of the errors that the modelled components raise.
pub data Code : Type 0 where
  db_unavailable no_key_configured all_keys_disabled all_keys_quota_exceeded : Code
  all_keys_cooling no_key_available not_ready all_keys_busy key_decrypt_failed : Code
  upstream_timeout upstream_unavailable provider_not_configured validation_error : Code
  idempotency_key_required idempotency_key_conflict idempotency_in_progress : Code
  request_too_large client_unauthorized admin_unauthorized client_disabled : Code
  client_concurrency_limited client_rate_limited client_quota_exceeded : Code
  not_found api_key_duplicate internal_error path_not_allowed unsupported_media_type : Code
  decryption_failed timeout upstream_error invalid_api_key rate_limited : Code
  key_not_found client_not_found unsupported_provider_operation refresh_too_frequent : Code

-- `class FcamError`, less the `details` that only the JSON body shows.
pub record FcamError : Type 0 where
  pub status_code : ℕ
  pub code : Code
  pub message : String
  pub retry_after : Option ℕ

abbrev pub error : ℕ → Code → String → FcamError
error s c m = record { status_code = s; code = c; message = m; retry_after = none }

-- What nearly every handler raises when the database fails.
abbrev pub database_unavailable : FcamError
database_unavailable = error 503 db_unavailable "Database unavailable"

-- What the stores in Redis raise when it fails.
abbrev pub state_unavailable : FcamError
state_unavailable = error 503 db_unavailable "State backend unavailable"

pub data Result {ℓ} (A : Type ℓ) : Type ℓ where
  ok : A → Result A
  err : FcamError → Result A
