-- ===== src/Forwarder/Answer.antt =====
-- app/core/forwarder.py, `Forwarder.forward`: the variables of a call, and what it does with an answer
-- of the upstream or with its absence.
use firecrawl_manger.Prelude.{
  ℕ, ◌+◌, ◌-◌, String, Bool, ◌&&◌, ◌||◌, Option, none, some, ltb, leb, ◌==◌, nat_equality,
  if◌then◌else◌,
}
use firecrawl_manger.Prelude.Text.{Text}
use firecrawl_manger.Errors.{
  Result, ok, err, FcamError, error, key_decrypt_failed, upstream_timeout, upstream_unavailable,
  all_keys_busy,
}
use firecrawl_manger.Models.{ApiKey}
use firecrawl_manger.Concurrency.{Lease, release}
use firecrawl_manger.KeyPool.{Scope}
use firecrawl_manger.Forwarder.{
  Settings, Try, World, Response, commit, set_key, disable_key, mark_cooling, record_failure,
  consume_quota_on_success, cooldown_of, estimate,
}

-- What stays the same during a call of `forward`. `str` is Python's function on the ids of keys.
pub record Request : Type 0 where
  pub settings : Settings
  pub total_attempts : ℕ
  pub scope : Scope
  pub is_get : Bool
  pub upstream_path : Text
  pub str : ℕ → String

-- The local variables of the loop.
pub record Vars : Type 0 where
  pub upstream_attempts : ℕ
  pub retry_count : ℕ
  pub decrypt_failed_seen : Bool
  pub last_upstream_status : Option ℕ
  pub last_api_key_id : Option ℕ

-- `class ForwardResult`
pub record ForwardResult : Type 0 where
  pub upstream_response : Response
  pub upstream_status_code : Option ℕ
  pub api_key_id : Option ℕ
  pub retry_count : ℕ

-- How a try ends: `continue`, `return` or `raise`.
pub data Next : Type 0 where
  again : Vars → Next
  returns : ForwardResult → Next
  raises : FcamError → Next

abbrev pub result_of : Vars → Response → ℕ → ForwardResult
result_of v resp retries = record {
  upstream_response = resp;
  upstream_status_code = v.last_upstream_status;
  api_key_id = v.last_api_key_id;
  retry_count = retries;
}

-- `retry_count += 1`, and then the last answer is returned or the next try begins.
unfoldable pub retry_or_return : Request → Vars → Response → Next
retry_or_return r v resp =
    let v' : Vars = record v { retry_count = v.retry_count + 1 } in
    if leb r.total_attempts v.upstream_attempts
    then returns (result_of v' resp (v'.retry_count - 1))
    else again v'

-- A status from 200 to 299: the estimate, and the quota or at least the estimate is written.
unfoldable pub account : Request → Try → ApiKey → Response → World → Result (Unit {0}) × World
account r t key resp w =
    if leb 200 resp.status_code && ltb resp.status_code 300
    then (let estimated = estimate r.settings r.is_get r.upstream_path resp key in
        if r.settings.count_success
        then (elim estimated [
          | none ↦ consume_quota_on_success t key w
          | some key' ↦ consume_quota_on_success t key' w
        ])
        else (elim estimated [
          | none ↦ (ok tt, w)
          | some key' ↦ (ok tt, (commit t (record w { keys = set_key key' w.keys })).1)
        ]))
    else (ok tt, w)

abbrev pub returns_or_raises : Vars → Response → Result (Unit {0}) × World → Next × World
returns_or_raises v resp (ok _, w) = (returns (result_of v resp v.retry_count), w)
returns_or_raises v resp (err e, w) = (raises e, w)

-- What an answer of the upstream leads to.
unfoldable pub handle_response : Request → Try → ApiKey → Vars → Response → World → Next × World
handle_response r t key v resp w =
    if resp.status_code == 429
    then (retry_or_return r v resp, mark_cooling t key (cooldown_of r.settings resp) w)
    else if resp.status_code == 401 || resp.status_code == 403
    then (retry_or_return r v resp, disable_key t key w)
    else if leb 500 resp.status_code
    then (retry_or_return r v resp, record_failure r.settings t key w)
    else returns_or_raises v resp (account r t key resp w)

-- A call that brought no answer: the failure is recorded, and the last one is raised.
unfoldable pub handle_failure : Request → Try → ApiKey → Vars → FcamError → World → Next × World
handle_failure r t key v e w =
    let v' : Vars = record v {
      retry_count = v.retry_count + 1;
      upstream_attempts = v.upstream_attempts + 1;
    } in
    (
      if leb r.total_attempts v'.upstream_attempts then raises e else again v',
      record_failure r.settings t key w,
    )

abbrev pub timeout_error : FcamError
timeout_error = error 504 upstream_timeout "Upstream timeout"

abbrev pub unavailable_error : FcamError
unavailable_error = error 503 upstream_unavailable "Upstream unavailable"

abbrev pub decrypt_error : FcamError
decrypt_error = error 503 key_decrypt_failed "Failed to decrypt API key; check FCAM_MASTER_KEY"

abbrev pub busy_error : FcamError
busy_error = error 503 all_keys_busy "All keys busy or rate-limited"

-- `finally: lease.release()`
abbrev pub releasing : Lease → World → World
releasing lease w = record w { states = (release lease w.states).1 }
