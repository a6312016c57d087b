-- ===== src/Forwarder.antt =====
-- app/core/forwarder.py, `Forwarder`: the state that a forwarded request works on, and what the answers
-- of the upstream do to a key. The database, the clock, decryption and the upstream are not part of the
-- repository: each try of the loop meets its own answers of theirs (`Try`).
pub mod Answer
pub mod Loop
pub mod Pinned
pub mod Providers
pub mod KeyTest
pub mod Frame
pub mod Slots
pub mod Answers
pub mod Sound
pub mod Attempts
pub mod Keys
pub mod Tests
use firecrawl_manger.Prelude.{
  ℕ, ◌+◌, ◌-◌, ◌*◌, max, String, Bool, true, false, not, ◌&&◌, ◌||◌, Option, none, some, List, [],
  ◌∷◌, map, is_some, ltb, leb, ◌==◌, nat_equality, if◌then◌else◌,
}
use firecrawl_manger.Prelude.Dict.{Dict, insert, get}
use firecrawl_manger.Prelude.Int.{ℤ, clamp}
use firecrawl_manger.Prelude.Text.{Text}
use firecrawl_manger.Errors.{Result, ok, err, FcamError, error, database_unavailable}
use firecrawl_manger.Models.{
  ApiKey, Client, Status, active, cooling, failed, disabled, quota_exceeded, decrypt_failed,
}
use firecrawl_manger.Concurrency.{States}
use firecrawl_manger.RateLimit.{Buckets}
use firecrawl_manger.KeyPool.{Env, Indices, is_disabled}
use firecrawl_manger.CreditEstimator.{
  ResponseData, credit_cost_map, lookup_cost, estimate_credit_cost, normalize_endpoint,
}

-- What the code reads of `httpx.Response`: `retry_after` is `int(…)` of the header, where that is a
-- number; `json` is the body, where it is a JSON object that is not empty, and `content` its bytes.
pub record Response : Type 0 where
  pub status_code : ℕ
  pub retry_after : Option ℤ
  pub json : Option ResponseData
  pub headers : List (Text × Text)
  pub content : List ℕ

-- How `client_http.request` ends: by an answer, `httpx.TimeoutException` or another `httpx.HTTPError`.
pub data Reply : Type 0 where
  response : Response → Reply
  timeout http_error : Reply

-- What one try of the loop meets: the answers to `select`, the clocks, decryption (`none` if it
-- raises), the upstream's reply to a key, whether the commit that follows goes through, and the rows
-- that the session shows after a rollback.
pub record Try : Type 0 where
  pub env : Env
  pub monotonic : ℕ
  pub decrypt : String → Option String
  pub reply : String → Reply
  pub now : ℕ
  pub commit_ok : Bool
  pub stored : List ApiKey
  pub stored_client : Client

-- The settings that the code reads of `AppConfig`.
pub record Settings : Type 0 where
  pub has_master_key : Bool
  pub failure_threshold : ℕ
  pub failure_window_seconds : ℕ
  pub failed_cooldown_seconds : ℕ
  pub cooldown_seconds : ℕ
  pub credit_monitoring_enabled : Bool
  pub local_estimation_enabled : Bool
  pub sync_on_request : Bool
  pub count_success : Bool

-- A call of the upstream: the key that was sent, and what came back.
pub record UpstreamCall : Type 0 where
  pub key_id : ℕ
  pub reply : Reply

abbrev pub calling : ℕ → Reply → UpstreamCall
calling id reply = record { key_id = id; reply = reply }

-- What a request changes: the rows of the session, the round robin, the semaphores and buckets of the
-- keys, the failures (`_failures`), and, newest first, the calls of the upstream and those of
-- `set_cooldown`.
pub record World : Type 0 where
  pub keys : List ApiKey
  pub client : Client
  pub indices : Indices
  pub states : States
  pub buckets : Buckets
  pub failures : Dict ℕ (ℕ × ℕ)
  pub requests : List UpstreamCall
  pub cooldowns : List (ℕ × ℕ)

-- Attributes of a row are written.
abbrev pub set_key : ApiKey → List ApiKey → List ApiKey
set_key key = map (λ r. if r.id == key.id then key else r)

-- `db.commit()`, or `db.rollback()` where it raises.
unfoldable pub commit : Try → World → Bool × World
commit t w =
    if t.commit_ok
    then (true, w)
    else (false, record w { keys = t.stored; client = t.stored_client })

abbrev pub write_key : Try → ApiKey → World → Bool × World
write_key t key w = commit t (record w { keys = set_key key w.keys })

-- `_disable_key_decrypt_failed`
unfoldable pub disable_key_decrypt_failed : Try → ApiKey → World → World
unfolding commit
disable_key_decrypt_failed t key w =
    (write_key t (record key { status = decrypt_failed; is_active = false }) w).1

-- `_disable_key`
unfoldable pub disable_key : Try → ApiKey → World → World
unfolding commit
disable_key t key w = (write_key t (record key { status = disabled; is_active = false }) w).1

-- `_mark_active`
unfoldable pub mark_active : Try → ApiKey → World → World
unfolding commit is_disabled
mark_active t key w =
    if is_disabled key
    then w
    else (write_key t (record key { status = active; cooldown_until = none }) w).1

abbrev pub microseconds : ℕ → ℕ
microseconds s = s * 1_000_000

-- `_mark_cooling`
unfoldable pub mark_cooling : Try → ApiKey → ℕ → World → World
unfolding commit is_disabled
mark_cooling t key cooldown_seconds w =
    if is_disabled key
    then w
    else let cooled : ApiKey = record key {
      status = cooling;
      cooldown_until = some (t.now + microseconds cooldown_seconds);
    } in
      let (done, w') = write_key t cooled w in
      if done then record w' { cooldowns = (key.id, cooldown_seconds) ∷ w'.cooldowns } else w'

-- The count of failures of a key in the running window, this one included, and when it began.
unfoldable pub count_failure : Settings → ℕ → Option (ℕ × ℕ) → ℕ × ℕ
count_failure s now none = (1, now)
count_failure s now (some (count, first_at)) =
    if ltb (microseconds s.failure_window_seconds) (now - first_at)
    then (1, now)
    else (count + 1, first_at)

-- `_record_failure`
unfoldable pub record_failure : Settings → Try → ApiKey → World → World
unfolding commit is_disabled count_failure
record_failure s t key w =
    if is_disabled key
    then w
    else let (count, first_at) = count_failure s t.now (w.failures key.id) in
      let w' : World = record w { failures = insert key.id (count, first_at) w.failures } in
      if ltb count s.failure_threshold
      then w'
      else let failing : ApiKey = record key {
        status = failed;
        cooldown_until = some (t.now + microseconds (max s.failed_cooldown_seconds 1));
      } in
        (write_key t failing w').1

abbrev use_client : ℕ → Client → Client
use_client now c = record c {
  daily_usage = if is_some c.daily_quota then c.daily_usage + 1 else c.daily_usage;
  last_used_at = some now;
}

abbrev quota_reached : ApiKey → Bool
quota_reached key = elim key.daily_quota [ none ↦ false | some quota ↦ leb quota key.daily_usage ]

abbrev use_key : ℕ → ApiKey → ApiKey
use_key now key =
    let used : ApiKey = record key {
      daily_usage = key.daily_usage + 1;
      total_requests = key.total_requests + 1;
      last_used_at = some now;
    } in
    if quota_reached used then record used { status = quota_exceeded } else used

-- `_consume_quota_on_success`
unfoldable pub consume_quota_on_success : Try → ApiKey → World → Result (Unit {0}) × World
unfolding commit
consume_quota_on_success t key w =
    let (done, w') =
      write_key t (use_key t.now key) (record w { client = use_client t.now w.client }) in
    (if done then ok tt else err database_unavailable, w')

-- `_parse_retry_after(resp.headers) or cooldown_seconds`
unfoldable pub cooldown_of : Settings → Response → ℕ
cooldown_of s resp = elim resp.retry_after [
  | none ↦ s.cooldown_seconds
  | some seconds ↦ if clamp seconds == 0 then s.cooldown_seconds else clamp seconds
]

-- The local estimate of a successful request: the key with its new cached credits, if they change.
unfoldable pub estimate : Settings → Bool → Text → Response → ApiKey → Option ApiKey
estimate s is_get upstream_path resp key =
    if s.credit_monitoring_enabled && s.local_estimation_enabled && s.sync_on_request && not is_get
    then (let endpoint : Text = normalize_endpoint upstream_path in
        if is_some (lookup_cost endpoint credit_cost_map)
        then (elim key.cached_remaining_credits [
          | none ↦ none
          | some old_remaining ↦
              let new_remaining : ℕ = old_remaining - estimate_credit_cost endpoint resp.json in
              if new_remaining == old_remaining
              then none
              else some (record key { cached_remaining_credits = some new_remaining })
        ])
        else none)
    else none
