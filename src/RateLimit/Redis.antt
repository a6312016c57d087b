-- ===== src/RateLimit/Redis.antt =====
-- app/core/rate_limit.py, `RedisTokenBucketRateLimiter`: the bucket in a Redis hash.
-- Redis is not part of the repository. What it answers is an argument: the outcome of the script call,
-- and for each round of the optimistic loop the fields that were read and whether `execute` went
-- through. Times are milliseconds, and tokens are counted in units of 1 / 60000.
pub mod Agrees
pub mod Rounds
use firecrawl_manger.Prelude.{
  ℕ, zero, suc, ◌+◌, ◌-◌, ◌*◌, min, max, Bool, true, false, Option, none, some, leb, if◌then◌else◌,
}
use firecrawl_manger.Errors.{Result, ok, err, FcamError, error, db_unavailable}
use firecrawl_manger.RateLimit.{Bucket, ceil_div}

-- One round of the loop: what `hmget` read, and whether no other client changed the hash before
-- `execute` (otherwise `WatchError` is raised and the round is repeated).
pub record Round : Type 0 where
  pub raw_tokens : Option ℕ
  pub raw_last : Option ℕ
  pub commits : Bool

pub data EvalOutcome : Type 0 where
  answered : ℕ → ℕ → EvalOutcome
  unknown_command failed : EvalOutcome

abbrev pub minute_ms : ℕ
minute_ms = 60_000

abbrev pub or_default : Option ℕ → ℕ → ℕ
or_default none d = d
or_default (some n) d = n

abbrev pub backend_unavailable : FcamError
backend_unavailable = error 503 db_unavailable "State backend unavailable"

-- The body of the loop: `(allowed, retry_after)`, and the fields that are written.
unfoldable pub fallback_round : ℕ → ℕ → Option ℕ → Option ℕ → (ℕ × ℕ) × Bucket
fallback_round rate now_ms raw_tokens raw_last =
    let capacity : ℕ = rate * minute_ms in
    let elapsed : ℕ = now_ms - or_default raw_last now_ms in
    let tokens : ℕ = min capacity (or_default raw_tokens capacity + elapsed * rate) in
    if leb minute_ms tokens
    then ((1, 0), record { tokens = tokens - minute_ms; last_refill = now_ms })
    else (
      (0, max (ceil_div (minute_ms - tokens) (rate * 1000)) 1),
      record { tokens = tokens; last_refill = now_ms },
    )

-- `for _ in range(n)`: the first round that commits decides. The rounds are numbered from `i`.
unfoldable pub fallback_from : ℕ → ℕ → ℕ → ℕ → (ℕ → Round) → Result ((ℕ × ℕ) × Bucket)
fallback_from zero i rate now_ms rounds = err backend_unavailable
fallback_from (suc n) i rate now_ms rounds =
    let rest = fallback_from n (i + 1) rate now_ms rounds in
    let r : Round = rounds i in
    if r.commits then ok (fallback_round rate now_ms r.raw_tokens r.raw_last) else rest

-- `_allow_fallback`
unfoldable pub allow_fallback : ℕ → ℕ → (ℕ → Round) → Result ((ℕ × ℕ) × Bucket)
allow_fallback = fallback_from 5 0

abbrev fallback_answer : Result ((ℕ × ℕ) × Bucket) → Result (Bool × ℕ)
fallback_answer (ok ((allowed, retry_after), b)) = ok (leb 1 allowed, retry_after)
fallback_answer (err e) = err e

-- `RedisTokenBucketRateLimiter.allow`
unfoldable pub redis_allow : ℕ → ℕ → EvalOutcome → (ℕ → Round) → Result (Bool × ℕ)
unfolding allow_fallback
redis_allow rate now_ms outcome rounds = if leb rate 0 then ok (true, 0) else elim outcome [
  | answered allowed retry_after ↦ ok (leb 1 allowed, retry_after)
  | unknown_command ↦ fallback_answer (allow_fallback rate now_ms rounds)
  | failed ↦ err backend_unavailable
]
