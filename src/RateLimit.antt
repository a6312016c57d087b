-- ===== src/RateLimit.antt =====
-- app/core/rate_limit.py, `TokenBucketRateLimiter`: a token bucket for each key, in memory.
-- The code keeps tokens and times as floats. Here time is counted in nanoseconds, the resolution of
-- the monotonic clock, and tokens in units of 1 / (60 * 10^9), in which refilling at `rate` tokens a
-- minute adds `rate` units each nanosecond: the arithmetic of the code without its rounding. A rate
-- of 0 stands for every rate that is not positive, since the code only tests `rate_per_min <= 0`.
pub mod Step
pub mod History
pub mod Retry
pub mod Redis
mod Tests
use firecrawl_manger.Prelude.{
  ℕ, ◌+◌, ◌-◌, ◌*◌, ◌/◌, min, max, String, Bool, true, false, leb, string_equality, if◌then◌else◌,
}
use firecrawl_manger.Prelude.Dict.{Dict, insert, get}

-- `class _Bucket`
pub record Bucket : Type 0 where
  pub tokens : ℕ
  pub last_refill : ℕ

abbrev pub Buckets : Type 0
Buckets = Dict String Bucket

abbrev pub second : ℕ
second = 1_000_000_000

-- One token, which is also what a rate of 1 refills in a minute.
abbrev pub token : ℕ
token = 60 * second

-- `math.ceil(a / b)`
pub ceil_div : ℕ → ℕ → ℕ
ceil_div a b = (a + (b - 1)) / b

-- `allow` under the lock, from the bucket that was found or made.
unfoldable pub take_token : ℕ → ℕ → Bucket → (Bool × ℕ) × Bucket
take_token rate now bucket =
    let capacity : ℕ = rate * token in
    let elapsed : ℕ = now - bucket.last_refill in
    let tokens : ℕ = min capacity (bucket.tokens + elapsed * rate) in
    if leb token tokens
    then ((true, 0), record { tokens = tokens - token; last_refill = now })
    else (
      (false, max (ceil_div (token - tokens) (rate * second)) 1),
      record { tokens = tokens; last_refill = now },
    )

-- `self._buckets.get(key)`, or a full bucket where there is none.
abbrev pub find_bucket : String → ℕ → ℕ → Buckets → Bucket
find_bucket key rate now buckets =
    get buckets key (record { tokens = rate * token; last_refill = now })

-- `TokenBucketRateLimiter.allow` at the clock's reading `now`: the answer with the seconds to wait.
unfoldable pub allow : String → ℕ → ℕ → Buckets → (Bool × ℕ) × Buckets
allow key rate now buckets =
    if leb rate 0
    then ((true, 0), buckets)
    else let (answer, bucket) = take_token rate now (find_bucket key rate now buckets) in
      (answer, insert key bucket buckets)
