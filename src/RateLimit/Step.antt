-- ===== src/RateLimit/Step.antt =====
-- One call on one bucket of app/core/rate_limit.py.
use firecrawl_manger.Prelude.{ℕ, ◌+◌, ◌-◌, ◌*◌, ◌≤◌, ◌<◌, ◌≡◌, arith, if◌then◌else◌}
use firecrawl_manger.Prelude.{String, string_equality, ◌==◌, false}
use firecrawl_manger.Prelude.Dict.{insert}
use firecrawl_manger.RateLimit.{Bucket, Buckets, allow, find_bucket, take_token, token}

-- Tokens are conserved: what a call leaves and what it spends were there or were refilled since.
pub take_token_spends :
    (rate now : ℕ) (b : Bucket)
    → let (answer, b') = take_token rate now b in
      (b'.tokens + (if answer.0 then token else 0) ≤ b.tokens + (now - b.last_refill) * rate)
      × (b'.tokens + (if answer.0 then token else 0) ≤ rate * token)
      × (b'.last_refill ≡ now)
unfolding take_token
take_token_spends rate now b = (ground arith, ground arith, ground arith)

-- With a positive rate a call takes its token from the key's bucket, which may be new.
pub allow_pos :
    (key : String) (rate now : ℕ) (buckets : Buckets)
    → 0 < rate
    → let (answer, bucket) = take_token rate now (find_bucket key rate now buckets) in
      allow key rate now buckets ≡ (answer, insert key bucket buckets)
unfolding allow
allow_pos key rate now buckets h = ground arith

-- A call on another key leaves the bucket alone.
pub allow_other :
    (key k : String) (rate now : ℕ) (buckets : Buckets)
    → (key == k) ≡ false
    → (allow k rate now buckets).1 key ≡ buckets key
unfolding allow
allow_other key k rate now buckets h = ground arith
