-- ===== src/RateLimit/Redis/Agrees.antt =====
-- The bucket in Redis against the bucket in memory of app/core/rate_limit.py.
use native.Mathlib.Nat.{mul-le-mul_right, le_antisymm, mul_right_comm}
use mathlib.Core.Path.{ap₂}
use firecrawl_manger.Prelude.{ℕ, ◌+◌, ◌-◌, ◌*◌, ◌<◌, ◌≡◌, ap, ◌∙◌, min, some, arith, if◌then◌else◌}
use firecrawl_manger.RateLimit.{Bucket, take_token, second, token, ceil_div}
use firecrawl_manger.RateLimit.Retry.{ceil_div_covers, ceil_div_least}
use firecrawl_manger.RateLimit.Redis.{fallback_round, minute_ms}

-- Nanoseconds in a millisecond, and units of the memory bucket in one of the Redis bucket.
abbrev milli : ℕ
milli = 1_000_000

abbrev pub scaled : Bucket → Bucket
scaled b = record { tokens = b.tokens * milli; last_refill = b.last_refill * milli }

ceil_div-milli : (a b : ℕ) → 0 < b → ceil_div (a * milli) (b * milli) ≡ ceil_div a b
ceil_div-milli a b pos =
    le_antisymm
      (ceil_div_least (a * milli) (b * milli) (ceil_div a b) (omega arith)
        (omega (arith, mul-le-mul_right milli (ceil_div_covers a b pos))))
      (ceil_div_least a b (ceil_div (a * milli) (b * milli)) pos
        (omega (arith, ceil_div_covers (a * milli) (b * milli) (omega arith))))

elapsed-milli :
    (now last rate : ℕ) → (now * milli - last * milli) * rate ≡ (now - last) * rate * milli
elapsed-milli now last rate = ap (λ n. n * rate) together ∙ mul_right_comm (now - last) milli rate
  where
    together : now * milli - last * milli ≡ (now - last) * milli
    together = omega arith

abbrev full : ℕ → ℕ → Bucket → ℕ
full rate now b = min (rate * minute_ms) (b.tokens + (now - b.last_refill) * rate)

full-milli :
    (rate now : ℕ) (b : Bucket)
    → min (rate * token) (b.tokens * milli + (now * milli - b.last_refill * milli) * rate)
      ≡ full rate now b * milli
full-milli rate now b = omega (arith, elapsed-milli now b.last_refill rate)

wait-milli :
    (rate t : ℕ)
    → 0 < rate
    → ceil_div (token - t * milli) (rate * second) ≡ ceil_div (minute_ms - t) (rate * 1000)
wait-milli rate t pos = ap₂ ceil_div needed per_second ∙ ceil_div-milli _ _ (omega arith)
  where
    needed : token - t * milli ≡ (minute_ms - t) * milli
    needed = omega arith

    per_second : rate * second ≡ rate * 1000 * milli
    per_second = omega arith

-- On the same bucket and at the same time, the optimistic round in Redis answers what the limiter in
-- memory answers, and leaves the same bucket, in the coarser units.
pub fallback_round-take_token :
    (rate now_ms : ℕ) (b : Bucket)
    → 0 < rate
    → let (answer, b') = fallback_round rate now_ms (some b.tokens) (some b.last_refill) in
      let (answer', b'') = take_token rate (now_ms * milli) (scaled b) in
      (answer ≡ (if answer'.0 then 1 else 0, answer'.1)) × (b'' ≡ scaled b')
unfolding fallback_round take_token
fallback_round-take_token rate now_ms b pos = rw (full-milli rate now_ms b) (
  ground (arith, wait-milli rate (full rate now_ms b) pos),
  ground (arith, wait-milli rate (full rate now_ms b) pos),
)
