-- ===== src/RateLimit/Retry.antt =====
-- The waiting time that app/core/rate_limit.py reports with a refusal.
use native.Mathlib.Nat.{mul-le-mul_right}
use native.Mathlib.Decide.{dec_lt}
use firecrawl_manger.Prelude.{ℕ, ◌+◌, ◌-◌, ◌*◌, ◌≤◌, ◌<◌, ◌≡◌, true, false, arith, leb, min, max}
use firecrawl_manger.RateLimit.{Bucket, take_token, token, second, ceil_div}

-- `ceil_div a b` is the least number of `b`s that reach `a`.
pub ceil_div_covers : (a b : ℕ) → 0 < b → a ≤ ceil_div a b * b
unfolding ceil_div
ceil_div_covers a b h = grind arith

pub ceil_div_least : (a b n : ℕ) → 0 < b → a ≤ n * b → ceil_div a b ≤ n
unfolding ceil_div
ceil_div_least a b n h k = grind arith

-- The bucket after it was refilled, before a token is taken.
abbrev refilled : ℕ → ℕ → Bucket → ℕ
refilled rate now b = min (rate * token) (b.tokens + (now - b.last_refill) * rate)

-- The wait for a bucket that holds `t` units.
abbrev wait : ℕ → ℕ → ℕ
wait rate t = max (ceil_div (token - t) (rate * second)) 1

refused :
    (rate now : ℕ) (b : Bucket)
    → (take_token rate now b).0.0 ≡ false
    → (refilled rate now b < token)
      × (take_token rate now b ≡ (
        (false, wait rate (refilled rate now b)),
        record { tokens = refilled rate now b; last_refill = now },
      ))
unfolding take_token
refused rate now b h = (ground arith, ground arith)

rate_scale : (rate n d : ℕ) → n * second ≤ d → n * (rate * second) ≤ d * rate
rate_scale rate n d h = omega (arith, mul-le-mul_right rate h)

scale_down : (rate n d : ℕ) → d ≤ n * second → d * rate ≤ n * (rate * second)
scale_down rate n d h = omega (arith, mul-le-mul_right rate h)

rate_pos : (rate : ℕ) → 0 < rate → 0 < rate * second
rate_pos rate h = omega arith

wait_suffices :
    (rate t d : ℕ) → 0 < rate → wait rate t * second ≤ d → token ≤ min (rate * token) (t + d * rate)
wait_suffices rate t d pos h =
    let enough = ceil_div_covers (token - t) (rate * second) (rate_pos rate pos) in
    omega (arith, enough, rate_scale rate (ceil_div (token - t) (rate * second)) d (omega arith))

wait_needed :
    (rate t d : ℕ) → 0 < rate → t < token → d < (wait rate t - 1) * second → t + d * rate < token
wait_needed rate t d pos short h = elim (dec_lt (t + d * rate) token) [
  | yes refuses ↦ refuses
  | no enough ↦
      let n : ℕ = wait rate t - 1 in
      let far : d * rate ≤ n * (rate * second) = scale_down rate n d (omega arith) in
      let least : ceil_div (token - t) (rate * second) ≤ n =
        ceil_div_least (token - t) (rate * second) n (rate_pos rate pos) (omega arith) in
      absurd (omega arith)
]

answer_lem :
    (rate now : ℕ) (b : Bucket) → (take_token rate now b).0.0 ≡ leb token (refilled rate now b)
unfolding take_token
answer_lem rate now b = ground arith

-- A refused call says to wait at least one second. If no other call on the bucket comes in between,
-- a call after that wait is allowed, and one that comes more than a second too early is refused.
pub retry_exact :
    (rate now later : ℕ) (b : Bucket)
    → 0 < rate
    → (take_token rate now b).0.0 ≡ false
    → let ((allowed, retry_after), b') = take_token rate now b in
      (1 ≤ retry_after)
      × (now + retry_after * second ≤ later → (take_token rate later b').0.0 ≡ true)
      × (now ≤ later
          → later < now + (retry_after - 1) * second
          → (take_token rate later b').0.0 ≡ false)
retry_exact rate now later b pos h =
    let t : ℕ = refilled rate now b in
    let (short, e) = refused rate now b h in
    let same : Bucket = record { tokens = t; last_refill = now } in
    rw (e, answer_lem rate later same)
      (
        omega arith,
        λ enough. ground (arith, wait_suffices rate t (later - now) pos (omega arith)),
        λ after early. ground (arith, wait_needed rate t (later - now) pos short (omega arith)),
      )
