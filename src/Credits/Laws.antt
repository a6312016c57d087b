-- ===== src/Credits/Laws.antt =====
-- When app/core/credit_refresh.py fetches the credits of a key again.
use firecrawl_manger.Prelude.{
  ℕ, ◌+◌, ◌≤◌, ◌<◌, ◌≡◌, false, some, [], ◌∷◌, arith, inl, inr, Bool-cases, ◌==◌, nat_equality,
}
use firecrawl_manger.Models.{ApiKey}
use firecrawl_manger.Credits.{
  CreditMonitoring, minutes, interval_minutes, calculate_next_refresh_time, due_keys,
}

-- The more of the plan is used, the shorter the interval, and none is empty.
pub record IsOrdered (c : CreditMonitoring) : Type 0 where
  pub fixed : 0 < c.fixed_interval
  pub high : 0 < c.high_usage_interval
  pub medium : c.high_usage_interval ≤ c.medium_usage_interval
  pub normal : c.medium_usage_interval ≤ c.normal_usage_interval
  pub low : c.normal_usage_interval ≤ c.low_usage_interval

interval_positive :
    (c : CreditMonitoring) (remaining plan : ℕ)
    → IsOrdered c
    → 0 < interval_minutes c remaining plan
unfolding interval_minutes
interval_positive c remaining plan o = ground (arith, o.fixed, o.high, o.medium, o.normal, o.low)

interval_grows :
    (c : CreditMonitoring) (remaining remaining' plan : ℕ)
    → IsOrdered c
    → remaining ≤ remaining'
    → interval_minutes c remaining plan ≤ interval_minutes c remaining' plan
unfolding interval_minutes
interval_grows c remaining remaining' plan o h = ground (arith, o.medium, o.normal, o.low)

later_day : (now a b : ℕ) → a ≤ b → now + minutes a ≤ now + minutes b
later_day now a b h = omega arith

pub next_positive :
    (c : CreditMonitoring) (next_month : ℕ → ℕ) (now remaining plan : ℕ)
    → IsOrdered c
    → now < next_month now
    → now < calculate_next_refresh_time c next_month now (some remaining) (some plan)
unfolding calculate_next_refresh_time
next_positive c next_month now remaining plan o month = elim (Bool-cases (plan == 0)) [
  | inl free ↦ rw free (omega (arith, o.fixed))
  | inr paid ↦ elim (Bool-cases (remaining == 0)) [
    | inl spent ↦ rw (paid, spent) month
    | inr some_left ↦ rw (paid, some_left) (omega (arith, interval_positive c remaining plan o))
  ]
]

next_grows :
    (c : CreditMonitoring) (next_month : ℕ → ℕ) (now remaining remaining' plan : ℕ)
    → IsOrdered c
    → 0 < remaining
    → remaining ≤ remaining'
    → calculate_next_refresh_time c next_month now (some remaining) (some plan)
      ≤ calculate_next_refresh_time c next_month now (some remaining') (some plan)
unfolding calculate_next_refresh_time
next_grows c next_month now remaining remaining' plan o left more = elim (Bool-cases (plan == 0)) [
  | inl free ↦ rw free (omega arith)
  | inr paid ↦
      let some_left : (remaining == 0) ≡ false = ground arith in
      let some_left' : (remaining' == 0) ≡ false = ground arith in
      rw (paid, some_left, some_left')
        (later_day now _ _ (interval_grows c remaining remaining' plan o more))
]

-- Where the intervals are in order and the next month is to come, a key with its next time set is
-- not due at the time it was computed, and of two keys with the same plan and credits left the one with
-- more of them is fetched again no earlier.
pub calculate_next_refresh_time_order :
    (c : CreditMonitoring) (next_month : ℕ → ℕ) (now remaining remaining' plan : ℕ) (key : ApiKey)
    → IsOrdered c
    → now < next_month now
    → remaining ≤ remaining'
    → let next = calculate_next_refresh_time c next_month now (some remaining) (some plan) in
      let next' = calculate_next_refresh_time c next_month now (some remaining') (some plan) in
      (due_keys now (record key { next_refresh_at = some next } ∷ []) ≡ [])
      × (0 < remaining → next ≤ next')
unfolding due_keys
calculate_next_refresh_time_order c next_month now remaining remaining' plan key o month more = (
  ground (arith, next_positive c next_month now remaining plan o month),
  λ left. next_grows c next_month now remaining remaining' plan o left more,
)
