-- ===== src/RateLimit/Redis/Rounds.antt =====
-- The optimistic loop of `_allow_fallback` in app/core/rate_limit.py, and the expiry of the hash.
use native.Mathlib.Nat.{mul-le-mul_right}
use native.Mathlib.Decide.{ℕ_discrete}
use firecrawl_manger.Prelude.{
  ℕ, zero, suc, ◌+◌, ◌-◌, ◌*◌, ◌≤◌, ◌<◌, ◌≡◌, refl, true, false, none, some, arith, min,
}
use firecrawl_manger.Errors.{ok, err}
use firecrawl_manger.RateLimit.Redis.{
  Round, backend_unavailable, fallback_round, fallback_from, allow_fallback, minute_ms,
}

-- The first round that commits is `j`.
abbrev pub FirstCommit : ℕ → (ℕ → Round) → Type 0
FirstCommit j rounds = ((rounds j).commits ≡ true) × ((k : ℕ) → k < j → (rounds k).commits ≡ false)

fallback_from_commits :
    (n i j rate now_ms : ℕ) (rounds : ℕ → Round)
    → i ≤ j
    → j < i + n
    → FirstCommit j rounds
    → fallback_from n i rate now_ms rounds
      ≡ ok (fallback_round rate now_ms (rounds j).raw_tokens (rounds j).raw_last)
unfolding fallback_from
fallback_from_commits zero i j rate now_ms rounds h k f = absurd (omega arith)
fallback_from_commits (suc n) i j rate now_ms rounds h k f = elim (ℕ_discrete i j) [
  | yes e ↦ rw (e, f.0)
  | no ne ↦
      rw (f.1 i (omega arith))
        (fallback_from_commits n (i + 1) j rate now_ms rounds (omega arith) (omega arith) f)
]

fallback_from_fails :
    (n i rate now_ms : ℕ) (rounds : ℕ → Round)
    → ((k : ℕ) → k < i + n → (rounds k).commits ≡ false)
    → fallback_from n i rate now_ms rounds ≡ err backend_unavailable
unfolding fallback_from
fallback_from_fails zero i rate now_ms rounds h = refl
fallback_from_fails (suc n) i rate now_ms rounds h =
    rw (h i (omega arith))
      (fallback_from_fails n (i + 1) rate now_ms rounds (λ k p. h k (omega arith)))

-- Of five rounds the first that commits decides, from what that round itself read; when none of the
-- five commits, the caller gets a 503 and nothing was spent.
pub allow_fallback_first :
    (rate now_ms : ℕ) (rounds : ℕ → Round)
    → ((j : ℕ)
        → j < 5
        → FirstCommit j rounds
        → allow_fallback rate now_ms rounds
          ≡ ok (fallback_round rate now_ms (rounds j).raw_tokens (rounds j).raw_last))
      × (((k : ℕ) → k < 5 → (rounds k).commits ≡ false)
          → allow_fallback rate now_ms rounds ≡ err backend_unavailable)
unfolding allow_fallback
allow_fallback_first rate now_ms rounds = (
  λ j h f. fallback_from_commits 5 0 j rate now_ms rounds (omega arith) (omega arith) f,
  λ h. fallback_from_fails 5 0 rate now_ms rounds h,
)

minute_refills : (rate d : ℕ) → minute_ms ≤ d → rate * minute_ms ≤ d * rate
minute_refills rate d h = omega (arith, mul-le-mul_right rate h)

-- That the hash expires after 120 seconds loses nothing: from a bucket left alone for a minute or
-- more, a call is answered as from a new one, and leaves the same bucket.
pub fallback_round_expired :
    (rate now_ms tokens last : ℕ)
    → last + minute_ms ≤ now_ms
    → fallback_round rate now_ms (some tokens) (some last) ≡ fallback_round rate now_ms none none
unfolding fallback_round
fallback_round_expired rate now_ms tokens last h =
    rw (full_again (now_ms - last) tokens (omega arith), full_again_new) refl
  where
    full_again :
        (d t : ℕ) → minute_ms ≤ d → min (rate * minute_ms) (t + d * rate) ≡ rate * minute_ms
    full_again d t p = omega (arith, minute_refills rate d p)

    full_again_new :
        min (rate * minute_ms) (rate * minute_ms + (now_ms - now_ms) * rate) ≡ rate * minute_ms
    full_again_new = omega arith
