-- ===== src/KeyPool/Select/Tallies.antt =====
-- What the counters of the loop of app/core/key_pool.py say of the verdicts, and the error that the
-- call ends in.
use native.Mathlib.Decide.{ℕ_discrete}
use firecrawl_manger.Prelude.{
  ◌∙◌, ℕ, zero, suc, ◌+◌, ◌≤◌, ◌<◌, ◌≡◌, ◌≢◌, refl, some, none, Option, arith,
}
use firecrawl_manger.Errors.{
  all_keys_disabled, all_keys_quota_exceeded, all_keys_cooling, no_key_available,
}
use firecrawl_manger.KeyPool.{Env, Visit, available, skip_disabled, skip_quota, skip_cooling}
use firecrawl_manger.KeyPool.Select.{Tally, no_tally, count_visit, exhausted_error}
use firecrawl_manger.KeyPool.Select.Loop.{tally_of}
use firecrawl_manger.KeyPool.Select.Waits.{quota_after, after_shortest}

-- The error by what the counters say, when they add up to the number of keys.
module _ (n : ℕ) (client_id : Option ℕ) (u : Tally)
    (sum : u.disabled_seen + u.cooling_seen + u.quota_seen ≡ n) where
  all_disabled :
      u.cooling_seen ≡ 0
      → u.quota_seen ≡ 0
      → (exhausted_error n client_id u).code ≡ all_keys_disabled
  unfolding exhausted_error
  all_disabled c q = ground arith

  quota_left :
      u.cooling_seen ≡ 0
      → 0 < u.quota_seen
      → let e = exhausted_error n client_id u in
        (e.code ≡ all_keys_quota_exceeded) × (e.retry_after ≡ u.quota_retry_after)
  unfolding exhausted_error
  quota_left c q = ground arith

  cooling_left :
      u.quota_seen ≡ 0
      → 0 < u.cooling_seen
      → let e = exhausted_error n client_id u in
        (e.code ≡ all_keys_cooling) × (e.retry_after ≡ u.cooling_retry_after)
  unfolding exhausted_error
  cooling_left q c = ground arith

  both_left :
      0 < u.quota_seen
      → 0 < u.cooling_seen
      → let e = exhausted_error n client_id u in
        (e.code ≡ no_key_available) × (e.retry_after ≡ none)
  unfolding exhausted_error
  both_left q c = ground arith

module _ (env : Env) (v : ℕ → Visit) where
  -- Every round is counted once.
  total :
      (n i : ℕ) (t : Tally)
      → ((p : ℕ) → i ≤ p → p < i + n → v p ≢ available)
      → let u = tally_of env v n i t in
        u.disabled_seen + u.cooling_seen + u.quota_seen
        ≡ t.disabled_seen + t.cooling_seen + t.quota_seen + n
  unfolding tally_of count_visit
  total zero i t h = omega arith
  total (suc n) i t h = ground (
    arith,
    h i (omega arith) (omega arith),
    total n (i + 1) (count_visit env (v i) t) (λ p low high. h p (omega arith) (omega arith)),
  )

  abbrev Pass : (Visit → Type 0) → ℕ → ℕ → Type 0
  Pass P n i = (p : ℕ) → i ≤ p → p < i + n → P (v p)

  -- A verdict that no round gives is not counted, and one that some round gives is.
  quota_absent :
      (n i : ℕ) (t : Tally)
      → Pass (λ w. w ≢ skip_quota) n i
      → (tally_of env v n i t).quota_seen ≡ t.quota_seen
  unfolding tally_of count_visit
  quota_absent zero i t h = refl
  quota_absent (suc n) i t h = ground (
    arith,
    h i (omega arith) (omega arith),
    quota_absent n (i + 1) (count_visit env (v i) t)
        (λ p low high. h p (omega arith) (omega arith)),
  )

  cooling_absent :
      (n i : ℕ) (t : Tally)
      → Pass (λ w. (r : ℕ) → w ≢ skip_cooling r) n i
      → (tally_of env v n i t).cooling_seen ≡ t.cooling_seen
  unfolding tally_of count_visit
  cooling_absent zero i t h = refl
  cooling_absent (suc n) i t h =
      let rest =
        cooling_absent n (i + 1) (count_visit env (v i) t)
          (λ p low high. h p (omega arith) (omega arith)) in
      let here : (r : ℕ) → v i ≢ skip_cooling r = h i (omega arith) (omega arith) in
      rest ∙ not_cooling (v i) here
    where
      not_cooling :
          (w : Visit)
          → ((r : ℕ) → w ≢ skip_cooling r)
          → (count_visit env w t).cooling_seen ≡ t.cooling_seen
      not_cooling skip_disabled c = refl
      not_cooling skip_quota c = refl
      not_cooling available c = refl
      not_cooling (skip_cooling r) c = absurd (c r refl)

  grows :
      (n i : ℕ) (t : Tally)
      → (t.quota_seen ≤ (tally_of env v n i t).quota_seen)
        × (t.cooling_seen ≤ (tally_of env v n i t).cooling_seen)
  unfolding tally_of count_visit
  grows zero i t = (omega arith, omega arith)
  grows (suc n) i t = ground (arith, grows n (i + 1) (count_visit env (v i) t))

  quota_present :
      (n i p : ℕ) (t : Tally)
      → i ≤ p
      → p < i + n
      → v p ≡ skip_quota
      → 0 < (tally_of env v n i t).quota_seen
  unfolding tally_of count_visit
  quota_present zero i p t l h e = absurd (omega arith)
  quota_present (suc n) i p t l h e = elim (ℕ_discrete i p) [
    | yes same ↦
        rw same
          (rw (e, tally_of) (omega (arith, (grows n (p + 1) (count_visit env skip_quota t)).0)))
    | no ne ↦ quota_present n (i + 1) p (count_visit env (v i) t) (omega arith) (omega arith) e
  ]

  cooling_present :
      (n i p r : ℕ) (t : Tally)
      → i ≤ p
      → p < i + n
      → v p ≡ skip_cooling r
      → 0 < (tally_of env v n i t).cooling_seen
  unfolding tally_of count_visit
  cooling_present zero i p r t l h e = absurd (omega arith)
  cooling_present (suc n) i p r t l h e = elim (ℕ_discrete i p) [
    | yes same ↦
        rw same (
          rw (e, tally_of)
            (omega (arith, (grows n (p + 1) (count_visit env (skip_cooling r) t)).1)))
    | no ne ↦ cooling_present n (i + 1) p r (count_visit env (v i) t) (omega arith) (omega arith) e
  ]

  -- Each way in which all `n` keys can be passed over, with the error that the call raises.
  pub exhausted_error_cases :
      (n : ℕ) (client_id : Option ℕ)
      → Pass (λ w. w ≢ available) n 0
      → let e = exhausted_error n client_id (tally_of env v n 0 no_tally) in
        (Pass (λ w. w ≡ skip_disabled) n 0 → e.code ≡ all_keys_disabled)
        × (Pass (λ w. (r : ℕ) → w ≢ skip_cooling r) n 0
            → (p : ℕ) → p < n
            → v p ≡ skip_quota
            → (e.code ≡ all_keys_quota_exceeded) × (e.retry_after ≡ some env.until_midnight))
        × (Pass (λ w. w ≢ skip_quota) n 0
            → (p r : ℕ) → p < n
            → v p ≡ skip_cooling r
            → (e.code ≡ all_keys_cooling)
              × ((m : ℕ) × (e.retry_after ≡ some m)
                  × (m ≤ r)
                  × ((q : ℕ) × (q < n) × (v q ≡ skip_cooling m))))
        × ((p q r : ℕ)
            → p < n
            → q < n
            → v p ≡ skip_quota
            → v q ≡ skip_cooling r
            → (e.code ≡ no_key_available) × (e.retry_after ≡ none))
  exhausted_error_cases n client_id pass = (
    λ h.
        all_disabled n client_id u sum (cooling_absent n 0 no_tally (λ p l k r e. cc (h p l k)))
          (quota_absent n 0 no_tally (λ p l k e. cc (h p l k))),
    λ h p l e.
        let found = quota_present n 0 p no_tally (omega arith) (omega arith) e in
        let (code, wait) = quota_left n client_id u sum (cooling_absent n 0 no_tally h) found in
        (code, wait ∙ quota_after env v n 0 no_tally (λ z. absurd (omega arith)) found),
    λ h p r l e.
        let found = cooling_present n 0 p r no_tally (omega arith) (omega arith) e in
        let (code, wait) = cooling_left n client_id u sum (quota_absent n 0 no_tally h) found in
        let (m, some_m, least, attained) = after_shortest env v n p r l e in
        (code, (m, wait ∙ some_m, least, attained)),
    λ p q r l l' e e'.
        both_left n client_id u sum (quota_present n 0 p no_tally (omega arith) (omega arith) e)
          (cooling_present n 0 q r no_tally (omega arith) (omega arith) e'),
  )
    where
      u : Tally
      u = tally_of env v n 0 no_tally

      sum : u.disabled_seen + u.cooling_seen + u.quota_seen ≡ n
      sum = omega (arith, total n 0 no_tally pass)
