-- ===== src/KeyPool/Select/Waits.antt =====
-- The waits that the loop of app/core/key_pool.py reports: for a new day, and for a cooling key.
use native.Mathlib.Decide.{ℕ_discrete}
use firecrawl_manger.Prelude.{
  ℕ, zero, suc, ◌+◌, ◌≤◌, ◌<◌, ◌≡◌, refl, ◌⊎◌, inl, inr, some, Option, arith, min,
}
use firecrawl_manger.KeyPool.{Env, Visit, available, skip_disabled, skip_quota, skip_cooling}
use firecrawl_manger.KeyPool.Select.{Tally, no_tally, count_visit, min_after}
use firecrawl_manger.KeyPool.Select.Loop.{tally_of}

module _ (env : Env) (v : ℕ → Visit) where
  -- The wait for a new day is the one reported once a quota is found used up.
  pub quota_after :
      (n i : ℕ) (t : Tally)
      → (0 < t.quota_seen → t.quota_retry_after ≡ some env.until_midnight)
      → 0 < (tally_of env v n i t).quota_seen
      → (tally_of env v n i t).quota_retry_after ≡ some env.until_midnight
  unfolding tally_of count_visit
  quota_after zero i t h = h
  quota_after (suc n) i t h = quota_after n (i + 1) (count_visit env (v i) t) (ground arith)

  abbrev AtMost : ℕ → Option ℕ → Type 0
  AtMost r o = (m : ℕ) × (o ≡ some m) × (m ≤ r)

  after_falls :
      (n i m : ℕ) (t : Tally)
      → AtMost m t.cooling_retry_after
      → AtMost m (tally_of env v n i t).cooling_retry_after
  unfolding tally_of count_visit
  after_falls zero i m t h = h
  after_falls (suc n) i m t h = after_falls n (i + 1) m (count_visit env (v i) t) (kept (v i) h)
    where
      kept :
          (w : Visit)
          → AtMost m t.cooling_retry_after
          → AtMost m (count_visit env w t).cooling_retry_after
      kept skip_disabled a = a
      kept skip_quota a = a
      kept available a = a
      kept (skip_cooling r) (k, e, l) = (min k r, rw e, omega arith)

  -- The wait that is reported is no longer than that of any cooling key.
  after_least :
      (n i p r : ℕ) (t : Tally)
      → i ≤ p
      → p < i + n
      → v p ≡ skip_cooling r
      → AtMost r (tally_of env v n i t).cooling_retry_after
  unfolding tally_of count_visit
  after_least zero i p r t l h e = absurd (omega arith)
  after_least (suc n) i p r t l h e = elim (ℕ_discrete i p) [
    | yes same ↦ rw same (
        rw (e, tally_of)
          (after_falls n (p + 1) r (count_visit env (skip_cooling r) t)
            (min_after t.cooling_retry_after r, refl, at_most t.cooling_retry_after)))
    | no ne ↦ after_least n (i + 1) p r (count_visit env (v i) t) (omega arith) (omega arith) e
  ]
    where
      at_most : (o : Option ℕ) → min_after o r ≤ r
      at_most o = ground arith

  -- And it is the wait of one of them.
  after_attained :
      (n i m : ℕ) (t : Tally)
      → (tally_of env v n i t).cooling_retry_after ≡ some m
      → (t.cooling_retry_after ≡ some m)
        ⊎ ((p : ℕ) × (i ≤ p) × (p < i + n) × (v p ≡ skip_cooling m))
  unfolding tally_of count_visit
  after_attained zero i m t h = inl h
  after_attained (suc n) i m t h = elim (after_attained n (i + 1) m (count_visit env (v i) t) h) [
    | inr (p, low, high, e) ↦ inr (p, omega arith, omega arith, e)
    | inl e ↦ elim (back (v i) e) [
      | inl old ↦ inl old
      | inr new ↦ inr (i, omega arith, omega arith, new)
    ]
  ]
    where
      back :
          (w : Visit)
          → (count_visit env w t).cooling_retry_after ≡ some m
          → (t.cooling_retry_after ≡ some m) ⊎ (w ≡ skip_cooling m)
      back skip_disabled a = inl a
      back skip_quota a = inl a
      back available a = inl a
      back (skip_cooling r) a = ground arith

  -- From the start of the loop on, the wait that is reported is the one of a key, and no key waits less.
  pub after_shortest :
      (n p r : ℕ)
      → p < n
      → v p ≡ skip_cooling r
      → (m : ℕ) × ((tally_of env v n 0 no_tally).cooling_retry_after ≡ some m)
        × (m ≤ r)
        × ((q : ℕ) × (q < n) × (v q ≡ skip_cooling m))
  after_shortest n p r l e =
      let (m, some_m, least) = after_least n 0 p r no_tally (omega arith) (omega arith) e in
      elim (after_attained n 0 m no_tally some_m) [
        | inl none_m ↦ cc
        | inr (q, low, high, here) ↦ (m, some_m, least, (q, omega arith, here))
      ]
