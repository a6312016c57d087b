-- ===== src/Concurrency/Redis/Fallback.antt =====
-- `_acquire_fallback` of app/core/concurrency.py against the script that it stands in for.
use firecrawl_manger.Prelude.{
  ℕ, zero, suc, ◌+◌, ◌≤◌, ◌<◌, ◌≡◌, refl, subst, String, Bool, true, false, Option, none, some,
  arith, Bool-cases, inl, inr, length, leb, ◌==◌, nat_equality,
}
use firecrawl_manger.Errors.{Result, ok, err, state_unavailable}
use firecrawl_manger.Concurrency.Redis.{
  Zset, WatchRound, at_time, remove_until, acquire_script, acquire_round, acquire_rounds,
  acquire_fallback,
}

module _ (now ttl maximum : ℕ) (token : String) where
  abbrev pub script : WatchRound → Bool × Zset
  script round = acquire_script now ttl maximum token round.seen

  -- A round decides as the script does on what the round saw, or not at all: then there was room, and
  -- another client changed the key.
  abbrev pub Decides : WatchRound → Option (Bool × Zset) → Type 0
  Decides round none = (round.commits ≡ false) × ((script round).0 ≡ true)
  Decides round (some answer) = answer ≡ script round

  acquire_round-Decides :
      (round : WatchRound) → Decides round (acquire_round now ttl maximum token round)
  unfolding acquire_round acquire_script
  acquire_round-Decides round =
      elim (Bool-cases (leb maximum (length (remove_until now (at_time now round.seen))))) [
        | inl full ↦ rw (full, acquire_script, full) refl
        | inr free ↦ elim (Bool-cases round.commits) [
          | inl done ↦ rw (free, done, acquire_script, free) refl
          | inr lost ↦ rw (free, lost, acquire_script, free) (refl, refl)
        ]
      ]

  -- How `n` rounds end that are numbered from `i`.
  abbrev pub EndsAs : ℕ → ℕ → (ℕ → WatchRound) → Result (Bool × Zset) → Type 0
  EndsAs n i rounds (ok answer) =
      (j : ℕ) × (i ≤ j)
      × (j < i + n)
      × (answer ≡ script (rounds j))
      × ((k : ℕ) → i ≤ k → k < j → Decides (rounds k) none)
  EndsAs n i rounds (err e) =
      (e ≡ state_unavailable) × ((k : ℕ) → i ≤ k → k < i + n → Decides (rounds k) none)

  at_or_after :
      (P : ℕ → Type 0) (i m : ℕ)
      → P i
      → ((k : ℕ) → i + 1 ≤ k → k < m → P k)
      → (k : ℕ) → i ≤ k
      → k < m
      → P k
  at_or_after P i m h later k p q = elim (Bool-cases (i == k)) [
    | inl e ↦ subst P ((nat_equality.test_iff i k).0 e) h
    | inr d ↦ later k (ground arith) q
  ]

  acquire_rounds-EndsAs :
      (n i : ℕ) (rounds : ℕ → WatchRound)
      → EndsAs n i rounds (acquire_rounds n i now ttl maximum token rounds)
  unfolding acquire_rounds
  acquire_rounds-EndsAs zero i rounds = (refl, λ k p q. absurd (omega arith))
  acquire_rounds-EndsAs (suc n) i rounds =
      by_round (acquire_round now ttl maximum token (rounds i)) (acquire_round-Decides (rounds i))
        (acquire_rounds-EndsAs n (i + 1) rounds)
    where
      rest : Result (Bool × Zset)
      rest = acquire_rounds n (i + 1) now ttl maximum token rounds

      shift :
          (o : Result (Bool × Zset))
          → Decides (rounds i) none
          → EndsAs n (i + 1) rounds o
          → EndsAs (suc n) i rounds o
      shift (ok answer) skips (j, p, q, same, earlier) = (
        j,
        omega arith,
        omega arith,
        same,
        at_or_after (λ k. Decides (rounds k) none) i j skips earlier,
      )
      shift (err e) skips (same, all) = (
        same,
        λ k p q.
            at_or_after (λ k. Decides (rounds k) none) i (i + suc n) skips
              (λ k p q. all k p (omega arith)) k p q,
      )

      by_round :
          (o : Option (Bool × Zset))
          → Decides (rounds i) o
          → EndsAs n (i + 1) rounds rest
          → let result : Result (Bool × Zset) = elim o [ some answer ↦ ok answer | none ↦ rest ] in
            EndsAs (suc n) i rounds result
      by_round (some answer) same later =
          (i, omega arith, omega arith, same, λ k p q. absurd (omega arith))
      by_round none skips later = shift rest skips later

-- Without `EVAL` the answer is that of the script on what one of the five rounds saw, the first in
-- which the set was full or no other client came between; the state is said to be unavailable only if
-- in all five there was room and another client came between.
pub acquire_fallback-EndsAs :
    (now ttl maximum : ℕ) (token : String) (rounds : ℕ → WatchRound)
    → EndsAs now ttl maximum token 5 0 rounds (acquire_fallback now ttl maximum token rounds)
unfolding acquire_fallback
acquire_fallback-EndsAs now ttl maximum token rounds =
    acquire_rounds-EndsAs now ttl maximum token 5 0 rounds
