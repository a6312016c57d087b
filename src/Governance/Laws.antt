-- ===== src/Governance/Laws.antt =====
-- What passing the gates of app/api/deps.py means, and what is left of a request at the gates.
use firecrawl_manger.Prelude.{
  ℕ, suc, string_equality, if-elim, not, ◌<◌, ◌≢◌, ◌≡◌, refl, ap, sym, ◌∙◌, String, Bool, true,
  false, Option, none, some, arith, Option-cases, inl, inr,
}
use firecrawl_manger.Errors.{Result, ok, err, state_unavailable}
use firecrawl_manger.Models.{Client}
use firecrawl_manger.Concurrency.{Lease, new_lease, States, try_acquire, release, current}
use firecrawl_manger.Concurrency.Laws.{try_acquire_refuses, release-try_acquire}
use firecrawl_manger.RateLimit.{Buckets, allow}
use firecrawl_manger.KeyPool.{option_beq_iff}
use firecrawl_manger.Governance.{
  Outside, Gates, leave, check_client_quota, after_lease, with_slot, enforce_client_governance,
}

-- What is left after a request that was let in has ended, or was turned away.
abbrev pub finally : Result Lease × Gates → Gates
finally (ok lease, g) = leave lease g
finally (err e, g) = g

check_states :
    (enabled : Bool) (o : Outside) (lease : Lease) (g : Gates)
    → (finally (check_client_quota enabled o lease g)).states ≡ (release lease g.states).1
unfolding check_client_quota
check_states enabled o lease g = ground arith

gives_back :
    (enabled : Bool) (o : Outside) (name k : String) (g : Gates)
    → o.limiter_answers ≡ true
    → current k (finally (enforce_client_governance enabled o name g)).states ≡ current k g.states
unfolding enforce_client_governance
gives_back enabled o name k g answers =
    by_slot (try_acquire name g.client.max_concurrent g.states) refl
  where
    by_slot :
        (slot : Option Lease × States)
        → try_acquire name g.client.max_concurrent g.states ≡ slot
        → current k (finally (with_slot enabled o name g slot)).states ≡ current k g.states
    by_slot (none, states) e =
        ap (λ a. current k a.1) (sym e)
        ∙ (try_acquire_refuses name k g.client.max_concurrent g.states).1 (ap (λ a. a.0) e)
    by_slot (some lease, states) e =
        ap (λ (r : Result Lease × Gates). current k (finally r).states) answered
        ∙ ap (current k) (
            after_states (allow name g.client.rate_limit_per_min o.monotonic g.buckets) lease
              (record g { states = states }))
        ∙ ap (λ a. current k (release lease a.1).1) (sym e)
        ∙ (release-try_acquire name k g.client.max_concurrent g.states lease (ap (λ a. a.0) e)).0
      where
        answered :
            with_slot enabled o name g (some lease, states)
            ≡ after_lease enabled o name lease
                (record g { states = states })
                (allow name g.client.rate_limit_per_min o.monotonic g.buckets)
        answered = rw (with_slot, answers) refl

        after_states :
            (rate : (Bool × ℕ) × Buckets) (lease : Lease) (g : Gates)
            → (finally (after_lease enabled o name lease g rate)).states
              ≡ (release lease g.states).1
        after_states ((true, wait), buckets) lease g =
            check_states enabled o lease (record g { buckets = buckets })
        after_states ((false, wait), buckets) lease g = refl

-- Where a slot is free, it is taken.
takes_slot :
    (name : String) (maximum : ℕ) (states : States)
    → current name states < maximum
    → let (lease, states') = try_acquire name maximum states in
      (lease ≡ some (new_lease (some name))) × (current name states' ≡ suc (current name states))
unfolding current try_acquire
takes_slot name maximum states h = (
  ground (arith, string_equality.test_iff name name),
  ground (arith, string_equality.test_iff name name),
)

keeps_slot :
    (enabled : Bool) (o : Outside) (name : String) (g : Gates)
    → o.limiter_answers ≡ false
    → current name g.states < g.client.max_concurrent
    → let (result, g') = enforce_client_governance enabled o name g in
      (result ≡ err state_unavailable) × (current name g'.states ≡ suc (current name g.states))
unfolding enforce_client_governance
keeps_slot enabled o name g silent free =
    let (taken, more) = takes_slot name g.client.max_concurrent g.states free in
    by_slot (try_acquire name g.client.max_concurrent g.states) taken more
  where
    by_slot :
        (slot : Option Lease × States)
        → slot.0 ≡ some (new_lease (some name))
        → current name slot.1 ≡ suc (current name g.states)
        → let (result, g') = with_slot enabled o name g slot in
          (result ≡ err state_unavailable) × (current name g'.states ≡ suc (current name g.states))
    by_slot (none, states) taken more = absurd (ground arith)
    by_slot (some lease, states) taken more = rw (with_slot, silent) (refl, more)

-- Where the rate limiter answers, a request gives its slot back whether it is let in or turned away:
-- when it has ended, the slots of every client are counted as before it came. Where the limiter raises
-- an error, the request fails with it, and the slot that it took is not given back.
pub enforce_client_governance_current :
    (enabled : Bool) (o : Outside) (name k : String) (g : Gates)
    → let (result, g') = enforce_client_governance enabled o name g in
      (o.limiter_answers ≡ true → current k (finally (result, g')).states ≡ current k g.states)
      × (o.limiter_answers ≡ false
          → current name g.states < g.client.max_concurrent
          → (result ≡ err state_unavailable)
            × (current name g'.states ≡ suc (current name g.states)))
enforce_client_governance_current enabled o name k g =
    (gives_back enabled o name k g, keeps_slot enabled o name g)

-- What the quota check means for a request that passes it, before which the client was `old`: there is
-- room for it today, where the usage of another day does not count, and the usage is left as it is.
abbrev pub WithinQuota : Outside → Client → Client → Type 0
WithinQuota o old new =
    (quota : ℕ)
    → old.daily_quota ≡ some quota
    → (new.quota_reset_at ≡ o.today)
      × (old.quota_reset_at ≡ o.today
          → (old.daily_usage < quota) × (new.daily_usage ≡ old.daily_usage))
      × (old.quota_reset_at ≢ o.today → (0 < quota) × (new.daily_usage ≡ 0))

check_passes :
    (o : Outside) (lease lease' : Lease) (g : Gates)
    → (check_client_quota true o lease g).0 ≡ ok lease'
    → WithinQuota o g.client (check_client_quota true o lease g).1.client
unfolding check_client_quota
check_passes o lease lease' g h quota e = elim (Option-cases o.today) [
  | inl unknown ↦ (ground arith, (λ same. ground arith), λ other. ground arith)
  | inr (today, known) ↦ (
    ground (arith, option_beq_iff g.client.quota_reset_at (some today)),
    λ same. (
      ground (arith, option_beq_iff g.client.quota_reset_at (some today)),
      ground (arith, option_beq_iff g.client.quota_reset_at (some today)),
    ),
    λ other. (
      ground (arith, option_beq_iff g.client.quota_reset_at (some today)),
      ground (arith, option_beq_iff g.client.quota_reset_at (some today)),
    ),
  )
]

free_slot :
    (name : String) (maximum : ℕ) (states : States) (lease : Lease)
    → (try_acquire name maximum states).0 ≡ some lease
    → 0 < maximum
    → current name states < maximum
free_slot name maximum states lease e limited =
    let (refused, refuses) = (try_acquire_refuses name name maximum states).0 in
    ground (arith, refuses)

-- With the quota check on, a request is let in only if its client had a free slot (or no maximum),
-- the rate limit allowed it, and its usage of today, which counts on from what it was, is below the
-- quota, where there is one; only on another day it starts from 0 again.
pub enforce_client_governance_admits :
    (o : Outside) (name : String) (g : Gates) (lease : Lease)
    → (enforce_client_governance true o name g).0 ≡ ok lease
    → (0 < g.client.max_concurrent → current name g.states < g.client.max_concurrent)
      × ((allow name g.client.rate_limit_per_min o.monotonic g.buckets).0.0 ≡ true)
      × WithinQuota o g.client (enforce_client_governance true o name g).1.client
unfolding enforce_client_governance
enforce_client_governance_admits o name g lease =
    by_slot (try_acquire name g.client.max_concurrent g.states) refl
  where
    by_rate :
        (rate : (Bool × ℕ) × Buckets) (taken : Lease) (g : Gates)
        → (after_lease true o name taken g rate).0 ≡ ok lease
        → (rate.0.0 ≡ true) × WithinQuota o g.client (after_lease true o name taken g rate).1.client
    by_rate ((true, wait), buckets) taken g h =
        (refl, check_passes o taken lease (record g { buckets = buckets }) h)
    by_rate ((false, wait), buckets) taken g h = absurd (ground arith)

    by_slot :
        (slot : Option Lease × States)
        → try_acquire name g.client.max_concurrent g.states ≡ slot
        → (with_slot true o name g slot).0 ≡ ok lease
        → (0 < g.client.max_concurrent → current name g.states < g.client.max_concurrent)
          × ((allow name g.client.rate_limit_per_min o.monotonic g.buckets).0.0 ≡ true)
          × WithinQuota o g.client (with_slot true o name g slot).1.client
    by_slot (none, states) e h = absurd (ground arith)
    by_slot (some taken, states) e h =
        let rate = allow name g.client.rate_limit_per_min o.monotonic g.buckets in
        let g1 : Gates = record g { states = states } in
        let admits : Result Lease × Gates → Type 0 =
          λ r. r.0 ≡ ok lease → (rate.0.0 ≡ true) × WithinQuota o g.client r.1.client in
        let (granted, within) =
          if-elim admits (not o.limiter_answers) (err state_unavailable, g1)
            (after_lease true o name taken g1 rate) (λ silent failed. absurd (ground arith))
            (λ answers passed. by_rate rate taken g1 passed) h in
        (
          λ limited.
              free_slot name g.client.max_concurrent g.states taken (ap (λ a. a.0) e) limited,
          granted,
          within,
        )
