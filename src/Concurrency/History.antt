-- ===== src/Concurrency/History.antt =====
-- Histories of the semaphores of app/core/concurrency.py: acquisitions and releases by any number of
-- threads, in the order in which they take the lock.
use firecrawl_manger.Prelude.{
  ℕ, zero, suc, ◌+◌, ◌≤◌, String, ◌≡◌, Bool, true, false, not, ltb, leb, ◌&&◌, Option, none, some,
  List, [], ◌∷◌, All, inl, inr, Bool-cases, All, refl, arith, ◌==◌, string_equality, if◌then◌else◌,
}
use firecrawl_manger.Prelude.Dict.{empty, get}
use firecrawl_manger.Concurrency.{State, Lease, States, try_acquire, release, current}

-- A lease that was handed out, with what was asked for.
pub record Grant : Type 0 where
  pub key : String
  pub maximum : ℕ
  pub lease : Lease

-- The semaphores and every lease that was ever handed out, the newest first.
pub record System : Type 0 where
  pub states : States
  pub grants : List Grant

pub data Event : Type 0 where
  acquires : String → ℕ → Event
  releases : ℕ → Event

abbrev granted : String → ℕ → Option Lease → List Grant → List Grant
granted key maximum none grants = grants
granted key maximum (some lease) grants =
    record { key = key; maximum = maximum; lease = lease } ∷ grants

-- The `i`-th lease is released, which may have been released before.
unfoldable pub release_nth : ℕ → List Grant → States → List Grant × States
release_nth i [] states = ([], states)
release_nth zero (g ∷ grants) states =
    let (lease, states') = release g.lease states in (record g { lease = lease } ∷ grants, states')
release_nth (suc i) (g ∷ grants) states =
    let (grants', states') = release_nth i grants states in (g ∷ grants', states')

unfoldable pub step : System → Event → System
step s (acquires key maximum) =
    let (lease, states) = try_acquire key maximum s.states in
    record { states = states; grants = granted key maximum lease s.grants }
step s (releases i) =
    let (grants, states) = release_nth i s.grants s.states in
    record { states = states; grants = grants }

unfoldable pub run : System → List Event → System
run s [] = s
run s (e ∷ es) = run (step s e) es

abbrev pub start : System
start = record { states = empty; grants = [] }

-- Whether the lease was asked for under the key with a maximum that is positive, and is still held. A
-- maximum of 0 is none, and such leases are not limited.
abbrev holds_slot : String → Grant → Bool
holds_slot key g = key == g.key && ltb 0 g.maximum && not g.lease.released

-- The number of such leases.
abbrev pub held : String → List Grant → ℕ
held key [] = 0
held key (g ∷ grants) = (if holds_slot key g then 1 else 0) + held key grants

-- A lease gives back what was taken for it.
abbrev Fits : Grant → Type 0
Fits g = g.lease.release_fn ≡ (if ltb 0 g.maximum then some g.key else none)

release_nth-Fits :
    (i : ℕ) (grants : List Grant) (states : States)
    → All Fits grants
    → All Fits (release_nth i grants states).0
unfolding release_nth release
release_nth-Fits i [] states f = tt
release_nth-Fits zero (g ∷ grants) states (f, fs) = (by_state g.lease.released refl, fs)
  where
    by_state :
        (b : Bool) → g.lease.released ≡ b → Fits (record g { lease = (release g.lease states).0 })
    by_state true e = rw (release, e) f
    by_state false e = rw (release, e) f
release_nth-Fits (suc i) (g ∷ grants) states (f, fs) = (f, release_nth-Fits i grants states fs)

granted-Fits :
    (key : String) (maximum : ℕ) (grants : List Grant) (states : States)
    → All Fits grants
    → All Fits (granted key maximum (try_acquire key maximum states).0 grants)
unfolding try_acquire
granted-Fits key maximum grants states fs = elim (Bool-cases (leb maximum 0)) [
  | inl free ↦ rw (try_acquire, free) (ground arith, fs)
  | inr limited ↦
      let state : State = get states key (record { current = 0; maximum = maximum }) in
      elim (Bool-cases (leb maximum state.current)) [
        | inl full ↦ rw (try_acquire, limited, full) fs
        | inr room ↦ rw (try_acquire, limited, room) (ground arith, fs)
      ]
]

release_held :
    (key : String) (g : Grant) (n : ℕ) (states : States)
    → Fits g
    → current key states ≡ (if holds_slot key g then 1 else 0) + n
    → current key (release g.lease states).1
      ≡ (if holds_slot key (record g { lease = (release g.lease states).0 }) then 1 else 0) + n
unfolding current release
release_held key g n states f h = elim (Bool-cases (ltb 0 g.maximum)) [
  | inl limited ↦ ground (arith, f, string_equality.test_iff key g.key)
  | inr free ↦ ground (arith, f)
]

-- A release anywhere in the list: what the other leases hold is in `n`.
release_nth-held :
    (key : String) (i : ℕ) (grants : List Grant) (n : ℕ) (states : States)
    → All Fits grants
    → current key states ≡ held key grants + n
    → current key (release_nth i grants states).1 ≡ held key (release_nth i grants states).0 + n
unfolding release_nth
release_nth-held key i [] n states f h = h
release_nth-held key zero (g ∷ grants) n states (f, fs) h =
    omega (arith, release_held key g (held key grants + n) states f (omega arith))
release_nth-held key (suc i) (g ∷ grants) n states (f, fs) h = omega (
  arith,
  release_nth-held key i grants (n + (if holds_slot key g then 1 else 0)) states fs (omega arith),
)

try_acquire-held :
    (key k : String) (maximum : ℕ) (grants : List Grant) (states : States)
    → current key states ≡ held key grants
    → let (lease, states') = try_acquire k maximum states in
      current key states' ≡ held key (granted k maximum lease grants)
unfolding current try_acquire
try_acquire-held key k maximum grants states h = ground (arith, string_equality.test_iff key k)

-- The counters are right, and so is what the leases give back.
abbrev IsCounted : String → System → Type 0
IsCounted key s = (current key s.states ≡ held key s.grants) × All Fits s.grants

step-IsCounted :
    (key : String) (s : System) (e : Event) → IsCounted key s → IsCounted key (step s e)
unfolding step
step-IsCounted key s (acquires k maximum) (h, f) =
    (try_acquire-held key k maximum s.grants s.states h, granted-Fits k maximum s.grants s.states f)
step-IsCounted key s (releases i) (h, f) = (
  omega (arith, release_nth-held key i s.grants 0 s.states f (omega arith)),
  release_nth-Fits i s.grants s.states f,
)

run-IsCounted :
    (key : String) (s : System) (es : List Event) → IsCounted key s → IsCounted key (run s es)
unfolding run
run-IsCounted key s [] h = h
run-IsCounted key s (e ∷ es) h = run-IsCounted key (step s e) es (step-IsCounted key s e h)

-- After any history of acquisitions and releases, double releases and releases of leases that were
-- never granted included, the counter of each key is the number of its leases that were asked for with
-- a positive maximum and are still held.
pub current-run :
    (key : String) (es : List Event)
    → current key (run start es).states ≡ held key (run start es).grants
unfolding current
current-run key es = (run-IsCounted key start es (refl, tt)).0

-- Every acquisition of `key` asks for a maximum of at most `m`.
abbrev pub HasLimit : String → ℕ → Event → Type 0
HasLimit key m (acquires k maximum) = key ≡ k → maximum ≤ m
HasLimit key m (releases i) = Unit

release_le :
    (key : String) (g : Grant) (states : States)
    → (if holds_slot key (record g { lease = (release g.lease states).0 }) then 1 else 0)
      ≤ (if holds_slot key g then 1 else 0)
unfolding release
release_le key g states = ground arith

release_nth_le :
    (key : String) (i : ℕ) (grants : List Grant) (states : States)
    → held key (release_nth i grants states).0 ≤ held key grants
unfolding release_nth
release_nth_le key i [] states = omega arith
release_nth_le key zero (g ∷ grants) states = omega (arith, release_le key g states)
release_nth_le key (suc i) (g ∷ grants) states = omega (arith, release_nth_le key i grants states)

try_acquire_le :
    (key k : String) (maximum m : ℕ) (grants : List Grant) (states : States)
    → current key states ≡ held key grants
    → (key ≡ k → maximum ≤ m)
    → held key grants ≤ m
    → held key (granted k maximum (try_acquire k maximum states).0 grants) ≤ m
unfolding current try_acquire
try_acquire_le key k maximum m grants states counted limits h = elim (Bool-cases (key == k)) [
  | inl same ↦
      ground
        (arith, string_equality.test_iff key k, limits ((string_equality.test_iff key k).0 same))
  | inr other ↦ ground arith
]

step_le :
    (key : String) (m : ℕ) (s : System) (e : Event)
    → current key s.states ≡ held key s.grants
    → HasLimit key m e
    → held key s.grants ≤ m
    → held key (step s e).grants ≤ m
unfolding step
step_le key m s (acquires k maximum) counted l h =
    try_acquire_le key k maximum m s.grants s.states counted l h
step_le key m s (releases i) counted l h = omega (arith, release_nth_le key i s.grants s.states)

run_le :
    (key : String) (m : ℕ) (s : System) (es : List Event)
    → IsCounted key s
    → All (HasLimit key m) es
    → held key s.grants ≤ m
    → held key (run s es).grants ≤ m
unfolding run
run_le key m s [] counted l h = h
run_le key m s (e ∷ es) counted l h =
    run_le key m (step s e) es (step-IsCounted key s e counted) l.1
      (step_le key m s e counted.0 l.0 h)

-- If every acquisition of a key asks for a maximum of at most `m`, then in no history more than `m` of
-- the leases that were asked for under it with a positive maximum are held at once.
pub held-run-le :
    (key : String) (m : ℕ) (es : List Event)
    → All (HasLimit key m) es
    → held key (run start es).grants ≤ m
unfolding current
held-run-le key m es l = run_le key m start es (refl, tt) l (omega arith)
