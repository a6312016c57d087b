-- ===== src/Concurrency.antt =====
-- app/core/concurrency.py, `ConcurrencyManager` and `Lease`: counting semaphores by key, in memory.
-- Each method holds the manager's lock throughout, so it is one step of a history. A maximum of 0
-- stands for every maximum that is not positive, since the code only tests `maximum <= 0`.
pub mod Laws
pub mod History
pub mod Redis
mod Tests
use firecrawl_manger.Prelude.{
  ℕ, ◌+◌, ◌-◌, String, Bool, true, false, Option, none, some, leb, string_equality, if◌then◌else◌,
}
use firecrawl_manger.Prelude.Dict.{Dict, insert, get}

-- `class _State`
pub record State : Type 0 where
  pub current : ℕ
  pub maximum : ℕ

abbrev pub States : Type 0
States = Dict String State

-- `class Lease`. The function that it calls is `lambda: None` (`none`) or `self._release(key)`.
pub record Lease : Type 0 where
  pub release_fn : Option String
  pub released : Bool

abbrev pub new_lease : Option String → Lease
new_lease f = record { release_fn = f; released = false }

unfoldable pub try_acquire : String → ℕ → States → Option Lease × States
try_acquire key maximum states =
    if leb maximum 0
    then (some (new_lease none), states)
    else let state : State = get states key (record { current = 0; maximum = maximum }) in
      if leb maximum state.current
      then (none, insert key (record { current = state.current; maximum = maximum }) states)
      else (
        some (new_lease (some key)),
        insert key (record { current = state.current + 1; maximum = maximum }) states,
      )

-- `ConcurrencyManager._release`: `max(state.current - 1, 0)` is the truncated difference.
unfoldable pub release_key : String → States → States
release_key key states = elim (states key) [
  | none ↦ states
  | some state ↦ insert key (record state { current = state.current - 1 }) states
]

abbrev call_release : Option String → States → States
call_release none states = states
call_release (some key) states = release_key key states

-- `Lease.release`, which is also what `__exit__` does.
unfoldable pub release : Lease → States → Lease × States
unfolding release_key
release lease states =
    if lease.released
    then (lease, states)
    else (record lease { released = true }, call_release lease.release_fn states)

-- `ConcurrencyManager.current`
unfoldable pub current : String → States → ℕ
current key states = elim (states key) [ none ↦ 0 | some state ↦ state.current ]
