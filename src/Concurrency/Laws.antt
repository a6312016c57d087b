-- ===== src/Concurrency/Laws.antt =====
-- Single calls of the semaphores of app/core/concurrency.py.
use firecrawl_manger.Prelude.{
  ℕ, ◌≤◌, ◌<◌, String, ◌≡◌, ◌↔◌, ◌≢◌, some, none, arith, string_equality,
}
use firecrawl_manger.Concurrency.{Lease, States, try_acquire, release, current}

-- `try_acquire` refuses exactly when the maximum is positive and that many leases are counted; a
-- refusal leaves every counter as it was, and no acquisition touches the counter of another key.
pub try_acquire_refuses :
    (key k : String) (maximum : ℕ) (states : States)
    → (((try_acquire key maximum states).0 ≡ none)
        ↔ ((0 < maximum) × (maximum ≤ current key states)))
      × ((try_acquire key maximum states).0 ≡ none
          → current k (try_acquire key maximum states).1 ≡ current k states)
      × (k ≢ key → current k (try_acquire key maximum states).1 ≡ current k states)
unfolding try_acquire current
try_acquire_refuses key k maximum states = (
  (ground arith, ground arith),
  ground (arith, string_equality.test_iff k key),
  ground (arith, string_equality.test_iff k key),
)

-- Releasing the lease that an acquisition gave puts every counter back, and releasing it once more
-- changes nothing.
pub release-try_acquire :
    (key k : String) (maximum : ℕ) (states : States) (lease : Lease)
    → (try_acquire key maximum states).0 ≡ some lease
    → let (lease', states') = release lease (try_acquire key maximum states).1 in
      (current k states' ≡ current k states) × (release lease' states' ≡ (lease', states'))
unfolding try_acquire release current
release-try_acquire key k maximum states lease h =
    (ground (arith, string_equality.test_iff k key, string_equality.test_iff key key), ground arith)
