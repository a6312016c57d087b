-- ===== src/Concurrency/Tests.antt =====
-- Runs of the semaphores of app/core/concurrency.py, and the theorems at concrete histories.
use firecrawl_manger.Prelude.{
  ℕ, zero, suc, List, [], ◌∷◌, ◌≡◌, ◌≤◌, refl, true, false, arith, string_equality,
}
use firecrawl_manger.Concurrency.{try_acquire, release, current}
use firecrawl_manger.Concurrency.History.{
  Event, acquires, releases, run, start, held, step, release_nth, current-run, held-run-le,
}
use firecrawl_manger.Concurrency.Redis.{WatchRound}
use firecrawl_manger.Concurrency.Redis.Refines.{
  Call, acquire, look, give_back, account, redis_run, account_run, redis_run_refines,
}

-- Two of three requests get a lease; the first is released twice, and a fourth gets its place.
abbrev history : List Event
history =
    acquires "7" 2
    ∷ acquires "7" 2
    ∷ acquires "7" 2
    ∷ acquires "8" 1
    ∷ releases 2
    ∷ releases 2
    ∷ acquires "7" 2
    ∷ []

history-held : held "7" (run start history).grants ≡ 2
unfolding run step try_acquire release_nth release
history-held = refl

current-run_example : current "7" (run start history).states ≡ held "7" (run start history).grants
current-run_example = current-run "7" history

held-run-le_example : held "7" (run start history).grants ≤ 2
held-run-le_example = held-run-le "7" 2 history (ground (arith, string_equality.test_iff "7" "8"))

-- Two leases at once, the first of which is given back; another ends by itself at 1500.
abbrev calls : List Call
calls =
    acquire 0 "a"
    ∷ acquire 500 "b"
    ∷ acquire 600 "c"
    ∷ look 700
    ∷ give_back 800 "a"
    ∷ acquire 900 "c"
    ∷ look 1600
    ∷ []

calls-answers : account_run 1000 2 [] calls ≡ 1 ∷ 1 ∷ 0 ∷ 2 ∷ 0 ∷ 1 ∷ 1 ∷ []
unfolding account_run account
calls-answers = refl

redis_run_refines_example :
    redis_run 1000 2 (record { members = []; expire_at = 0 }) calls ≡ account_run 1000 2 [] calls
redis_run_refines_example = redis_run_refines 1000 2 calls (
  omega arith,
  (omega arith, (omega arith, (omega arith, (omega arith, (omega arith, (omega arith, tt)))))),
)

-- Another client comes between in the first round.
abbrev rounds : ℕ → WatchRound
rounds zero = record { seen = record { members = []; expire_at = 0 }; commits = false }
rounds (suc i) = record {
  seen = record { members = ("a", 90) ∷ []; expire_at = 90 };
  commits = true;
}
