-- ===== src/Forwarder/Attempts.antt =====
-- How often the loop of app/core/forwarder.py calls the upstream, and with which answer it returns.
use firecrawl_manger.Prelude.{
  ℕ, zero, suc, ◌+◌, ◌-◌, ◌≤◌, ◌<◌, ◌≡◌, length, arith, lt→ltb, nat_equality,
}
use firecrawl_manger.Errors.{ok, err}
use firecrawl_manger.Forwarder.{Try, World}
use firecrawl_manger.Forwarder.Answer.{Next, Request, Vars, again, raises, returns}
use firecrawl_manger.Forwarder.Loop.{
  Outcome, try_once, next_try, loop, forward_unpinned, first_vars, max_selection_tries,
}
use firecrawl_manger.Forwarder.Sound.{try_once-Sound}
use firecrawl_manger.Forwarder.Answers.{Sound, IsLast, Retryable}

-- How a call ends that may still call the upstream `left` times, after `n` calls.
abbrev pub Ends : ℕ → ℕ → Outcome → Type 0
Ends n left (ok result, w) =
    IsLast result w
    × (length w.requests ≤ n + left)
    × (Retryable result.upstream_response.status_code → length w.requests ≡ n + left)
Ends n left (err e, w) = length w.requests ≤ n + left

Ends-shift :
    (n left m left' : ℕ) (o : Outcome) → n + left ≡ m + left' → Ends m left' o → Ends n left o
Ends-shift n left m left' (ok result, w) e (last, size, retry) =
    (last, omega arith, λ again. omega (arith, retry again))
Ends-shift n left m left' (err f, w) e size = omega arith

next_try-Ends :
    (r : Request) (v : Vars) (n : ℕ) (next : Next) (w : World) (more : Vars → World → Outcome)
    → v.upstream_attempts < r.total_attempts
    → Sound r v n next w
    → ((v' : Vars)
        → v'.upstream_attempts < r.total_attempts
        → Ends (length w.requests) (r.total_attempts - v'.upstream_attempts) (more v' w))
    → Ends n (r.total_attempts - v.upstream_attempts) (next_try (next, w) more)
next_try-Ends r v n (again v') w more left (left', count) h =
    Ends-shift n _ (length w.requests) (r.total_attempts - v'.upstream_attempts) (more v' w)
      (omega arith) (h v' left')
next_try-Ends r v n (returns result) w more left (last, size, retry) h =
    (last, omega arith, λ again. omega (arith, retry again))
next_try-Ends r v n (raises e) w more left s h = omega arith

loop-Ends :
    (n i : ℕ) (r : Request) (tries : ℕ → Try) (v : Vars) (w : World)
    → v.upstream_attempts < r.total_attempts
    → Ends (length w.requests) (r.total_attempts - v.upstream_attempts) (loop n i r tries v w)
unfolding loop
loop-Ends zero i r tries v w left = omega arith
loop-Ends (suc n) i r tries v w left =
    rw (lt→ltb v.upstream_attempts r.total_attempts left, loop)
      (let (next, w') = try_once r (tries i) v w in
        next_try-Ends r v (length w.requests) next w' _ left (try_once-Sound r (tries i) v w left)
          λ v' left'. loop-Ends n (i + 1) r tries v' w' left')

-- One request calls the upstream at most `total_attempts` times. What it returns is the answer to the
-- last of these calls, with the key that was used and the status; and it returns a 429, 401, 403 or
-- 5xx only after all the attempts were made.
pub forward_unpinned-Ends :
    (r : Request) (tries : ℕ → Try) (w : World)
    → 0 < r.total_attempts
    → Ends (length w.requests) r.total_attempts (forward_unpinned r tries w)
unfolding forward_unpinned
forward_unpinned-Ends r tries w some_attempt =
    Ends-shift _ _ (length w.requests) (r.total_attempts - 0) _ (omega arith)
      (loop-Ends (max_selection_tries r.total_attempts) 0 r tries first_vars w some_attempt)
