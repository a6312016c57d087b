-- ===== src/Forwarder/Pinned/Attempts.antt =====
-- The calls of the upstream that app/core/forwarder.py makes with a pinned key.
use firecrawl_manger.Prelude.{
  ℕ, zero, suc, ◌+◌, ◌≤◌, ◌<◌, ◌≡◌, refl, ap, subst, ◌∙◌, inl, inr, Option, none, some, List, ◌∷◌,
  arith, map, find, find_passes, ◌==◌, nat_equality,
}
use firecrawl_manger.Errors.{Result, ok}
use firecrawl_manger.Models.{ApiKey}
use firecrawl_manger.Forwarder.{Try, World, UpstreamCall, calling, response, Reply}
use firecrawl_manger.Forwarder.Answer.{Request, Vars, Next, again, returns, raises, ForwardResult}
use firecrawl_manger.Forwarder.Loop.{Outcome, next_try, first_vars}
use firecrawl_manger.Forwarder.Pinned.{pinned_attempt, pinned_loop, session_key, forward_with}
use firecrawl_manger.Forwarder.Pinned.Attempt.{IsAnswer, Attempted, Ready, pinned_attempt-Attempted}

-- The object of the session keeps its id.
session_key-id : (key : ApiKey) (w : World) → (session_key key w).id ≡ key.id
session_key-id key w = by_row (find (λ row. row.id == key.id) w.keys) refl
  where
    by_row :
        (found : Option ApiKey)
        → find (λ row. row.id == key.id) w.keys ≡ found
        → let k : ApiKey = elim found [ none ↦ key | some row ↦ row ] in k.id ≡ key.id
    by_row none e = refl
    by_row (some row) e =
        (nat_equality.test_iff row.id key.id).0 (find_passes (λ row. row.id == key.id) row w.keys e)

-- The calls, newest first, when the key was called `count` times.
abbrev pub repeat : ℕ → ℕ → List ℕ → List ℕ
repeat zero id old = old
repeat (suc count) id old = id ∷ repeat count id old

-- The keys of the calls.
abbrev pub keys_called : List UpstreamCall → List ℕ
keys_called = map (λ c. c.key_id)

-- The last call was made with the key `id`, and the result has its response.
abbrev pub HasAnswered : ℕ → ForwardResult → List UpstreamCall → Type 0
HasAnswered id result requests =
    (earlier : List UpstreamCall) × (requests
      ≡ calling id (response result.upstream_response) ∷ earlier)

-- How a request ends that calls the upstream with the key `id` only, when `attempt` calls were made
-- before: it makes `count` more, and what it returns is the response to the last of them.
pub record PinnedEnd (r : Request) (attempt id : ℕ) (old : List UpstreamCall) (o : Outcome)
    : Type 0 where
  pub count : ℕ
  pub calls : keys_called o.1.requests ≡ repeat count id (keys_called old)
  pub bounded : attempt + count ≤ r.total_attempts
  pub answer :
      (result : ForwardResult)
      → o.0 ≡ ok result
      → (last : ℕ) × (suc last ≡ attempt + count)
        × IsAnswer r last id result
        × HasAnswered id result o.1.requests

repeat-cons : (count id : ℕ) (old : List ℕ) → repeat count id (id ∷ old) ≡ repeat (suc count) id old
repeat-cons zero id old = refl
repeat-cons (suc count) id old = ap (λ l. id ∷ l) (repeat-cons count id old)

PinnedEnd-more :
    (r : Request) (attempt id : ℕ) (reply : Reply) (old : List UpstreamCall) (o : Outcome)
    → PinnedEnd r (attempt + 1) id (calling id reply ∷ old) o
    → PinnedEnd r attempt id old o
PinnedEnd-more r attempt id reply old o p = record {
  count = suc p.count;
  calls = p.calls ∙ repeat-cons p.count id (keys_called old);
  bounded = omega (arith, p.bounded);
  answer =
      λ result e. let (last, counted, is, has) = p.answer result e in (last, omega arith, is, has);
}

ok-inj : (a b : ForwardResult) → Path (Result ForwardResult) (ok a) (ok b) → a ≡ b
ok-inj a b e = cc

next_try-PinnedEnd :
    (r : Request) (attempt id : ℕ) (old : List UpstreamCall) (next : Next) (w : World)
    (more : Vars → World → Outcome)
    → attempt < r.total_attempts
    → Attempted r attempt id old next w
    → ((v' : Vars)
        → attempt + 1 < r.total_attempts
        → v'.last_api_key_id ≡ some id
        → PinnedEnd r (attempt + 1) id w.requests (more v' w))
    → PinnedEnd r attempt id old (next_try (next, w) more)
next_try-PinnedEnd r attempt id old (again v') w more left ((reply, calls), goes_on, named) h =
    PinnedEnd-more r attempt id reply old (more v' w)
      (subst (λ l. PinnedEnd r (attempt + 1) id l (more v' w)) calls (h v' goes_on named))
next_try-PinnedEnd r attempt id old (returns result) w more left (calls, is) h = record {
  count = 1;
  calls = ap keys_called calls;
  bounded = omega arith;
  answer = λ result' e. (
    attempt,
    omega arith,
    subst (IsAnswer r attempt id) (ok-inj result result' e) is,
    subst (λ x. HasAnswered id x w.requests) (ok-inj result result' e) (old, calls),
  );
}
next_try-PinnedEnd r attempt id old (raises e) w more left (inl calls) h = record {
  count = 0;
  calls = ap keys_called calls;
  bounded = omega arith;
  answer = λ result' e'. absurd (ground arith);
}
next_try-PinnedEnd r attempt id old (raises e) w more left (inr (reply, calls)) h = record {
  count = 1;
  calls = ap keys_called calls;
  bounded = omega arith;
  answer = λ result' e'. absurd (ground arith);
}

pinned_loop-PinnedEnd :
    (n attempt id : ℕ) (r : Request) (tries : ℕ → Try) (key : ApiKey) (v : Vars) (w : World)
    → key.id ≡ id
    → attempt + n ≡ r.total_attempts
    → Ready r attempt id v
    → PinnedEnd r attempt id w.requests (pinned_loop n attempt r tries key v w)
unfolding pinned_loop
pinned_loop-PinnedEnd zero attempt id r tries key v w same size ready =
    absurd (omega (arith, ready.left))
pinned_loop-PinnedEnd (suc n) attempt id r tries key v w same size ready =
    let (next, w') = pinned_attempt r (tries attempt) (session_key key w) attempt v w in
    next_try-PinnedEnd r attempt id w.requests next w' _ ready.left
      (pinned_attempt-Attempted r (tries attempt) (session_key key w) attempt id v w
        (session_key-id key w ∙ same) ready)
      λ v' goes_on named.
        pinned_loop-PinnedEnd n (attempt + 1) id r tries key v' w' same (omega arith)
          (record { left = goes_on; named = named; fresh = λ e. absurd (omega arith) })

-- A request with a pinned key that is used calls the upstream with this key only, at most
-- `total_attempts` times; what it returns is the answer to the last call, with the number of the
-- calls before it as its count of retries, and a 5xx only after all the attempts.
pub forward_with-PinnedEnd :
    (r : Request) (tries : ℕ → Try) (w : World) (key : ApiKey)
    → 0 < r.total_attempts
    → PinnedEnd r 0 key.id w.requests (forward_with r tries w (some key))
unfolding forward_with
forward_with-PinnedEnd r tries w key some_attempt =
    pinned_loop-PinnedEnd r.total_attempts 0 key.id r tries key
      (record first_vars { last_api_key_id = some key.id }) w refl (omega arith)
      (record { left = some_attempt; named = refl; fresh = λ e. refl })
