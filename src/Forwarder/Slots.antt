-- ===== src/Forwarder/Slots.antt =====
-- The semaphores of the keys during a call of app/core/forwarder.py, `Forwarder.forward`.
use firecrawl_manger.Prelude.{
  ℕ, zero, suc, ◌+◌, ◌≡◌, ◌∷◌, refl, inl, inr, true, false, some, none, String, Bool, Bool-cases,
  Option, List, if◌then◌else◌, ◌∙◌, sym, ap, ltb, ◌==◌, ◌||◌, ◌&&◌, leb, nat_equality,
}
use firecrawl_manger.Errors.{Result, ok, err, FcamError}
use firecrawl_manger.Models.{ApiKey}
use firecrawl_manger.Concurrency.{Lease, States, try_acquire, release, current}
use firecrawl_manger.Concurrency.Laws.{try_acquire_refuses, release-try_acquire}
use firecrawl_manger.RateLimit.{Buckets, allow}
use firecrawl_manger.KeyPool.Select.{SelectedKey, select}
use firecrawl_manger.KeyPool.{Indices}
use firecrawl_manger.Forwarder.{
  calling, Try, World, Response, Reply, response, timeout, http_error, cooldown_of,
}
use firecrawl_manger.Forwarder.Answer.{
  Next, Request, Vars, account, again, decrypt_error, handle_failure, handle_response, raises,
  returns, returns_or_raises, timeout_error, unavailable_error,
}
use firecrawl_manger.Forwarder.Loop.{
  Outcome, acquire_key, busy, first_vars, forward_unpinned, is_keyless, loop, max_selection_tries,
  next_try, take_reply, try_key, try_once, with_lease,
}
use firecrawl_manger.Forwarder.Frame.{
  disable_key_decrypt_failed-Same, disable_key-Same, mark_cooling-Same, record_failure-Same,
  account-Same,
}

pub account_states :
    (v : Vars) (resp : Response) (o : Result (Unit {0}) × World)
    → (returns_or_raises v resp o).1.states ≡ o.1.states
account_states v resp (ok _, w) = refl
account_states v resp (err e, w) = refl

handle_response_states :
    (r : Request) (t : Try) (key : ApiKey) (v : Vars) (resp : Response) (w : World)
    → (handle_response r t key v resp w).1.states ≡ w.states
unfolding handle_response
handle_response_states r t key v resp w = elim (Bool-cases (resp.status_code == 429)) [
  | inl limited ↦ rw limited (mark_cooling-Same t key (cooldown_of r.settings resp) w).1
  | inr e1 ↦ elim (Bool-cases (resp.status_code == 401 || resp.status_code == 403)) [
    | inl refused ↦ rw (e1, refused) (disable_key-Same t key w).1
    | inr e2 ↦ elim (Bool-cases (leb 500 resp.status_code)) [
      | inl broken ↦ rw (e1, e2, broken) (record_failure-Same r.settings t key w).1
      | inr e3 ↦
          rw (e1, e2, e3)
            (account_states v resp (account r t key resp w) ∙ (account-Same r t key resp w).1)
    ]
  ]
]

handle_failure_states :
    (r : Request) (t : Try) (key : ApiKey) (v : Vars) (e : FcamError) (w : World)
    → (handle_failure r t key v e w).1.states ≡ w.states
unfolding handle_failure
handle_failure_states r t key v e w = (record_failure-Same r.settings t key w).1

with_lease_states :
    (r : Request) (t : Try) (key : ApiKey) (lease : Lease) (v : Vars) (w : World)
    (plaintext : Option String)
    → (with_lease r t key lease v w plaintext).1.states ≡ (release lease w.states).1
unfolding with_lease take_reply
with_lease_states r t key lease v w none =
    ap (λ s. (release lease s).1) (disable_key_decrypt_failed-Same t key w).1
with_lease_states r t key lease v w (some plaintext) = by_reply (t.reply plaintext)
  where
    called : World
    called = record w { requests = calling key.id (t.reply plaintext) ∷ w.requests }

    by_reply :
        (reply : Reply)
        → (take_reply r t key lease v called reply).1.states ≡ (release lease w.states).1
    by_reply timeout =
        ap (λ s. (release lease s).1) (handle_failure_states r t key v timeout_error called)
    by_reply http_error =
        ap (λ s. (release lease s).1) (handle_failure_states r t key v unavailable_error called)
    by_reply (response resp) = handle_response_states r t key _ resp _

acquire_key_current :
    (r : Request) (t : Try) (key : ApiKey) (v : Vars) (w : World) (k : String)
    → let acquired = try_acquire (r.str key.id) key.max_concurrent w.states in
      current k (acquire_key r t key v w acquired).1.states ≡ current k w.states
unfolding acquire_key
acquire_key_current r t key v w k =
    by_lease (try_acquire (r.str key.id) key.max_concurrent w.states) refl
  where
    by_lease :
        (acquired : Option Lease × States)
        → try_acquire (r.str key.id) key.max_concurrent w.states ≡ acquired
        → current k (acquire_key r t key v w acquired).1.states ≡ current k w.states
    by_lease (none, states) e =
        ap (λ a. current k a.1) (sym e)
        ∙ (try_acquire_refuses (r.str key.id) k key.max_concurrent w.states).1 (ap (λ a. a.0) e)
    by_lease (some lease, states) e =
        ap (current k) (
          with_lease_states r t key lease v (record w { states = states })
            (t.decrypt key.api_key_ciphertext))
        ∙ ap (λ a. current k (release lease a.1).1) (sym e)
        ∙ (release-try_acquire (r.str key.id) k key.max_concurrent w.states lease
            (ap (λ a. a.0) e)).0

try_key_current :
    (r : Request) (t : Try) (key : ApiKey) (v : Vars) (w : World) (k : String)
    → current k (try_key r t key v w).1.states ≡ current k w.states
unfolding try_key
try_key_current r t key v w k =
    by_rate (allow (r.str key.id) key.rate_limit_per_min t.monotonic w.buckets)
  where
    v1 : Vars
    v1 = record v { last_api_key_id = some key.id }

    by_rate :
        (rate : (Bool × ℕ) × Buckets)
        → let w1 = record w { buckets = rate.1 } in
          let (next, w') =
            if rate.0.0
            then acquire_key r t key v1 w1 (try_acquire (r.str key.id) key.max_concurrent w1.states)
            else (busy v1, w1) in
          current k w'.states ≡ current k w.states
    by_rate ((true, wait), buckets) =
        acquire_key_current r t key v1 (record w { buckets = buckets }) k
    by_rate ((false, wait), buckets) = refl

try_once_current :
    (r : Request) (t : Try) (v : Vars) (w : World) (k : String)
    → current k (try_once r t v w).1.states ≡ current k w.states
unfolding try_once
try_once_current r t v w k = by_selection (select t.env r.scope w.indices w.keys)
  where
    by_selection :
        (selection : Result SelectedKey × Indices × List ApiKey)
        → let w1 = record w { indices = selection.1; keys = selection.2 } in
          let (next, w') =
            let o : Next × World = elim selection.0 [
              | err e ↦ (
                raises (if v.decrypt_failed_seen && is_keyless e.code then decrypt_error else e),
                w1,
              )
              | ok s ↦ try_key r t s.api_key v w1
            ] in
            o in
          current k w'.states ≡ current k w.states
    by_selection (err e, indices, keys) = refl
    by_selection (ok s, indices, keys) =
        try_key_current r t s.api_key v (record w { indices = indices; keys = keys }) k

pub next_try_current :
    (next : Next) (w : World) (more : Vars → World → Outcome) (k : String) (n : ℕ)
    → current k w.states ≡ n
    → ((v' : Vars) → current k (more v' w).1.states ≡ n)
    → current k (next_try (next, w) more).1.states ≡ n
next_try_current (again v') w more k n e h = h v'
next_try_current (returns result) w more k n e h = e
next_try_current (raises f) w more k n e h = e

loop_current :
    (n i : ℕ) (r : Request) (tries : ℕ → Try) (v : Vars) (w : World) (k : String)
    → current k (loop n i r tries v w).1.states ≡ current k w.states
unfolding loop
loop_current zero i r tries v w k = refl
loop_current (suc n) i r tries v w k =
    elim (Bool-cases (ltb v.upstream_attempts r.total_attempts)) [
      | inr spent ↦ rw (spent, loop) refl
      | inl left ↦
          rw (left, loop)
            (let (next, w') = try_once r (tries i) v w in
              next_try_current next w' _ k (current k w.states) (try_once_current r (tries i) v w k)
                λ v'. loop_current n (i + 1) r tries v' w' k ∙ try_once_current r (tries i) v w k)
    ]

-- However a request ends, with an answer or with an error, the slots of every key are counted as they
-- were when it began: each lease that was acquired on the way was given back.
pub forward_unpinned_current :
    (r : Request) (tries : ℕ → Try) (w : World) (k : String)
    → current k (forward_unpinned r tries w).1.states ≡ current k w.states
unfolding forward_unpinned
forward_unpinned_current r tries w k =
    loop_current (max_selection_tries r.total_attempts) 0 r tries first_vars w k
