-- ===== src/Forwarder/Pinned/Slots.antt =====
-- The semaphores of the keys during `Forwarder.forward` of app/core/forwarder.py as a whole.
use firecrawl_manger.Prelude.{
  ℕ, zero, suc, ◌+◌, ◌≡◌, ◌∷◌, refl, inl, inr, Bool, true, false, some, none, String, Bool-cases,
  Option, ◌∙◌, sym, ap, ◌==◌, ◌||◌, leb, nat_equality, string_equality,
}
use firecrawl_manger.Errors.{Result, ok, err, FcamError}
use firecrawl_manger.Models.{ApiKey}
use firecrawl_manger.Concurrency.{Lease, States, try_acquire, release, current}
use firecrawl_manger.Concurrency.Laws.{try_acquire_refuses, release-try_acquire}
use firecrawl_manger.RateLimit.{Buckets, allow}
use firecrawl_manger.Forwarder.{
  calling, Try, World, Response, Reply, response, timeout, http_error, cooldown_of,
}
use firecrawl_manger.Prelude.Text.{Text}
use firecrawl_manger.Forwarder.Providers.{Providers, provider_base_url, attempts_for}
use firecrawl_manger.Forwarder.Answer.{Request, Vars, account, timeout_error, unavailable_error}
use firecrawl_manger.Forwarder.Loop.{Outcome}
use firecrawl_manger.Forwarder.Slots.{account_states, next_try_current, forward_unpinned_current}
use firecrawl_manger.Forwarder.Pinned.{
  pinned_response, pinned_failure, pinned_reply, pinned_lease, pinned_slot, pinned_rate,
  pinned_attempt, pinned_loop, session_key, forward_with, forward_to, forward,
}
use firecrawl_manger.Forwarder.Frame.{
  disable_key_decrypt_failed-Same, disable_key-Same, mark_cooling-Same, record_failure-Same,
  account-Same,
}

pinned_response_states :
    (r : Request) (t : Try) (key : ApiKey) (attempt : ℕ) (v : Vars) (resp : Response) (w : World)
    → (pinned_response r t key attempt v resp w).1.states ≡ w.states
unfolding pinned_response
pinned_response_states r t key attempt v resp w = elim (Bool-cases (resp.status_code == 429)) [
  | inl limited ↦ rw limited (mark_cooling-Same t key (cooldown_of r.settings resp) w).1
  | inr e1 ↦ elim (Bool-cases (resp.status_code == 401 || resp.status_code == 403)) [
    | inl off ↦ rw (e1, off) (disable_key-Same t key w).1
    | inr e2 ↦ elim (Bool-cases (leb 500 resp.status_code)) [
      | inl broken ↦ rw (e1, e2, broken) (record_failure-Same r.settings t key w).1
      | inr e3 ↦
          rw (e1, e2, e3)
            (account_states v resp (account r t key resp w) ∙ (account-Same r t key resp w).1)
    ]
  ]
]

pinned_failure_states :
    (r : Request) (t : Try) (key : ApiKey) (attempt : ℕ) (v : Vars) (e : FcamError) (w : World)
    → (pinned_failure r t key attempt v e w).1.states ≡ w.states
unfolding pinned_failure
pinned_failure_states r t key attempt v e w = (record_failure-Same r.settings t key w).1

pinned_lease_states :
    (r : Request) (t : Try) (key : ApiKey) (attempt : ℕ) (lease : Lease) (v : Vars) (w : World)
    (plaintext : Option String)
    → (pinned_lease r t key attempt lease v w plaintext).1.states ≡ (release lease w.states).1
unfolding pinned_lease pinned_reply
pinned_lease_states r t key attempt lease v w none =
    ap (λ s. (release lease s).1) (disable_key_decrypt_failed-Same t key w).1
pinned_lease_states r t key attempt lease v w (some plaintext) = by_reply (t.reply plaintext)
  where
    called : World
    called = record w { requests = calling key.id (t.reply plaintext) ∷ w.requests }

    by_reply :
        (reply : Reply)
        → (pinned_reply r t key attempt lease v called reply).1.states ≡ (release lease w.states).1
    by_reply timeout =
        ap (λ s. (release lease s).1) (pinned_failure_states r t key attempt v timeout_error called)
    by_reply http_error =
        ap (λ s. (release lease s).1)
          (pinned_failure_states r t key attempt v unavailable_error called)
    by_reply (response resp) = pinned_response_states r t key attempt _ resp _

pinned_slot_current :
    (r : Request) (t : Try) (key : ApiKey) (attempt : ℕ) (v : Vars) (w : World) (k : String)
    → let slot = try_acquire (r.str key.id) key.max_concurrent w.states in
      current k (pinned_slot r t key attempt v w slot).1.states ≡ current k w.states
unfolding pinned_slot
pinned_slot_current r t key attempt v w k =
    by_slot (try_acquire (r.str key.id) key.max_concurrent w.states) refl
  where
    by_slot :
        (slot : Option Lease × States)
        → try_acquire (r.str key.id) key.max_concurrent w.states ≡ slot
        → current k (pinned_slot r t key attempt v w slot).1.states ≡ current k w.states
    by_slot (none, states) e =
        ap (λ a. current k a.1) (sym e)
        ∙ (try_acquire_refuses (r.str key.id) k key.max_concurrent w.states).1 (ap (λ a. a.0) e)
    by_slot (some lease, states) e =
        ap (current k) (
          pinned_lease_states r t key attempt lease v (record w { states = states })
            (t.decrypt key.api_key_ciphertext))
        ∙ ap (λ a. current k (release lease a.1).1) (sym e)
        ∙ (release-try_acquire (r.str key.id) k key.max_concurrent w.states lease
            (ap (λ a. a.0) e)).0

pinned_attempt_current :
    (r : Request) (t : Try) (key : ApiKey) (attempt : ℕ) (v : Vars) (w : World) (k : String)
    → current k (pinned_attempt r t key attempt v w).1.states ≡ current k w.states
unfolding pinned_attempt pinned_rate
pinned_attempt_current r t key attempt v w k =
    by_rate (allow (r.str key.id) key.rate_limit_per_min t.monotonic w.buckets)
  where
    by_rate :
        (rate : (Bool × ℕ) × Buckets)
        → current k (pinned_rate r t key attempt v w rate).1.states ≡ current k w.states
    by_rate ((true, wait), buckets) =
        pinned_slot_current r t key attempt v (record w { buckets = buckets }) k
    by_rate ((false, wait), buckets) = refl

pinned_loop_current :
    (n attempt : ℕ) (r : Request) (tries : ℕ → Try) (key : ApiKey) (v : Vars) (w : World)
    (k : String)
    → current k (pinned_loop n attempt r tries key v w).1.states ≡ current k w.states
unfolding pinned_loop
pinned_loop_current zero attempt r tries key v w k = forward_unpinned_current r tries w k
pinned_loop_current (suc n) attempt r tries key v w k =
    let (next, w') = pinned_attempt r (tries attempt) (session_key key w) attempt v w in
    let same = pinned_attempt_current r (tries attempt) (session_key key w) attempt v w k in
    next_try_current next w' _ k (current k w.states) same
      λ v'. pinned_loop_current n (attempt + 1) r tries key v' w' k ∙ same

forward_with_current :
    (r : Request) (tries : ℕ → Try) (w : World) (pinned : Option ApiKey) (k : String)
    → current k (forward_with r tries w pinned).1.states ≡ current k w.states
unfolding forward_with
forward_with_current r tries w none k = forward_unpinned_current r tries w k
forward_with_current r tries w (some key) k =
    pinned_loop_current r.total_attempts 0 r tries key _ w k

forward_to_current :
    (r : Request) (pinned : Option ℕ) (query_ok : Bool) (tries : ℕ → Try) (w : World) (k : String)
    → current k (forward_to r pinned query_ok tries w).1.states ≡ current k w.states
unfolding forward_to
forward_to_current r none query_ok tries w k = forward_unpinned_current r tries w k
forward_to_current r (some id) true tries w k = forward_with_current r tries w _ k
forward_to_current r (some id) false tries w k = refl

-- However a request ends, with a pinned key or without, with an answer or with an error, the slots of
-- every key are counted as they were when it began: each lease that was acquired on the way was given
-- back.
pub forward_current :
    (p : Providers) (r : Request) (pinned_api_key_id : Option ℕ) (query_ok : Bool) (tries : ℕ → Try)
    (w : World) (k : String)
    → current k (forward p r pinned_api_key_id query_ok tries w).1.states ≡ current k w.states
unfolding forward
forward_current p r pinned_api_key_id query_ok tries w k =
    elim (Bool-cases r.settings.has_master_key) [
      | inr missing ↦ rw missing refl
      | inl there ↦ rw there (by_url (provider_base_url p r.scope.provider))
    ]
  where
    r' : Request
    r' = record r { total_attempts = attempts_for p r.scope.provider }

    by_url :
        (url : Result Text)
        → let o : Outcome = elim url [
          | err e ↦ (err e, w)
          | ok base_url ↦ forward_to r' pinned_api_key_id query_ok tries w
        ] in
          current k o.1.states ≡ current k w.states
    by_url (err e) = refl
    by_url (ok base_url) = forward_to_current r' pinned_api_key_id query_ok tries w k
