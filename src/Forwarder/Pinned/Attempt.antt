-- ===== src/Forwarder/Pinned/Attempt.antt =====
-- One attempt of app/core/forwarder.py with a pinned key, and the call that it makes.
use firecrawl_manger.Prelude.{
  ℕ, ◌+◌, ◌≤◌, ◌<◌, ◌≡◌, refl, ap, ◌∙◌, ◌⊎◌, inl, inr, Bool, true, false, Option, none, some,
  String, List, ◌∷◌, arith, Bool-cases, leb, ◌==◌, ◌||◌, nat_equality,
}
use firecrawl_manger.Errors.{Result, ok, err, FcamError}
use firecrawl_manger.Models.{ApiKey}
use firecrawl_manger.Concurrency.{Lease, States, try_acquire}
use firecrawl_manger.RateLimit.{Buckets, allow}
use firecrawl_manger.Forwarder.{
  Try, World, Reply, UpstreamCall, calling, Response, response, timeout, http_error, cooldown_of,
}
use firecrawl_manger.Forwarder.Answer.{
  Request, Vars, Next, again, returns, raises, ForwardResult, account, returns_or_raises,
  timeout_error, unavailable_error, releasing,
}
use firecrawl_manger.Forwarder.Pinned.{
  answered, is_last, pinned_response, pinned_failure, pinned_reply, pinned_lease, pinned_slot,
  pinned_rate, pinned_attempt,
}
use firecrawl_manger.Forwarder.Frame.{
  disable_key_decrypt_failed-Same, disable_key-Same, mark_cooling-Same, record_failure-Same,
  account-Same,
}

-- The result of the call that was made as number `attempt`, counted from 0, with the key `id`.
abbrev pub IsAnswer : Request → ℕ → ℕ → ForwardResult → Type 0
IsAnswer r attempt id result =
    (result.api_key_id ≡ some id)
    × (result.upstream_status_code ≡ some result.upstream_response.status_code)
    × (result.retry_count ≡ attempt)
    × (500 ≤ result.upstream_response.status_code → r.total_attempts ≡ attempt + 1)

-- One call more was made, with the key `id`.
abbrev pub HasCalled : ℕ → List UpstreamCall → List UpstreamCall → Type 0
HasCalled id old requests = (reply : Reply) × (requests ≡ calling id reply ∷ old)

-- How one attempt ends, after the calls `old`.
abbrev pub Attempted : Request → ℕ → ℕ → List UpstreamCall → Next → World → Type 0
Attempted r attempt id old (again v') w' =
    HasCalled id old w'.requests × (attempt + 1 < r.total_attempts) × (v'.last_api_key_id ≡ some id)
Attempted r attempt id old (returns result) w' =
    (w'.requests ≡ calling id (response result.upstream_response) ∷ old)
    × IsAnswer r attempt id result
Attempted r attempt id old (raises e) w' = (w'.requests ≡ old) ⊎ HasCalled id old w'.requests

-- What the variables say of the key and of the calls before.
pub record Ready (r : Request) (attempt id : ℕ) (v : Vars) : Type 0 where
  pub left : attempt < r.total_attempts
  pub named : v.last_api_key_id ≡ some id
  pub fresh : attempt ≡ 0 → v.retry_count ≡ 0

account-Attempted :
    (r : Request) (attempt id : ℕ) (old : List UpstreamCall) (v : Vars) (resp : Response)
    (o : Result (Unit {0}) × World)
    → o.1.requests ≡ calling id (response resp) ∷ old
    → v.last_api_key_id ≡ some id
    → v.last_upstream_status ≡ some resp.status_code
    → v.retry_count ≡ attempt
    → ¬ (500 ≤ resp.status_code)
    → let (next, w') = returns_or_raises v resp o in Attempted r attempt id old next w'
account-Attempted r attempt id old v resp (ok _, w) calls named status count final =
    (calls, (named, status, count, λ h. absurd (final h)))
account-Attempted r attempt id old v resp (err e, w) calls named status count final =
    inr (response resp, calls)

pinned_response-Attempted :
    (r : Request) (t : Try) (key : ApiKey) (attempt id : ℕ) (old : List UpstreamCall) (v : Vars)
    (resp : Response) (w : World)
    → w.requests ≡ calling id (response resp) ∷ old
    → Ready r attempt id v
    → let (next, w') = pinned_response r t key attempt (answered attempt resp v) resp w in
      Attempted r attempt id old next w'
unfolding pinned_response
pinned_response-Attempted r t key attempt id old v resp w calls ready =
    elim (Bool-cases (resp.status_code == 429)) [
      | inl limited ↦ rw limited (
        (mark_cooling-Same t key (cooldown_of r.settings resp) w).0 ∙ calls,
        (ready.named, refl, counted, λ h. ground arith),
      )
      | inr e1 ↦ elim (Bool-cases (resp.status_code == 401 || resp.status_code == 403)) [
        | inl off ↦
            rw (e1, off)
              (
                (disable_key-Same t key w).0 ∙ calls,
                (ready.named, refl, counted, λ h. ground arith),
              )
        | inr e2 ↦ elim (Bool-cases (leb 500 resp.status_code)) [
          | inl broken ↦ elim (Bool-cases (is_last r attempt)) [
            | inl last ↦
                rw (e1, e2, broken, last)
                  (
                    (record_failure-Same r.settings t key w).0 ∙ calls,
                    (ready.named, refl, counted, λ h. ground (arith, ready.left)),
                  )
            | inr more ↦
                rw (e1, e2, broken, more)
                  (
                    (response resp, (record_failure-Same r.settings t key w).0 ∙ calls),
                    ground arith,
                    ready.named,
                  )
          ]
          | inr e3 ↦
              rw (e1, e2, e3)
                (account-Attempted r attempt id old (answered attempt resp v) resp
                  (account r t key resp w) ((account-Same r t key resp w).0 ∙ calls) ready.named
                  refl counted (ground arith))
        ]
      ]
    ]
  where
    counted : (answered attempt resp v).retry_count ≡ attempt
    counted = ground (arith, ready.fresh)

pinned_failure-Attempted :
    (r : Request) (t : Try) (key : ApiKey) (attempt id : ℕ) (old : List UpstreamCall) (v : Vars)
    (e : FcamError) (reply : Reply) (w : World)
    → w.requests ≡ calling id reply ∷ old
    → Ready r attempt id v
    → let (next, w') = pinned_failure r t key attempt v e w in Attempted r attempt id old next w'
unfolding pinned_failure
pinned_failure-Attempted r t key attempt id old v e reply w calls ready =
    elim (Bool-cases (is_last r attempt)) [
      | inl last ↦ rw last (inr (reply, (record_failure-Same r.settings t key w).0 ∙ calls))
      | inr more ↦
          rw more
            ((reply, (record_failure-Same r.settings t key w).0 ∙ calls), ground arith, ready.named)
    ]

-- The lease that is given back changes no call.
releasing-Attempted :
    (r : Request) (attempt id : ℕ) (old : List UpstreamCall) (next : Next) (lease : Lease)
    (w : World)
    → Attempted r attempt id old next w
    → Attempted r attempt id old next (releasing lease w)
releasing-Attempted r attempt id old (again v') lease w h = h
releasing-Attempted r attempt id old (returns result) lease w h = h
releasing-Attempted r attempt id old (raises e) lease w h = h

pinned_reply-Attempted :
    (r : Request) (t : Try) (key : ApiKey) (attempt id : ℕ) (old : List UpstreamCall)
    (lease : Lease) (v : Vars) (w : World) (reply : Reply)
    → w.requests ≡ calling id reply ∷ old
    → Ready r attempt id v
    → let (next, w') = pinned_reply r t key attempt lease v w reply in
      Attempted r attempt id old next w'
unfolding pinned_reply
pinned_reply-Attempted r t key attempt id old lease v w timeout calls ready =
    releasing-Attempted r attempt id old _ lease _
      (pinned_failure-Attempted r t key attempt id old v timeout_error timeout w calls ready)
pinned_reply-Attempted r t key attempt id old lease v w http_error calls ready =
    releasing-Attempted r attempt id old _ lease _
      (pinned_failure-Attempted r t key attempt id old v unavailable_error http_error w calls ready)
pinned_reply-Attempted r t key attempt id old lease v w (response resp) calls ready =
    pinned_response-Attempted r t key attempt id old v resp (releasing lease w) calls ready

pinned_slot-Attempted :
    (r : Request) (t : Try) (key : ApiKey) (attempt id : ℕ) (v : Vars) (w : World)
    (slot : Option Lease × States)
    → key.id ≡ id
    → Ready r attempt id v
    → let (next, w') = pinned_slot r t key attempt v w slot in
      Attempted r attempt id w.requests next w'
unfolding pinned_slot pinned_lease
pinned_slot-Attempted r t key attempt id v w (none, states) same ready = inl refl
pinned_slot-Attempted r t key attempt id v w (some lease, states) same ready =
    by_text (t.decrypt key.api_key_ciphertext)
  where
    by_text :
        (plaintext : Option String)
        → let (next, w') =
            pinned_lease r t key attempt lease v (record w { states = states }) plaintext in
          Attempted r attempt id w.requests next w'
    by_text none = inl (disable_key_decrypt_failed-Same t key (record w { states = states })).0
    by_text (some plaintext) =
        pinned_reply-Attempted r t key attempt id w.requests lease v
          (record w { states = states; requests = calling key.id (t.reply plaintext) ∷ w.requests })
          (t.reply plaintext) (ap (λ i. calling i (t.reply plaintext) ∷ w.requests) same) ready

pub pinned_attempt-Attempted :
    (r : Request) (t : Try) (key : ApiKey) (attempt id : ℕ) (v : Vars) (w : World)
    → key.id ≡ id
    → Ready r attempt id v
    → let (next, w') = pinned_attempt r t key attempt v w in
      Attempted r attempt id w.requests next w'
unfolding pinned_attempt pinned_rate
pinned_attempt-Attempted r t key attempt id v w same ready =
    by_rate (allow (r.str key.id) key.rate_limit_per_min t.monotonic w.buckets)
  where
    by_rate :
        (rate : (Bool × ℕ) × Buckets)
        → let (next, w') = pinned_rate r t key attempt v w rate in
          Attempted r attempt id w.requests next w'
    by_rate ((true, wait), buckets) =
        pinned_slot-Attempted r t key attempt id v (record w { buckets = buckets })
          (try_acquire (r.str key.id) key.max_concurrent w.states) same ready
    by_rate ((false, wait), buckets) = inl refl
