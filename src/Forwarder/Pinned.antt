-- ===== src/Forwarder/Pinned.antt =====
-- app/core/forwarder.py, `Forwarder.forward` with a pinned key, and the method as a whole.
pub mod Attempt
pub mod Attempts
pub mod Slots
use firecrawl_manger.Prelude.{
  ℕ, zero, suc, ◌+◌, String, Bool, true, false, not, ◌&&◌, ◌||◌, Option, none, some, ◌∷◌, find, ltb,
  leb, ◌==◌, nat_equality, string_equality, if◌then◌else◌,
}
use firecrawl_manger.Errors.{Result, ok, err, FcamError, error, not_ready, database_unavailable}
use firecrawl_manger.Models.{ApiKey}
use firecrawl_manger.Concurrency.{Lease, States, try_acquire}
use firecrawl_manger.RateLimit.{Buckets, allow}
use firecrawl_manger.KeyPool.{is_disabled, option_beq}
use firecrawl_manger.Forwarder.{
  Try, World, Reply, calling, Response, response, timeout, http_error, disable_key_decrypt_failed,
  disable_key, mark_cooling, record_failure, cooldown_of,
}
use firecrawl_manger.Forwarder.Providers.{Providers, provider_base_url, attempts_for}
use firecrawl_manger.Forwarder.Answer.{
  Request, Vars, Next, again, returns, raises, result_of, account, returns_or_raises, timeout_error,
  unavailable_error, decrypt_error, busy_error, releasing,
}
use firecrawl_manger.Forwarder.Loop.{Outcome, next_try, first_vars, forward_unpinned}

-- `attempt >= total_attempts - 1`, where at least one attempt is made.
abbrev pub is_last : Request → ℕ → Bool
is_last r attempt = leb r.total_attempts (attempt + 1)

-- `pinned_key` as the session shows it: the object stays the same, its attributes change.
abbrev pub session_key : ApiKey → World → ApiKey
session_key key w = elim (find (λ row. row.id == key.id) w.keys) [ none ↦ key | some row ↦ row ]

-- An answer of the upstream to the pinned key: no other key is tried, so only a 5xx is repeated.
unfoldable pub pinned_response : Request → Try → ApiKey → ℕ → Vars → Response → World → Next × World
pinned_response r t key attempt v resp w =
    if resp.status_code == 429
    then (
      returns (result_of v resp v.retry_count),
      mark_cooling t key (cooldown_of r.settings resp) w,
    )
    else if resp.status_code == 401 || resp.status_code == 403
    then (returns (result_of v resp v.retry_count), disable_key t key w)
    else if leb 500 resp.status_code
    then (
      if is_last r attempt then returns (result_of v resp v.retry_count) else again v,
      record_failure r.settings t key w,
    )
    else returns_or_raises v resp (account r t key resp w)

-- No answer: the last attempt raises.
unfoldable pub pinned_failure : Request → Try → ApiKey → ℕ → Vars → FcamError → World → Next × World
pinned_failure r t key attempt v e w =
    (if is_last r attempt then raises e else again v, record_failure r.settings t key w)

-- `last_upstream_status = …; if attempt > 0: retry_count = attempt`
abbrev pub answered : ℕ → Response → Vars → Vars
answered attempt resp v = record v {
  last_upstream_status = some resp.status_code;
  retry_count = if ltb 0 attempt then attempt else v.retry_count;
}

-- The lease is given back once the reply is there.
unfoldable pub pinned_reply :
    Request → Try → ApiKey → ℕ → Lease → Vars → World → Reply → Next × World
pinned_reply r t key attempt lease v w timeout =
    let (next, w') = pinned_failure r t key attempt v timeout_error w in (next, releasing lease w')
pinned_reply r t key attempt lease v w http_error =
    let (next, w') = pinned_failure r t key attempt v unavailable_error w in
    (next, releasing lease w')
pinned_reply r t key attempt lease v w (response resp) =
    pinned_response r t key attempt (answered attempt resp v) resp (releasing lease w)

unfoldable pub pinned_lease :
    Request → Try → ApiKey → ℕ → Lease → Vars → World → Option String → Next × World
pinned_lease r t key attempt lease v w none =
    (raises decrypt_error, releasing lease (disable_key_decrypt_failed t key w))
pinned_lease r t key attempt lease v w (some plaintext) =
    let reply = t.reply plaintext in
    pinned_reply r t key attempt lease v (record w { requests = calling key.id reply ∷ w.requests })
      reply

unfoldable pub pinned_slot :
    Request → Try → ApiKey → ℕ → Vars → World → Option Lease × States → Next × World
pinned_slot r t key attempt v w (none, states) = (raises busy_error, record w { states = states })
pinned_slot r t key attempt v w (some lease, states) =
    pinned_lease r t key attempt lease v (record w { states = states })
      (t.decrypt key.api_key_ciphertext)

unfoldable pub pinned_rate :
    Request → Try → ApiKey → ℕ → Vars → World → (Bool × ℕ) × Buckets → Next × World
pinned_rate r t key attempt v w ((false, retry_after), buckets) =
    (raises (record busy_error { retry_after = some retry_after }), record w { buckets = buckets })
pinned_rate r t key attempt v w ((true, _), buckets) =
    pinned_slot r t key attempt v (record w { buckets = buckets })
      (try_acquire (r.str key.id) key.max_concurrent w.states)

-- One attempt with the pinned key.
unfoldable pub pinned_attempt : Request → Try → ApiKey → ℕ → Vars → World → Next × World
pinned_attempt r t key attempt v w =
    pinned_rate r t key attempt v w
      (allow (r.str key.id) key.rate_limit_per_min t.monotonic w.buckets)

-- `for attempt in range(total_attempts)`, with `n` attempts left. After the loop the code goes on
-- with the keys of the pool.
unfoldable pub pinned_loop : ℕ → ℕ → Request → (ℕ → Try) → ApiKey → Vars → World → Outcome
pinned_loop zero attempt r tries key v w = forward_unpinned r tries w
pinned_loop (suc n) attempt r tries key v w =
    next_try (pinned_attempt r (tries attempt) (session_key key w) attempt v w)
      (λ v' w'. pinned_loop n (attempt + 1) r tries key v' w')

-- The row of the pinned key, which must be one of the client's.
abbrev pub is_pinned : ℕ → World → ApiKey → Bool
is_pinned id w key = key.id == id && option_beq key.client_id (some w.client.id)

-- A pinned key that is not there, is disabled or belongs to another provider is not used.
abbrev pub usable : Request → Option ApiKey → Option ApiKey
usable r none = none
usable r (some key) =
    if is_disabled key || not (key.provider == r.scope.provider) then none else some key

-- With the pinned key that is used, or with the keys of the pool.
unfoldable pub forward_with : Request → (ℕ → Try) → World → Option ApiKey → Outcome
forward_with r tries w none = forward_unpinned r tries w
forward_with r tries w (some key) =
    pinned_loop r.total_attempts 0 r tries key (record first_vars { last_api_key_id = some key.id })
      w

-- The call, once the provider is known.
unfoldable pub forward_to : Request → Option ℕ → Bool → (ℕ → Try) → World → Outcome
forward_to r none query_ok tries w = forward_unpinned r tries w
forward_to r (some id) query_ok tries w =
    if query_ok
    then forward_with r tries w (usable r (find (is_pinned id w) w.keys))
    else (err database_unavailable, w)

-- `forward`, with the answer to the query for the pinned key.
unfoldable pub forward : Providers → Request → Option ℕ → Bool → (ℕ → Try) → World → Outcome
forward p r pinned_api_key_id query_ok tries w =
    if not r.settings.has_master_key
    then (err (error 503 not_ready "Master key not configured"), w)
    else elim (provider_base_url p r.scope.provider) [
      | err e ↦ (err e, w)
      | ok base_url ↦
          forward_to (record r { total_attempts = attempts_for p r.scope.provider })
            pinned_api_key_id query_ok tries w
    ]
