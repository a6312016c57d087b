-- ===== src/Forwarder/Loop.antt =====
-- app/core/forwarder.py, `Forwarder.forward`: the loop that selects a key, calls the upstream with it
-- and tries again.
use firecrawl_manger.Prelude.{
  ℕ, zero, suc, ◌+◌, ◌*◌, max, String, Bool, true, false, ◌&&◌, Option, none, some, ◌∷◌, ltb, ◌==◌,
  nat_equality, if◌then◌else◌,
}
use firecrawl_manger.Errors.{
  Result, ok, err, Code, FcamError, no_key_configured, all_keys_disabled, no_key_available,
}
use firecrawl_manger.Models.{ApiKey}
use firecrawl_manger.Concurrency.{Lease, States, try_acquire}
use firecrawl_manger.RateLimit.{allow}
use firecrawl_manger.KeyPool.Select.{select}
use firecrawl_manger.Forwarder.{
  Try, World, Reply, calling, response, timeout, http_error, disable_key_decrypt_failed,
}
use firecrawl_manger.Forwarder.Answer.{
  Request, Vars, ForwardResult, Next, again, returns, raises, handle_response, handle_failure,
  timeout_error, unavailable_error, decrypt_error, busy_error, releasing,
}

-- How the upstream's reply is taken; the lease is given back once the reply is there.
unfoldable pub take_reply : Request → Try → ApiKey → Lease → Vars → World → Reply → Next × World
take_reply r t key lease v w timeout =
    let (next, w') = handle_failure r t key v timeout_error w in (next, releasing lease w')
take_reply r t key lease v w http_error =
    let (next, w') = handle_failure r t key v unavailable_error w in (next, releasing lease w')
take_reply r t key lease v w (response resp) =
    handle_response r t key
      (record v {
        last_upstream_status = some resp.status_code;
        upstream_attempts = v.upstream_attempts + 1;
      })
      resp (releasing lease w)

-- With a lease: the ciphertext is decrypted, and the upstream called with the key.
unfoldable pub with_lease :
    Request → Try → ApiKey → Lease → Vars → World → Option String → Next × World
with_lease r t key lease v w none = (
  again (record v { retry_count = v.retry_count + 1; decrypt_failed_seen = true }),
  releasing lease (disable_key_decrypt_failed t key w),
)
with_lease r t key lease v w (some plaintext) =
    let reply = t.reply plaintext in
    take_reply r t key lease v (record w { requests = calling key.id reply ∷ w.requests }) reply

abbrev pub busy : Vars → Next
busy v = again (record v { retry_count = v.retry_count + 1 })

-- Past the rate limit: the semaphore of the key.
unfoldable pub acquire_key :
    Request → Try → ApiKey → Vars → World → Option Lease × States → Next × World
acquire_key r t key v w (none, states) = (busy v, record w { states = states })
acquire_key r t key v w (some lease, states) =
    with_lease r t key lease v (record w { states = states }) (t.decrypt key.api_key_ciphertext)

-- A key that was selected: its rate limit, its semaphore, its ciphertext, and the call.
unfoldable pub try_key : Request → Try → ApiKey → Vars → World → Next × World
try_key r t key v w =
    let v1 : Vars = record v { last_api_key_id = some key.id } in
    let (answer, buckets) = allow (r.str key.id) key.rate_limit_per_min t.monotonic w.buckets in
    let w1 : World = record w { buckets = buckets } in
    if answer.0
    then acquire_key r t key v1 w1 (try_acquire (r.str key.id) key.max_concurrent w1.states)
    else (busy v1, w1)

-- `exc.code in {…}`
abbrev pub is_keyless : Code → Bool
is_keyless no_key_configured = true
is_keyless all_keys_disabled = true
is_keyless no_key_available = true
is_keyless _ = false

-- One round of the loop.
unfoldable pub try_once : Request → Try → Vars → World → Next × World
try_once r t v w =
    let (selected, indices, keys) = select t.env r.scope w.indices w.keys in
    let w' : World = record w { indices = indices; keys = keys } in
    elim selected [
      | err e ↦
          (raises (if v.decrypt_failed_seen && is_keyless e.code then decrypt_error else e), w')
      | ok s ↦ try_key r t s.api_key v w'
    ]

-- How the call as a whole ends.
abbrev pub Outcome : Type 0
Outcome = Result ForwardResult × World

abbrev pub next_try : Next × World → (Vars → World → Outcome) → Outcome
next_try (again v, w) more = more v w
next_try (returns result, w) more = (ok result, w)
next_try (raises e, w) more = (err e, w)

abbrev pub gave_up : Vars → FcamError
gave_up v = if v.upstream_attempts == 0 then busy_error else unavailable_error

-- `while upstream_attempts < total_attempts and selection_tries < max_selection_tries`, with `tries`
-- of the selections left. The tries are numbered from `i`.
unfoldable pub loop : ℕ → ℕ → Request → (ℕ → Try) → Vars → World → Outcome
loop zero i r tries v w = (err (gave_up v), w)
loop (suc n) i r tries v w = elim (ltb v.upstream_attempts r.total_attempts) [
  | true ↦ next_try (try_once r (tries i) v w) (λ v' w'. loop n (i + 1) r tries v' w')
  | false ↦ (err (gave_up v), w)
]

abbrev pub first_vars : Vars
first_vars = record {
  upstream_attempts = 0;
  retry_count = 0;
  decrypt_failed_seen = false;
  last_upstream_status = none;
  last_api_key_id = none;
}

-- `max_selection_tries`
abbrev pub max_selection_tries : ℕ → ℕ
max_selection_tries total_attempts = max (total_attempts * 20) 50

-- `forward` with no pinned key.
unfoldable pub forward_unpinned : Request → (ℕ → Try) → World → Outcome
forward_unpinned r tries w = loop (max_selection_tries r.total_attempts) 0 r tries first_vars w
