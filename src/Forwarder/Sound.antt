-- ===== src/Forwarder/Sound.antt =====
-- One try of the loop of app/core/forwarder.py: the calls that it makes, and how it ends.
use firecrawl_manger.Prelude.{
  ℕ, ◌+◌, ◌<◌, ◌≡◌, refl, true, false, some, none, String, List, ◌∷◌, length, arith, ap, sym, ◌&&◌,
  Option, Bool, if◌then◌else◌, nat_equality,
}
use firecrawl_manger.Errors.{Result, ok, err}
use firecrawl_manger.Models.{ApiKey}
use firecrawl_manger.Concurrency.{Lease, States, try_acquire}
use firecrawl_manger.RateLimit.{Buckets, allow}
use firecrawl_manger.KeyPool.Select.{SelectedKey, select}
use firecrawl_manger.KeyPool.{Indices}
use firecrawl_manger.Forwarder.{
  Try, World, Reply, UpstreamCall, calling, response, timeout, http_error,
}
use firecrawl_manger.Forwarder.Answer.{
  Next, Request, Vars, again, decrypt_error, raises, releasing, returns, timeout_error,
  unavailable_error,
}
use firecrawl_manger.Forwarder.Loop.{
  take_reply, with_lease, acquire_key, busy, try_key, is_keyless, try_once,
}
use firecrawl_manger.Forwarder.Frame.{disable_key_decrypt_failed-Same}
use firecrawl_manger.Forwarder.Answers.{Sound, handle_response-Sound, handle_failure-Sound}

-- Giving the lease back changes no call.
releasing-Sound :
    (r : Request) (v : Vars) (n : ℕ) (next : Next) (lease : Lease) (w : World)
    → Sound r v n next w
    → Sound r v n next (releasing lease w)
releasing-Sound r v n (again v') lease w s = s
releasing-Sound r v n (raises e) lease w s = s
releasing-Sound r v n (returns result) lease w (last, size, retry) = (
  record {
    id = last.id;
    earlier = last.earlier;
    calls = last.calls;
    named = last.named;
    status = last.status;
  },
  size,
  retry,
)

take_reply-Sound :
    (r : Request) (t : Try) (key : ApiKey) (lease : Lease) (v : Vars) (w : World) (n : ℕ)
    (earlier : List UpstreamCall) (reply : Reply)
    → w.requests ≡ calling key.id reply ∷ earlier
    → length earlier ≡ n
    → v.last_api_key_id ≡ some key.id
    → v.upstream_attempts < r.total_attempts
    → let (next, w') = take_reply r t key lease v w reply in Sound r v n next w'
unfolding take_reply
take_reply-Sound r t key lease v w n earlier timeout calls size id left =
    releasing-Sound r v n _ lease _
      (handle_failure-Sound r t key v timeout_error n w (omega (arith, ap length calls)) left)
take_reply-Sound r t key lease v w n earlier http_error calls size id left =
    releasing-Sound r v n _ lease _
      (handle_failure-Sound r t key v unavailable_error n w (omega (arith, ap length calls)) left)
take_reply-Sound r t key lease v w n earlier (response resp) calls size id left =
    handle_response-Sound r t key v _ resp n key.id (releasing lease w) (record {
      earlier = earlier;
      calls = calls;
      size = size;
      named = id;
      status = refl;
      counted = refl;
      left = left;
    })

with_lease-Sound :
    (r : Request) (t : Try) (key : ApiKey) (lease : Lease) (v : Vars) (w : World)
    (plaintext : Option String)
    → v.last_api_key_id ≡ some key.id
    → v.upstream_attempts < r.total_attempts
    → let (next, w') = with_lease r t key lease v w plaintext in
      Sound r v (length w.requests) next w'
unfolding with_lease
with_lease-Sound r t key lease v w none id left = (
  left,
  ap (λ n. v.upstream_attempts + n) (ap length (sym (disable_key_decrypt_failed-Same t key w).0)),
)
with_lease-Sound r t key lease v w (some plaintext) id left =
    let reply = t.reply plaintext in
    take_reply-Sound r t key lease v (record w { requests = calling key.id reply ∷ w.requests })
      (length w.requests) w.requests reply refl refl id left

acquire_key-Sound :
    (r : Request) (t : Try) (key : ApiKey) (v : Vars) (w : World) (acquired : Option Lease × States)
    → v.last_api_key_id ≡ some key.id
    → v.upstream_attempts < r.total_attempts
    → let (next, w') = acquire_key r t key v w acquired in Sound r v (length w.requests) next w'
unfolding acquire_key
acquire_key-Sound r t key v w (none, states) id left = (left, refl)
acquire_key-Sound r t key v w (some lease, states) id left =
    with_lease-Sound r t key lease v (record w { states = states }) _ id left

try_key-Sound :
    (r : Request) (t : Try) (key : ApiKey) (v : Vars) (w : World)
    → v.upstream_attempts < r.total_attempts
    → let (next, w') = try_key r t key v w in Sound r v (length w.requests) next w'
unfolding try_key
try_key-Sound r t key v w left =
    by_rate (allow (r.str key.id) key.rate_limit_per_min t.monotonic w.buckets)
  where
    v1 : Vars
    v1 = record v { last_api_key_id = some key.id }

    same_count :
        (next : Next) (w' : World)
        → Sound r v1 (length w.requests) next w'
        → Sound r v (length w.requests) next w'
    same_count (again v') w' h = h
    same_count (returns result) w' h = h
    same_count (raises e) w' h = h

    by_rate :
        (rate : (Bool × ℕ) × Buckets)
        → let w1 = record w { buckets = rate.1 } in
          let (next, w') =
            if rate.0.0
            then acquire_key r t key v1 w1 (try_acquire (r.str key.id) key.max_concurrent w1.states)
            else (busy v1, w1) in
          Sound r v (length w.requests) next w'
    by_rate ((true, wait), buckets) = same_count _ _ (
        acquire_key-Sound r t key v1 (record w { buckets = buckets })
          (try_acquire (r.str key.id) key.max_concurrent w.states) refl left)
    by_rate ((false, wait), buckets) = (left, refl)

pub try_once-Sound :
    (r : Request) (t : Try) (v : Vars) (w : World)
    → v.upstream_attempts < r.total_attempts
    → let (next, w') = try_once r t v w in Sound r v (length w.requests) next w'
unfolding try_once
try_once-Sound r t v w left = by_selection (select t.env r.scope w.indices w.keys)
  where
    by_selection :
        (selection : Result SelectedKey × Indices × List ApiKey)
        → let w1 = record w { indices = selection.1; keys = selection.2 } in
          let (next, w') =
            let o : Next × World = elim selection.0 [
              | err e ↦ (
                raises (if v.decrypt_failed_seen && is_keyless e.code then decrypt_error else e),
                w1,
              )
              | ok s ↦ try_key r t s.api_key v w1
            ] in
            o in
          Sound r v (length w.requests) next w'
    by_selection (err e, indices, keys) = omega arith
    by_selection (ok s, indices, keys) =
        try_key-Sound r t s.api_key v (record w { indices = indices; keys = keys }) left
