-- ===== src/DataPlane/Jobs.antt =====
-- Requests about a resource of app/api/firecrawl_v2_compat.py: they use the key that made it.
use firecrawl_manger.Prelude.{
  ℕ, ◌≤◌, ◌<◌, ◌≡◌, ◌≢◌, refl, ap, ◌∙◌, String, true, false, Option, none, some, [], arith, find,
  find_passes, if-elim, Bool-cases, inl, inr, not, ◌||◌, ◌==◌, string_equality, nat_equality,
}
use firecrawl_manger.Prelude.Text.{Text, strip}
use firecrawl_manger.Errors.{ok, err}
use firecrawl_manger.Models.{ApiKey}
use firecrawl_manger.KeyPool.{is_disabled}
use firecrawl_manger.ResourceBinding.{
  Bindings, accepts, stored_as, find_binding, is_expired, expiry, bind_resource,
  lookup_bound_key_id,
}
use firecrawl_manger.ResourceBinding.Lookup.{lookup-bind}
use firecrawl_manger.Forwarder.{World}
use firecrawl_manger.Forwarder.Answer.{Request, ForwardResult}
use firecrawl_manger.Forwarder.Loop.{Outcome}
use firecrawl_manger.Forwarder.Providers.{attempts_for, provider_base_url}
use firecrawl_manger.Forwarder.Pinned.{forward, forward_to, forward_with, is_pinned, usable}
use firecrawl_manger.Forwarder.Pinned.Attempts.{repeat, keys_called, forward_with-PinnedEnd}
use firecrawl_manger.DataPlane.{
  Call, Gateway, client_answer, extract_id_from_response, to_fastapi_response, call_upstream,
  fall_back, forward_with_fallback, maybe_bind_created_resource, create_resource, use_resource,
}

-- The request that the forwarder gets.
abbrev pub sent : Call → String → Text → Request
sent c method path = record c.request {
  is_get = method == "GET";
  upstream_path = path;
  total_attempts = attempts_for c.providers c.request.scope.provider;
}

some_attempt : (c : Call) → 0 < attempts_for c.providers c.request.scope.provider
unfolding attempts_for
some_attempt c = omega arith

call_upstream-pinned :
    (c : Call) (i : ℕ) (method : String) (path : Text) (k : ℕ) (key : ApiKey) (url : Text)
    (w : World)
    → c.request.settings.has_master_key ≡ true
    → provider_base_url c.providers c.request.scope.provider ≡ ok url
    → c.query_ok i ≡ true
    → usable c.request (find (is_pinned k w) w.keys) ≡ some key
    → call_upstream c i method path (some k) w
      ≡ forward_with (sent c method path) (c.tries i) w (some key)
unfolding call_upstream forward forward_to
call_upstream-pinned c i method path k key url w master known asked there =
    simp master (rw (known, asked, there) refl)

usable-found :
    (r : Request) (o : Option ApiKey) (key : ApiKey) → usable r o ≡ some key → o ≡ some key
usable-found r none key h = absurd (ground arith)
usable-found r (some found) key h =
    elim (Bool-cases (is_disabled found || not (found.provider == r.scope.provider))) [
      | inl off ↦ absurd (ground (arith, rw off at h))
      | inr on ↦ rw on at h
    ]

-- The key that is used is the one that was asked for.
pinned-id :
    (r : Request) (k : ℕ) (key : ApiKey) (w : World)
    → usable r (find (is_pinned k w) w.keys) ≡ some key
    → key.id ≡ k
pinned-id r k key w h =
    let passes =
      find_passes (is_pinned k w) key w.keys (usable-found r (find (is_pinned k w) w.keys) key h) in
    ground (arith, passes)

client_answer-requests :
    (g : Gateway) (o : Outcome) → (client_answer g o).1.world.requests ≡ o.1.requests
client_answer-requests g (ok result, w) = refl
client_answer-requests g (err e, w) = refl

bound :
    (c : Call) (client_id k : ℕ) (resource_type id : Text) (resp : ForwardResult) (g : Gateway)
    → extract_id_from_response c.id_of (to_fastapi_response resp.upstream_response) ≡ some id
    → maybe_bind_created_resource c client_id
        (some k)
        resource_type
        (to_fastapi_response resp.upstream_response)
        g.bindings
      ≡ (bind_resource c.binding client_id k resource_type id c.ttl_seconds g.bindings).1
unfolding maybe_bind_created_resource
bound c client_id k resource_type id resp g named = rw (named, maybe_bind_created_resource) refl

create_resource_binds :
    (c : Call) (resource_type id made_at : Text) (fallback_path : Option Text) (g : Gateway)
    (made : ForwardResult) (w : World) (k : ℕ)
    → forward_with_fallback c "POST" made_at fallback_path none g.world ≡ (ok made, w)
    → made.api_key_id ≡ some k
    → extract_id_from_response c.id_of (to_fastapi_response made.upstream_response) ≡ some id
    → (create_resource c resource_type made_at fallback_path g).1.bindings
      ≡ (bind_resource c.binding w.client.id k resource_type id c.ttl_seconds g.bindings).1
unfolding create_resource
create_resource_binds c resource_type id made_at fallback_path g made w k forwarded by named =
    rw (forwarded, by) (bound c w.client.id k resource_type id made g named)

-- There is no other path to try, or the first call does not end in a 404 or 405.
abbrev pub NeedsNoFallback : Option Text → Outcome → Type 0
NeedsNoFallback none o = Unit
NeedsNoFallback (some path) (err e, w) = Unit
NeedsNoFallback (some path) (ok result, w) =
    (result.upstream_response.status_code ≢ 404) × (result.upstream_response.status_code ≢ 405)

fall_back_first :
    (c : Call) (method : String) (fallback_path : Option Text) (pinned : Option ℕ) (o : Outcome)
    → NeedsNoFallback fallback_path o
    → fall_back c method fallback_path pinned o ≡ o
unfolding fall_back
fall_back_first c method none pinned o h = refl
fall_back_first c method (some path) pinned (err e, w) h = refl
fall_back_first c method (some path) pinned (ok result, w) (h, h') =
    if-elim (λ r. r ≡ (ok result, w))
      (result.upstream_response.status_code == 404 || result.upstream_response.status_code == 405)
      (call_upstream c 1 method path pinned w) (ok result, w) (λ e. absurd (ground arith))
      (λ e. refl)

use_resource_pinned :
    (c : Call) (method : String) (resource_type job_id path : Text) (g : Gateway) (table : Bindings)
    (k : ℕ) (key : ApiKey) (url : Text) (fallback_path : Option Text)
    → NeedsNoFallback fallback_path (call_upstream c 0 method path (some k) g.world)
    → lookup_bound_key_id c.binding g.world.client.id resource_type job_id g.bindings
      ≡ (some k, table)
    → c.request.settings.has_master_key ≡ true
    → provider_base_url c.providers c.request.scope.provider ≡ ok url
    → c.query_ok 0 ≡ true
    → usable c.request (find (is_pinned k g.world) g.world.keys) ≡ some key
    → (use_resource c method resource_type job_id path fallback_path g).1.world.requests
      ≡ (forward_with (sent c method path) (c.tries 0) g.world (some key)).1.requests
unfolding use_resource forward_with_fallback fall_back
use_resource_pinned c method resource_type job_id path g table k key url fallback_path first found
      master known asked there =
    rw found (
      client_answer-requests (record g { bindings = table })
        (fall_back c method fallback_path (some k) (call_upstream c 0 method path (some k) g.world))
      ∙ ap (λ o. o.1.requests)
          (fall_back_first c method fallback_path (some k)
            (call_upstream c 0 method path (some k) g.world) first)
      ∙ ap (λ o. o.1.requests)
          (call_upstream-pinned c 0 method path k key url g.world master known asked there))

-- When a resource was made with the key `k`, and was bound to it (the row was free, and was written),
-- a later request of the same client about the resource, while the binding lasts and the key is one
-- that is used, makes all its calls of the upstream with this key, at most as many as a request may
-- make. The request has no fallback path, or its first path is not answered by a 404 or 405.
pub use_resource-create_resource :
    (c later : Call) (method : String) (resource_type id job_id made_at path : Text)
    (fallback_path later_fallback_path : Option Text) (g : Gateway) (made : ForwardResult)
    (w w' : World) (k : ℕ) (key : ApiKey) (url : Text)
    → forward_with_fallback c "POST" made_at fallback_path none g.world ≡ (ok made, w)
    → made.api_key_id ≡ some k
    → extract_id_from_response c.id_of (to_fastapi_response made.upstream_response) ≡ some id
    → strip id ≢ []
    → strip job_id ≡ strip id
    → find_binding (stored_as w.client.id resource_type (strip id)) g.bindings ≡ none
    → c.binding.insert ≡ accepts
    → later.binding.query_ok ≡ true
    → is_expired later.binding.now (expiry c.binding.now c.ttl_seconds) ≡ false
    → w'.client.id ≡ w.client.id
    → later.request.settings.has_master_key ≡ true
    → provider_base_url later.providers later.request.scope.provider ≡ ok url
    → later.query_ok 0 ≡ true
    → usable later.request (find (is_pinned k w') w'.keys) ≡ some key
    → NeedsNoFallback later_fallback_path (call_upstream later 0 method path (some k) w')
    → let g1 = (create_resource c resource_type made_at fallback_path g).1 in
      let (_, g2) =
        use_resource later method resource_type job_id path later_fallback_path
          (record g1 { world = w' }) in
      (count : ℕ) × (keys_called g2.world.requests ≡ repeat count k (keys_called w'.requests))
      × (count ≤ attempts_for later.providers later.request.scope.provider)
use_resource-create_resource c later method resource_type id job_id made_at path fallback_path
      later_fallback_path g made w w' k key url forwarded by named present same free accepted asked
      lasts client master known query there first =
    let g' = record (create_resource c resource_type made_at fallback_path g).1 { world = w' } in
    let table =
      (bind_resource c.binding w.client.id k resource_type id c.ttl_seconds g.bindings).1 in
    let found : lookup_bound_key_id later.binding w'.client.id resource_type job_id g'.bindings
        ≡ (some k, table) =
      rw
        (
          client,
          create_resource_binds c resource_type id made_at fallback_path g made w k forwarded by
              named,
        )
        (lookup-bind c.binding later.binding w.client.id k resource_type id job_id c.ttl_seconds
          g.bindings present same free accepted asked lasts) in
    let end =
      forward_with-PinnedEnd (sent later method path) (later.tries 0) w' key (some_attempt later) in
    (
      end.count,
      ap keys_called (
            use_resource_pinned later method resource_type job_id path g' table k key url
              later_fallback_path first found master known query there)
          ∙ end.calls
          ∙ ap (λ i. repeat end.count i (keys_called w'.requests))
              (pinned-id later.request k key w' there),
      omega (arith, end.bounded),
    )
