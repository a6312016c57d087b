-- ===== src/DataPlane.antt =====
-- app/api/firecrawl_v2_compat.py: how a route calls the forwarder, once or twice, and what it does
-- before and after. What is written to `request.state` is only logged, except the id of the key, which
-- is passed on here.
pub mod Jobs
pub mod Replays
pub mod V2
pub mod V1
pub mod Exa
mod Tests
use firecrawl_manger.Prelude.{
  ℕ, String, Bool, ◌||◌, not, Option, none, some, List, [], ◌∷◌, ◌++◌, find, drop, ltb, leb, ◌==◌,
  nat_equality, string_equality, if◌then◌else◌,
}
use firecrawl_manger.Prelude.Text.{Text, text, text_equality, lower, strip, starts_with, occurs_in}
use firecrawl_manger.Errors.{ok, err, FcamError}
use firecrawl_manger.Idempotency.{
  Records, Config, Blob, StoredResponse, Begun, skipped, crashed, restart, started, replayed,
  refused, start_or_replay, complete,
}
use firecrawl_manger.Idempotency as Idempotency
use firecrawl_manger.ResourceBinding.{Bindings, bind_resource, lookup_bound_key_id}
use firecrawl_manger.ResourceBinding as ResourceBinding
use firecrawl_manger.Forwarder.{Response, Try, World}
use firecrawl_manger.Forwarder.Answer.{Request}
use firecrawl_manger.Forwarder.Loop.{Outcome}
use firecrawl_manger.Forwarder.Providers.{Providers, response_headers}
use firecrawl_manger.Forwarder.Pinned.{forward}

-- `fastapi.Request` and what its calls meet: the query of the url, the settings of the forwarder, and
-- for each of its calls the answer to the query for the pinned key and the tries; `id_of` is the text
-- that `json.loads` of a body has as its `id`.
pub record Call : Type 0 where
  pub path : Text
  pub query : Text
  pub providers : Providers
  pub request : Request
  pub query_ok : ℕ → Bool
  pub tries : ℕ → ℕ → Try
  pub id_of : List ℕ → Option Text
  pub binding : ResourceBinding.Session
  pub ttl_seconds : Option ℕ

-- What a request with an idempotency key meets besides.
pub record Once : Type 0 where
  pub config : Config
  pub loads : String → Option Blob
  pub dumps : Blob → String
  pub depth : ℕ
  pub sessions : ℕ → Idempotency.Session
  pub idempotency_key : Option String
  pub request_hash : String
  pub complete_query_ok : Bool
  pub complete_commit_ok : Bool

-- The gateway's state, which every route works on.
pub record Gateway : Type 0 where
  pub world : World
  pub records : Records
  pub bindings : Bindings

-- How a route ends: with a response, an `FcamError`, or another exception.
pub data Answered : Type 0 where
  responds : StoredResponse → Answered
  rejects : FcamError → Answered
  crashes : Answered

-- `_with_query`
abbrev pub with_query : Call → Text → Text
with_query c path = if c.query == [] then path else path ++ (b'?' ∷ c.query)

-- `_path_and_query`
abbrev pub path_and_query : Call → Text
path_and_query c = with_query c c.path

-- `_upstream_path` of the routes for exa.
abbrev pub exa_path : Call → Text
exa_path c =
    with_query c (rooted (if starts_with (text "/exa") c.path then drop 4 c.path else c.path))
  where
    rooted : Text → Text
    rooted path = if starts_with (text "/") path then path else text "/" ++ path

-- `provider=_PROVIDER`; the other routes leave it at the default of `forward`, "firecrawl".
abbrev pub for_exa : Call → Call
for_exa c = record c {
  request = record c.request { scope = record c.request.scope { provider = "exa" } };
}

-- `_to_fastapi_response`
unfoldable pub to_fastapi_response : Response → StoredResponse
to_fastapi_response upstream = record {
  status_code = upstream.status_code;
  headers = response_headers upstream.headers;
  body = upstream.content;
}

-- `headers.get`, where the case of a name does not matter.
abbrev pub header : Text → List (Text × Text) → Text
header name headers = elim (find (λ h. lower h.0 == name) headers) [ none ↦ [] | some h ↦ h.1 ]

-- `_extract_id_from_response`
unfoldable pub extract_id_from_response : (List ℕ → Option Text) → StoredResponse → Option Text
extract_id_from_response id_of response =
    if ltb response.status_code 200 || leb 300 response.status_code
    then none
    else if not (
        occurs_in (text "application/json") (lower (header (text "content-type") response.headers)))
    then none
    else if response.body == []
    then none
    else elim (id_of response.body) [
      | none ↦ none
      | some id ↦ if strip id == [] then none else some (strip id)
    ]

-- `_maybe_bind_created_resource`: the exception of `bind_resource` is only logged.
unfoldable pub maybe_bind_created_resource :
    Call → ℕ → Option ℕ → Text → StoredResponse → Bindings → Bindings
unfolding extract_id_from_response bind_resource
maybe_bind_created_resource c client_id none resource_type response table = table
maybe_bind_created_resource c client_id (some api_key_id) resource_type response table =
    elim (extract_id_from_response c.id_of response) [
      | none ↦ table
      | some resource_id ↦
          (bind_resource c.binding client_id api_key_id resource_type resource_id c.ttl_seconds
            table).1
    ]

-- Call number `i` of `Forwarder.forward`.
unfoldable pub call_upstream : Call → ℕ → String → Text → Option ℕ → World → Outcome
call_upstream c i method upstream_path pinned_api_key_id w =
    forward c.providers
      (record c.request { is_get = method == "GET"; upstream_path = upstream_path })
      pinned_api_key_id (c.query_ok i) (c.tries i) w

-- The second call, where the upstream does not know the first path.
unfoldable pub fall_back : Call → String → Option Text → Option ℕ → Outcome → Outcome
unfolding call_upstream
fall_back c method none pinned_api_key_id first = first
fall_back c method (some fallback_path) pinned_api_key_id (err e, w) = (err e, w)
fall_back c method (some fallback_path) pinned_api_key_id (ok result, w) =
    if result.upstream_response.status_code == 404 || result.upstream_response.status_code == 405
    then call_upstream c 1 method fallback_path pinned_api_key_id w
    else (ok result, w)

-- `_forward_with_fallback`
unfoldable pub forward_with_fallback :
    Call → String → Text → Option Text → Option ℕ → World → Outcome
unfolding call_upstream fall_back
forward_with_fallback c method primary_path fallback_path pinned_api_key_id w =
    fall_back c method fallback_path pinned_api_key_id
      (call_upstream c 0 method primary_path pinned_api_key_id w)

-- The response of a route that only forwards.
abbrev pub client_answer : Gateway → Outcome → Answered × Gateway
client_answer g (err e, w) = (rejects e, record g { world = w })
client_answer g (ok result, w) =
    (responds (to_fastapi_response result.upstream_response), record g { world = w })

-- A route that only forwards.
unfoldable pub plain : Call → String → Text → Gateway → Answered × Gateway
unfolding forward_with_fallback
plain c method path g = client_answer g (forward_with_fallback c method path none none g.world)

-- A route that makes a resource: the key that made it is bound to it.
abbrev pub bind_answer : Call → Text → Gateway → Outcome → Answered × Gateway
bind_answer c resource_type g (err e, w) = (rejects e, record g { world = w })
bind_answer c resource_type g (ok result, w) =
    let response : StoredResponse = to_fastapi_response result.upstream_response in
    (
      responds response,
      record g {
        world = w;
        bindings =
            maybe_bind_created_resource c w.client.id result.api_key_id resource_type response
              g.bindings;
      },
    )

unfoldable pub create_resource : Call → Text → Text → Option Text → Gateway → Answered × Gateway
unfolding forward_with_fallback maybe_bind_created_resource to_fastapi_response
create_resource c resource_type primary_path fallback_path g =
    bind_answer c resource_type g
      (forward_with_fallback c "POST" primary_path fallback_path none g.world)

-- A route about a resource: it is forwarded with the key that the resource is bound to.
unfoldable pub use_resource :
    Call → String → Text → Text → Text → Option Text → Gateway → Answered × Gateway
unfolding forward_with_fallback lookup_bound_key_id
use_resource c method resource_type resource_id primary_path fallback_path g =
    let (pinned_api_key_id, bindings) =
      lookup_bound_key_id c.binding g.world.client.id resource_type resource_id g.bindings in
    client_answer (record g { bindings = bindings })
      (forward_with_fallback c method primary_path fallback_path pinned_api_key_id g.world)

-- `idempotency_complete`, after the response.
abbrev pub store_answer : Once → Option ℕ → Answered × Gateway → Answered × Gateway
store_answer o ctx (responds response, g) = (
  responds response,
  record g {
    records =
        complete o.config o.dumps o.complete_query_ok o.complete_commit_ok ctx response g.records;
  },
)
store_answer o ctx (rejects e, g) = (rejects e, g)
store_answer o ctx (crashes, g) = (crashes, g)

-- What a route does when `start_or_replay` has ended.
unfoldable pub when_begun :
    Once → (Gateway → Answered × Gateway) → Begun × Records → Gateway → Answered × Gateway
unfolding complete
when_begun o create (replayed response, records) g =
    (responds response, record g { records = records })
when_begun o create (refused e, records) g = (rejects e, record g { records = records })
when_begun o create (crashed, records) g = (crashes, record g { records = records })
when_begun o create (restart, records) g = (crashes, record g { records = records })
when_begun o create (skipped, records) g =
    store_answer o none (create (record g { records = records }))
when_begun o create (started id, records) g =
    store_answer o (some id) (create (record g { records = records }))

-- A route that makes a resource once for each idempotency key.
unfoldable pub create_once :
    Once → Call → Text → Text → Text → Option Text → Gateway → Answered × Gateway
unfolding create_resource start_or_replay when_begun
create_once o c endpoint resource_type primary_path fallback_path g =
    when_begun o (create_resource c resource_type primary_path fallback_path)
      (start_or_replay o.depth o.config o.loads o.sessions g.world.client.id o.idempotency_key
        endpoint o.request_hash g.records)
      g

-- A route of the older versions that is forwarded once for each idempotency key.
unfoldable pub forward_once : Once → Call → Text → Text → Option Text → Gateway → Answered × Gateway
unfolding forward_with_fallback start_or_replay when_begun
forward_once o c endpoint primary_path fallback_path g =
    when_begun o
      (λ g'.
        client_answer g' (forward_with_fallback c "POST" primary_path fallback_path none g'.world))
      (start_or_replay o.depth o.config o.loads o.sessions g.world.client.id o.idempotency_key
        endpoint o.request_hash g.records)
      g
