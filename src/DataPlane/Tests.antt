-- ===== src/DataPlane/Tests.antt =====
-- The theorems on the routes of app/api/firecrawl_v2_compat.py at concrete requests.
use firecrawl_manger.Prelude.{ℕ, ◌≤◌, ◌≡◌, refl, true, some, none, [], ◌∷◌, arith}
use firecrawl_manger.Prelude.Text.{text, strip}
use firecrawl_manger.Errors.{ok}
use firecrawl_manger.ResourceBinding.{accepts, stored_as, bind_resource, insert_binding}
use firecrawl_manger.Models.{ApiKey}
use firecrawl_manger.Forwarder.{Response, response, Try, World}
use firecrawl_manger.Forwarder.Answer.{ForwardResult}
use firecrawl_manger.Forwarder.Providers.{attempts_for, response_headers}
use firecrawl_manger.Forwarder.Pinned.Attempts.{repeat, keys_called}
use firecrawl_manger.Forwarder.Tests.{key, tries, request, providers, world}
use firecrawl_manger.Idempotency.{
  Records, StoredResponse, start_or_replay, complete, serialize_response, started, begin,
  insert_record, cleanup_expired,
}
use firecrawl_manger.DataPlane.{
  Call, Once, Gateway, responds, create_resource, create_once, use_resource, forward_with_fallback,
  fall_back, call_upstream, extract_id_from_response, to_fastapi_response, when_begun,
  maybe_bind_created_resource,
}
use firecrawl_manger.DataPlane.Jobs.{NeedsNoFallback, use_resource-create_resource}
use firecrawl_manger.DataPlane.Replays.{create_once-create_once}
use firecrawl_manger.Forwarder.Pinned.{
  forward, forward_to, forward_with, pinned_loop, pinned_attempt, pinned_rate, pinned_slot,
  pinned_lease, pinned_reply, pinned_response,
}
use firecrawl_manger.Forwarder.Providers.{provider_base_url, attempts_for, provider_max_retries}
use firecrawl_manger.Forwarder.Loop.{
  forward_unpinned, loop, try_once, try_key, acquire_key, with_lease, take_reply,
}
use firecrawl_manger.KeyPool.Select.{select, select_from, scan, finish_select, count_visit}
use firecrawl_manger.KeyPool.{
  visit, check_cooldown, check_quota, cooldown_remaining_seconds, is_disabled, reset_day,
}
use firecrawl_manger.RateLimit.{allow, take_token}
use firecrawl_manger.Concurrency.{try_acquire, release, release_key}
use firecrawl_manger.Forwarder.Answer.{handle_response, account}
use firecrawl_manger.Forwarder.{consume_quota_on_success, estimate}

-- The upstream makes a job at once.
abbrev made : Response
made = record {
  status_code = 200;
  retry_after = none;
  json = none;
  headers = (text "content-type", text "application/json") ∷ [];
  content = 1 ∷ [];
}

abbrev answers : ℕ → Try
answers i = record (tries true i) { reply = λ _. response made }

abbrev row : ApiKey
row = record key { client_id = some 1 }

abbrev owned : World
owned = record world { keys = row ∷ [] }

abbrev call : Call
call = record {
  path = text "/v2/crawl";
  query = [];
  providers = providers;
  request = record request { scope = record { client = some 1; provider = "firecrawl" } };
  query_ok = λ _. true;
  tries = λ _. answers;
  id_of = λ _. some (text "a1");
  binding = record { now = 1_000; insert = accepts; query_ok = true; commit_ok = true };
  ttl_seconds = some 60;
}

abbrev gateway : Gateway
gateway = record { world = owned; records = []; bindings = [] }

abbrev result : ForwardResult
result = record {
  upstream_response = made;
  upstream_status_code = some 200;
  api_key_id = some 1;
  retry_count = 0;
}

abbrev after : World
unfolding forward_with_fallback
after = (forward_with_fallback call "POST" (text "/v2/crawl") none none owned).1

forwarded :
    forward_with_fallback call "POST" (text "/v2/crawl") none none owned ≡ (ok result, after)
unfolding forward forward_to provider_base_url attempts_for provider_max_retries forward_unpinned
    loop try_once try_key acquire_key with_lease take_reply select select_from scan finish_select
    count_visit visit check_cooldown check_quota cooldown_remaining_seconds is_disabled reset_day
    allow take_token try_acquire release release_key handle_response account
    consume_quota_on_success estimate call_upstream fall_back forward_with_fallback after
forwarded = refl

client-same : 1 ≡ after.client.id
unfolding forward forward_to provider_base_url attempts_for provider_max_retries forward_unpinned
    loop try_once try_key acquire_key with_lease take_reply select select_from scan finish_select
    count_visit visit check_cooldown check_quota cooldown_remaining_seconds is_disabled reset_day
    allow take_token try_acquire release release_key handle_response account
    consume_quota_on_success estimate call_upstream fall_back forward_with_fallback after
client-same = refl

-- The first path of the job's status is known.
known_path :
    NeedsNoFallback
      (some (text "/v2/crawl/status/a1"))
      (call_upstream call 0 "GET" (text "/v2/crawl/a1") (some 1) owned)
unfolding call_upstream forward forward_to provider_base_url attempts_for provider_max_retries
    forward_with pinned_loop pinned_attempt pinned_rate pinned_slot pinned_lease pinned_reply
    pinned_response account consume_quota_on_success estimate allow take_token try_acquire release
    release_key is_disabled
known_path = ((λ e. ground arith), λ e. ground arith)

use_resource-create_resource_example :
    let g1 = (create_resource call (text "crawl") (text "/v2/crawl") none gateway).1 in
    let (_, g2) =
      use_resource call "GET"
        (text "crawl")
        (text " a1")
        (text "/v2/crawl/a1")
        (some (text "/v2/crawl/status/a1"))
        (record g1 { world = owned }) in
    (count : ℕ) × (keys_called g2.world.requests ≡ repeat count 1 [])
    × (count ≤ attempts_for providers "firecrawl")
unfolding extract_id_from_response to_fastapi_response response_headers strip provider_base_url
    is_disabled
use_resource-create_resource_example =
    use_resource-create_resource call call "GET" (text "crawl") (text "a1") (text " a1")
      (text "/v2/crawl") (text "/v2/crawl/a1") none (some (text "/v2/crawl/status/a1")) gateway
      result after owned 1 row (text "https://api.firecrawl.dev") forwarded refl refl
      (λ e. ground arith) refl refl refl refl refl client-same refl refl refl refl known_path

abbrev stored : StoredResponse
unfolding to_fastapi_response response_headers
stored = to_fastapi_response made

abbrev once : Once
once = record {
  config = record { enabled = true; require_on = []; ttl_seconds = 60; max_response_bytes = 100 };
  loads = λ _. some (stored.headers, stored.body);
  dumps = λ _. "{}";
  depth = 1;
  sessions = λ i. record {
    now = 1_000;
    cleanup_ok = true;
    insert = accepts;
    new_id = 1;
    refresh_ok = true;
    query_ok = true;
    delete_ok = true;
  };
  idempotency_key = some "k";
  request_hash = "h";
  complete_query_ok = true;
  complete_commit_ok = true;
}

abbrev started_table : Records
unfolding begin
started_table =
    (begin once.config once.loads (once.sessions 1) 1 (some "k") (text "crawl") "h" []).1

begun :
    begin once.config once.loads (once.sessions 1) 1 (some "k") (text "crawl") "h" []
    ≡ (started 1, started_table)
unfolding begin insert_record cleanup_expired started_table
begun = refl

abbrev after_answer : Gateway
unfolding create_once
after_answer =
    (create_once once call (text "crawl") (text "crawl") (text "/v2/crawl") none gateway).1

responded :
    create_once once call (text "crawl") (text "crawl") (text "/v2/crawl") none gateway
    ≡ (responds stored, after_answer)
unfolding after_answer stored create_once create_resource start_or_replay when_begun begin
    insert_record cleanup_expired to_fastapi_response response_headers complete serialize_response
    extract_id_from_response bind_resource insert_binding strip stored_as
    maybe_bind_created_resource forward forward_to provider_base_url attempts_for
    provider_max_retries forward_unpinned loop try_once try_key acquire_key with_lease take_reply
    select select_from scan finish_select count_visit visit check_cooldown check_quota
    cooldown_remaining_seconds is_disabled reset_day allow take_token try_acquire release
    release_key handle_response account consume_quota_on_success estimate call_upstream fall_back
    forward_with_fallback
responded = refl

create_once-create_once_example :
    let (again, g2) =
      create_once once call
        (text "crawl")
        (text "crawl")
        (text "/v2/crawl")
        none
        (record after_answer { world = owned }) in
    (again ≡ responds stored) × (g2.world ≡ owned) × (g2.bindings ≡ after_answer.bindings)
unfolding stored
create_once-create_once_example =
    create_once-create_once once call call (text "crawl") (text "crawl") (text "/v2/crawl")
      (text "/v2/crawl") none none gateway after_answer "k" 1 started_table stored once.sessions 1
      owned refl begun responded refl refl (omega arith) refl refl (omega arith) refl
      (λ e. ground arith) refl
