-- ===== src/Idempotency/Tests.antt =====
-- The theorems on app/core/idempotency.py at a concrete request.
use firecrawl_manger.Prelude.{
  ◌≡◌, String, Option, ◌≢◌, refl, true, false, none, some, [], ◌∷◌, arith,
}
use firecrawl_manger.Prelude.Text.{text}
use firecrawl_manger.Models.{IdempotencyRecord, in_progress}
use firecrawl_manger.ResourceBinding.{accepts}
use firecrawl_manger.Idempotency.{
  Blob, Config, StoredResponse, Session, running, replayed, restart, start_or_replay, begin,
  complete, insert_record, cleanup_expired,
}
use firecrawl_manger.Idempotency.Replay.{begin-begin, begin-complete}
use firecrawl_manger.Idempotency.Once.{start_or_replay_ends}

abbrev config : Config
config = record { enabled = true; require_on = []; ttl_seconds = 60; max_response_bytes = 100 }

abbrev session : Session
session = record {
  now = 1_000;
  cleanup_ok = true;
  insert = accepts;
  new_id = 1;
  refresh_ok = true;
  query_ok = true;
  delete_ok = true;
}

abbrev stored_reply : StoredResponse
stored_reply = record { status_code = 200; headers = []; body = 1 ∷ 2 ∷ [] }

abbrev read : String → Option Blob
read _ = some ([], 1 ∷ 2 ∷ [])

abbrev write : Blob → String
write _ = "{}"

begin-begin_example :
    (begin config read session 1
      (some "k")
      (text "crawl")
      "h"
      (begin config read session 1 (some "k") (text "crawl") "h" []).1).0
    ≡ running
unfolding begin insert_record cleanup_expired
begin-begin_example =
    (begin-begin config read session session 1 "k" "h" "h" (text "crawl") (text "crawl") []
        (begin config read session 1 (some "k") (text "crawl") "h" []).1 1 refl (omega arith) refl
        (ground arith)).0
      refl

begin-complete_example :
    (begin config read session 1 (some "k") (text "crawl") "h" (
      complete config write true true
        (some 1)
        stored_reply
        (begin config read session 1 (some "k") (text "crawl") "h" []).1)).0
    ≡ replayed stored_reply
unfolding begin insert_record cleanup_expired
begin-complete_example =
    (begin-complete config read write session session 1 "k" "h" "h" (text "crawl") (text "crawl")
        stored_reply [] (begin config read session 1 (some "k") (text "crawl") "h" []).1 1 refl
        (omega arith) refl refl (omega arith) refl (ground arith)).0
      refl

-- The record of the key is over, and the cleanup before it failed.
abbrev over : IdempotencyRecord
over = record {
  id = 7;
  client_id = 1;
  idempotency_key = "k";
  request_hash = "h";
  status = in_progress;
  response_status_code = none;
  response_body = none;
  expires_at = some 5;
}

start_or_replay_ends_example :
    (start_or_replay 1 config read
      (λ i. record session { cleanup_ok = false; new_id = 8 })
      1
      (some "k")
      (text "crawl")
      "h"
      (over ∷ [])).0
    ≢ restart
start_or_replay_ends_example =
    start_or_replay_ends 0 config read (λ i. record session { cleanup_ok = false; new_id = 8 }) 1
      "k" "h" (text "crawl") (over ∷ []) (λ e. refl, tt)
