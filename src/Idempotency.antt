-- ===== src/Idempotency.antt =====
-- app/core/idempotency.py: a request with an idempotency key is handled once, and its answer is given
-- again to the requests that repeat it. The hash of a request and the text that a response is stored
-- as are made by libraries, so they are arguments.
pub mod Laws
pub mod Replay
pub mod Free
pub mod Once
mod Tests
use firecrawl_manger.Prelude.{
  ℕ, zero, suc, ◌+◌, ◌*◌, max, String, Bool, true, false, not, ◌&&◌, ◌||◌, Option, none, some, List,
  [], ◌∷◌, ◌++◌, map, any, filter, find, length, ltb, ◌==◌, nat_equality, string_equality,
  if◌then◌else◌,
}
use firecrawl_manger.Prelude.Text.{Text, text_equality, strip}
use firecrawl_manger.Errors.{
  Result, ok, err, FcamError, error, db_unavailable, database_unavailable, request_too_large,
  idempotency_key_required, idempotency_key_conflict, idempotency_in_progress,
}
use firecrawl_manger.Models.{IdempotencyRecord, RecordStatus, in_progress, completed}
use firecrawl_manger.ResourceBinding.{Answer, accepts, violated, fails}

abbrev pub Records : Type 0
Records = List IdempotencyRecord

pub record Config : Type 0 where
  pub enabled : Bool
  pub require_on : List Text
  pub ttl_seconds : ℕ
  pub max_response_bytes : ℕ

-- `fastapi.responses.Response`
pub record StoredResponse : Type 0 where
  pub status_code : ℕ
  pub headers : List (Text × Text)
  pub body : List ℕ

-- The document that is stored: the headers and the body.
abbrev pub Blob : Type 0
Blob = List (Text × Text) × List ℕ

-- `_serialize_response`
unfoldable pub serialize_response : (Blob → String) → StoredResponse → ℕ → Result (ℕ × String)
serialize_response dumps response max_bytes =
    if ltb max_bytes (length response.body)
    then err (error 413 request_too_large "Response too large to store")
    else ok (response.status_code, dumps (response.headers, response.body))

-- `_deserialize_response`, where `loads` has nothing for a text that is no such document.
unfoldable pub deserialize_response : (String → Option Blob) → ℕ → String → Result StoredResponse
deserialize_response loads status_code response_body = elim (loads response_body) [
  | none ↦ err (error 503 db_unavailable "Invalid idempotency record")
  | some (headers, body) ↦ ok (record { status_code = status_code; headers = headers; body = body })
]

-- What one call meets: the clock, the database's answers to the cleanup, the insert, the refresh, the
-- query and the deletion, and the id that it gives a new row.
pub record Session : Type 0 where
  pub now : ℕ
  pub cleanup_ok : Bool
  pub insert : Answer
  pub new_id : ℕ
  pub refresh_ok : Bool
  pub query_ok : Bool
  pub delete_ok : Bool

-- What a call comes to: `(None, None)`, a context, a response, an `FcamError`, the exception of a
-- query, or the same call once more.
pub data Begun : Type 0 where
  skipped crashed restart : Begun
  started : ℕ → Begun
  replayed : StoredResponse → Begun
  refused : FcamError → Begun

abbrev pub is_over : ℕ → Option ℕ → Bool
is_over now none = false
is_over now (some expires_at) = ltb expires_at now

-- `_cleanup_expired`
unfoldable pub cleanup_expired : Session → ℕ → Records → Records
cleanup_expired s client_id table =
    if s.cleanup_ok
    then filter (λ r. not (r.client_id == client_id && is_over s.now r.expires_at)) table
    else table

abbrev pub has_key : ℕ → String → IdempotencyRecord → Bool
has_key client_id key r = r.client_id == client_id && r.idempotency_key == key

abbrev pub find_record : ℕ → String → Records → Option IdempotencyRecord
find_record client_id key table = find (has_key client_id key) table

abbrev replay : Result StoredResponse → Begun
replay (ok response) = replayed response
replay (err e) = refused e

abbrev pub running : Begun
running = refused (record {
  status_code = 409;
  code = idempotency_in_progress;
  message = "Idempotent request in progress";
  retry_after = some 1;
})

-- The answer of a record that is completed, with a status and a text that is not empty.
abbrev pub stored_answer : (String → Option Blob) → RecordStatus → Option ℕ → Option String → Begun
stored_answer loads completed (some status_code) (some response_body) =
    if response_body == ""
    then running
    else replay (deserialize_response loads status_code response_body)
stored_answer loads _ _ _ = running

-- The row that holds the key already.
unfoldable pub meet_record :
    (String → Option Blob) → Session → String → IdempotencyRecord → Records → Begun × Records
unfolding deserialize_response
meet_record loads s request_hash existing table =
    if is_over s.now existing.expires_at
    then (if s.delete_ok
        then (restart, filter (λ r. not (r.id == existing.id)) table)
        else (refused database_unavailable, table))
    else if existing.request_hash == request_hash
    then (
      stored_answer loads existing.status existing.response_status_code existing.response_body,
      table,
    )
    else (refused (error 409 idempotency_key_conflict "Idempotency key conflict"), table)

-- `except IntegrityError: …`
unfoldable pub on_taken :
    (String → Option Blob) → Session → ℕ → String → String → Records → Begun × Records
unfolding meet_record
on_taken loads s client_id key request_hash table =
    if not s.query_ok then (crashed, table) else (elim (find_record client_id key table) [
      | none ↦ (refused database_unavailable, table)
      | some existing ↦ meet_record loads s request_hash existing table
    ])

abbrev pub new_record : Config → Session → ℕ → String → String → IdempotencyRecord
new_record config s client_id key request_hash = record {
  id = s.new_id;
  client_id = client_id;
  idempotency_key = key;
  request_hash = request_hash;
  status = in_progress;
  response_status_code = none;
  response_body = none;
  expires_at = some (s.now + max config.ttl_seconds 1 * 1_000_000);
}

-- The insert, which the unique constraint refuses where the client has the key already.
unfoldable pub insert_record :
    Config → (String → Option Blob) → Session → ℕ → String → String → Records → Begun × Records
unfolding on_taken
insert_record config loads s client_id key request_hash table = elim s.insert [
  | fails ↦ (refused database_unavailable, table)
  | violated ↦ on_taken loads s client_id key request_hash table
  | accepts ↦ elim (find_record client_id key table) [
    | some _ ↦ on_taken loads s client_id key request_hash table
    | none ↦ (
      if s.refresh_ok then started s.new_id else refused database_unavailable,
      table ++ (new_record config s client_id key request_hash ∷ []),
    )
  ]
]

abbrev is_required : Config → Text → Bool
is_required config endpoint =
    any (λ e. not (strip e == []) && strip e == endpoint) config.require_on

abbrev given : Option String → Option String
given none = none
given (some key) = if key == "" then none else some key

-- `start_or_replay`, up to its call of itself after it deleted a record (`restart`).
unfoldable pub begin :
    Config
    → (String → Option Blob)
    → Session
    → ℕ
    → Option String
    → Text
    → String
    → Records
    → Begun × Records
unfolding cleanup_expired insert_record strip
begin config loads s client_id idempotency_key endpoint request_hash table =
    if not config.enabled then (skipped, table) else (elim (given idempotency_key) [
      | none ↦ (
        if is_required config endpoint
            then refused (error 400 idempotency_key_required "Idempotency key required")
            else skipped,
        table,
      )
      | some key ↦
          insert_record config loads s client_id key request_hash
            (cleanup_expired s client_id table)
    ])

abbrev pub again_if : Begun × Records → (Records → Begun × Records) → Begun × Records
again_if (restart, table) again = again table
again_if (begun, table) again = (begun, table)

-- `start_or_replay` with `depth` calls of itself left; each call meets its own session.
unfoldable pub start_or_replay :
    ℕ
    → Config
    → (String → Option Blob)
    → (ℕ → Session)
    → ℕ
    → Option String
    → Text
    → String
    → Records
    → Begun × Records
unfolding begin
start_or_replay zero config loads sessions client_id idempotency_key endpoint request_hash table =
    begin config loads (sessions 0) client_id idempotency_key endpoint request_hash table
start_or_replay (suc depth) config loads sessions client_id idempotency_key endpoint request_hash
      table =
    again_if
      (begin config loads (sessions (suc depth)) client_id idempotency_key endpoint request_hash
        table)
      (start_or_replay depth config loads sessions client_id idempotency_key endpoint request_hash)

-- `complete`, with the answers to the query and to the commit.
unfoldable pub complete :
    Config → (Blob → String) → Bool → Bool → Option ℕ → StoredResponse → Records → Records
unfolding serialize_response
complete config dumps query_ok commit_ok none response table = table
complete config dumps query_ok commit_ok (some record_id) response table =
    if config.enabled && query_ok && commit_ok
    then (elim (serialize_response dumps response (max config.max_response_bytes 1)) [
      | err e ↦ table
      | ok (status_code, body) ↦
          map
            (λ r.
              if r.id == record_id
              then record r {
                status = completed;
                response_status_code = some status_code;
                response_body = some body;
              }
              else r)
            table
    ])
    else table
