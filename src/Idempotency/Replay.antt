-- ===== src/Idempotency/Replay.antt =====
-- What a request that repeats an idempotency key gets from app/core/idempotency.py.
use firecrawl_manger.Prelude.{
  ℕ, ◌≤◌, ◌≡◌, ◌≢◌, refl, ap, ◌∙◌, String, true, false, Option, some, ◌+◌, ◌*◌, arith, length, max,
  find-map, nat_equality, string_equality, ge→ltb, ==-refl, ◌==◌,
}
use mathlib.Core.Option as Option
use firecrawl_manger.Prelude.Text.{Text}
use firecrawl_manger.Errors.{error, idempotency_key_conflict}
use firecrawl_manger.Models.{IdempotencyRecord, completed}
use firecrawl_manger.ResourceBinding.{fails}
use firecrawl_manger.Idempotency.{
  Config, StoredResponse, Blob, Session, Begun, Records, started, replayed, refused, running,
  stored_answer, is_over, find_record, has_key, meet_record, new_record, begin, complete,
  serialize_response, deserialize_response,
}
use firecrawl_manger.Idempotency.Laws.{begin-Meets, begin_starts}

abbrev pub conflict : Begun
conflict = refused (error 409 idempotency_key_conflict "Idempotency key conflict")

-- The end of the lifetime that a record made in the session has.
abbrev pub lifetime : Config → Session → ℕ
lifetime config s = s.now + max config.ttl_seconds 1 * 1_000_000

meet_conflict :
    (loads : String → Option Blob) (s : Session) (hash : String) (r : IdempotencyRecord)
    (table : Records)
    → is_over s.now r.expires_at ≡ false
    → r.request_hash ≢ hash
    → (meet_record loads s hash r table).0 ≡ conflict
unfolding meet_record
meet_conflict loads s hash r table lasts differ =
    rw lasts (ground (arith, string_equality.test_iff r.request_hash hash))

meet_same :
    (loads : String → Option Blob) (s : Session) (hash : String) (r : IdempotencyRecord)
    (table : Records)
    → is_over s.now r.expires_at ≡ false
    → r.request_hash ≡ hash
    → (meet_record loads s hash r table).0
      ≡ stored_answer loads r.status r.response_status_code r.response_body
unfolding meet_record
meet_same loads s hash r table lasts same = rw (lasts, same, ==-refl hash) refl

-- While a request that began is not completed, none that repeats its key within the lifetime of the
-- record begins: the same request is told that it is in progress, and another one of a conflict.
pub begin-begin :
    (config : Config) (loads : String → Option Blob) (s later : Session) (client_id : ℕ)
    (key hash hash' : String) (endpoint endpoint' : Text) (table table1 : Records) (id : ℕ)
    → begin config loads s client_id (some key) endpoint hash table ≡ (started id, table1)
    → later.now ≤ lifetime config s
    → later.query_ok ≡ true
    → later.insert ≢ fails
    → let again = begin config loads later client_id (some key) endpoint' hash' table1 in
      (hash ≡ hash' → again.0 ≡ running) × (hash ≢ hash' → again.0 ≡ conflict)
begin-begin config loads s later client_id key hash hash' endpoint endpoint' table table1 id h lasts
      asked writes =
    let (on, named, id_is, there) =
      begin_starts config loads s client_id key hash endpoint table table1 id h in
    let row = new_record config s client_id key hash in
    let over : is_over later.now row.expires_at ≡ false =
      ge→ltb (lifetime config s) later.now lasts in
    let met =
      begin-Meets config loads later client_id key hash' endpoint' row table1 on
        (record { named = named; there = there; lasts = over; asked = asked; writes = writes }) in
    (
      λ same. ap (λ o. o.0) met ∙ meet_same loads later hash' row _ over same,
      λ differ. ap (λ o. o.0) met ∙ meet_conflict loads later hash' row _ over differ,
    )

complete_found :
    (config : Config) (dumps : Blob → String) (client_id : ℕ) (key : String)
    (response : StoredResponse) (r : IdempotencyRecord) (table : Records)
    → config.enabled ≡ true
    → length response.body ≤ max config.max_response_bytes 1
    → find_record client_id key table ≡ some r
    → find_record client_id key (complete config dumps true true (some r.id) response table)
      ≡ some (record r {
        status = completed;
        response_status_code = some response.status_code;
        response_body = some (dumps (response.headers, response.body));
      })
unfolding complete serialize_response
complete_found config dumps client_id key response r table on fits there =
    rw (on, ge→ltb (max config.max_response_bytes 1) (length response.body) fits)
      (find-map (has_key client_id key) _ (λ c. ground arith) table
        ∙ ap (Option.map _) there
        ∙ rw (==-refl r.id) refl)

read_back :
    (loads : String → Option Blob) (dumps : Blob → String) (response : StoredResponse)
    → (dumps (response.headers, response.body) == "") ≡ false
    → loads (dumps (response.headers, response.body)) ≡ some (response.headers, response.body)
    → stored_answer loads completed
        (some response.status_code)
        (some (dumps (response.headers, response.body)))
      ≡ replayed response
unfolding deserialize_response
read_back loads dumps response text_there reads = rw (text_there, deserialize_response, reads) refl

-- A request that was completed with a response that is not too large, and that the database stored,
-- is answered with this response whenever it is repeated within the lifetime of its record, if the
-- stored text is read back as what was written; another request with its key gets a conflict.
pub begin-complete :
    (config : Config) (loads : String → Option Blob) (dumps : Blob → String) (s later : Session)
    (client_id : ℕ) (key hash hash' : String) (endpoint endpoint' : Text)
    (response : StoredResponse) (table table1 : Records) (id : ℕ)
    → begin config loads s client_id (some key) endpoint hash table ≡ (started id, table1)
    → length response.body ≤ max config.max_response_bytes 1
    → loads (dumps (response.headers, response.body)) ≡ some (response.headers, response.body)
    → (dumps (response.headers, response.body) == "") ≡ false
    → later.now ≤ lifetime config s
    → later.query_ok ≡ true
    → later.insert ≢ fails
    → let table2 = complete config dumps true true (some id) response table1 in
      let again = begin config loads later client_id (some key) endpoint' hash' table2 in
      (hash ≡ hash' → again.0 ≡ replayed response) × (hash ≢ hash' → again.0 ≡ conflict)
begin-complete config loads dumps s later client_id key hash hash' endpoint endpoint' response table
      table1 id h fits reads text_there lasts asked writes =
    let (on, named, id_is, there) =
      begin_starts config loads s client_id key hash endpoint table table1 id h in
    let row = new_record config s client_id key hash in
    let done : IdempotencyRecord = record row {
      status = completed;
      response_status_code = some response.status_code;
      response_body = some (dumps (response.headers, response.body));
    } in
    let table2 = complete config dumps true true (some id) response table1 in
    let stored : find_record client_id key table2 ≡ some done =
      rw id_is (complete_found config dumps client_id key response row table1 on fits there) in
    let over : is_over later.now done.expires_at ≡ false =
      ge→ltb (lifetime config s) later.now lasts in
    let met =
      begin-Meets config loads later client_id key hash' endpoint' done table2 on
        (record { named = named; there = stored; lasts = over; asked = asked; writes = writes }) in
    (
      λ same.
          ap (λ o. o.0) met
          ∙ meet_same loads later hash' done _ over same
          ∙ read_back loads dumps response text_there reads,
      λ differ. ap (λ o. o.0) met ∙ meet_conflict loads later hash' done _ over differ,
    )
