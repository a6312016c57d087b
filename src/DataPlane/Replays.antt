-- ===== src/DataPlane/Replays.antt =====
-- Requests that repeat an idempotency key, through the routes of app/api/firecrawl_v2_compat.py.
use firecrawl_manger.Prelude.{
  ℕ, zero, suc, ◌≤◌, ◌≡◌, ◌≢◌, refl, ap, sym, ◌∙◌, String, true, false, Option, none, some, arith,
  length, max, ◌==◌, string_equality,
}
use firecrawl_manger.Prelude.Text.{Text}
use firecrawl_manger.ResourceBinding.{fails}
use firecrawl_manger.Errors.{ok, err}
use firecrawl_manger.Forwarder.{World}
use firecrawl_manger.Forwarder.Loop.{Outcome}
use firecrawl_manger.Idempotency.{
  Config, Blob, Session, StoredResponse, Begun, Records, restart, started, replayed, begin,
  start_or_replay, complete,
}
use firecrawl_manger.Idempotency.Replay.{lifetime, begin-complete}
use firecrawl_manger.DataPlane.{
  Call, Once, Gateway, Answered, responds, rejects, crashes, store_answer, create_resource,
  create_once, forward_with_fallback, bind_answer, when_begun,
}

-- What a call ends with that does not call itself.
start_or_replay_once :
    (depth : ℕ) (config : Config) (loads : String → Option Blob) (sessions : ℕ → Session)
    (client_id : ℕ) (key : Option String) (endpoint : Text) (hash : String) (table : Records)
    (begun : Begun) (table1 : Records)
    → begun ≢ restart
    → begin config loads (sessions depth) client_id key endpoint hash table ≡ (begun, table1)
    → start_or_replay depth config loads sessions client_id key endpoint hash table
      ≡ (begun, table1)
unfolding start_or_replay
start_or_replay_once zero config loads sessions client_id key endpoint hash table begun table1 ends
      h =
    h
start_or_replay_once (suc depth) config loads sessions client_id key endpoint hash table begun
      table1 ends h =
    rw h (ground (arith, ends))

create_resource-records :
    (c : Call) (resource_type primary_path : Text) (fallback_path : Option Text) (g : Gateway)
    → (create_resource c resource_type primary_path fallback_path g).1.records ≡ g.records
unfolding create_resource
create_resource-records c resource_type primary_path fallback_path g =
    by_outcome (forward_with_fallback c "POST" primary_path fallback_path none g.world)
  where
    by_outcome : (o : Outcome) → (bind_answer c resource_type g o).1.records ≡ g.records
    by_outcome (ok result, w) = refl
    by_outcome (err e, w) = refl

-- What was stored, where a response was given.
store_answer-records :
    (o : Once) (id : ℕ) (a : Answered × Gateway) (response : StoredResponse) (g1 : Gateway)
    → store_answer o (some id) a ≡ (responds response, g1)
    → g1.records
      ≡ complete o.config o.dumps o.complete_query_ok o.complete_commit_ok
          (some id)
          response
          a.1.records
store_answer-records o id (responds r, g) response g1 h =
    ap (λ a. a.1.records) (sym h)
    ∙ ap
        (λ r.
          complete o.config o.dumps o.complete_query_ok o.complete_commit_ok (some id) r g.records)
        (responds-inj r response (ap (λ a. a.0) h))
  where
    responds-inj : (r r' : StoredResponse) → Path Answered (responds r) (responds r') → r ≡ r'
    responds-inj r r' e = cc
store_answer-records o id (rejects e, g) response g1 h = absurd (ground (arith, ap (λ a. a.0) h))
store_answer-records o id (crashes, g) response g1 h = absurd (ground (arith, ap (λ a. a.0) h))

when_begun-replayed :
    (o : Once) (create : Gateway → Answered × Gateway) (a : Begun × Records)
    (response : StoredResponse) (g : Gateway)
    → a.0 ≡ replayed response
    → when_begun o create a g ≡ (responds response, record g { records = a.1 })
unfolding when_begun
when_begun-replayed o create (begun, table) response g h = rw h refl

create_once-replayed :
    (o : Once) (c : Call) (endpoint resource_type path : Text) (fallback_path : Option Text)
    (g : Gateway) (a : Begun × Records) (response : StoredResponse)
    → start_or_replay o.depth o.config o.loads o.sessions g.world.client.id o.idempotency_key
        endpoint o.request_hash g.records
      ≡ a
    → a.0 ≡ replayed response
    → create_once o c endpoint resource_type path fallback_path g
      ≡ (responds response, record g { records = a.1 })
unfolding create_once
create_once-replayed o c endpoint resource_type path fallback_path g a response h replays = rw h (
    when_begun-replayed o (create_resource c resource_type path fallback_path) a response g replays)

-- A request with an idempotency key that was started and answered, and whose answer was stored, is
-- answered alike when the client repeats it within the lifetime of its record, whatever has become of
-- the keys and of the path of the upstream: no call is made, and no resource is bound again.
pub create_once-create_once :
    (o : Once) (c again : Call) (endpoint resource_type path path' : Text)
    (fallback_path fallback_path' : Option Text) (g g1 : Gateway) (key : String) (id : ℕ)
    (table1 : Records) (response : StoredResponse) (sessions : ℕ → Session) (depth : ℕ) (w : World)
    → o.idempotency_key ≡ some key
    → begin o.config o.loads
        (o.sessions o.depth)
        g.world.client.id
        (some key)
        endpoint
        o.request_hash
        g.records
      ≡ (started id, table1)
    → create_once o c endpoint resource_type path fallback_path g ≡ (responds response, g1)
    → o.complete_query_ok ≡ true
    → o.complete_commit_ok ≡ true
    → length response.body ≤ max o.config.max_response_bytes 1
    → o.loads (o.dumps (response.headers, response.body)) ≡ some (response.headers, response.body)
    → (o.dumps (response.headers, response.body) == "") ≡ false
    → (sessions depth).now ≤ lifetime o.config (o.sessions o.depth)
    → (sessions depth).query_ok ≡ true
    → (sessions depth).insert ≢ fails
    → w.client.id ≡ g.world.client.id
    → let (answered, g2) =
        create_once
          (record o { sessions = sessions; depth = depth })
          again
          endpoint
          resource_type
          path'
          fallback_path'
          (record g1 { world = w }) in
      (answered ≡ responds response) × (g2.world ≡ w) × (g2.bindings ≡ g1.bindings)
unfolding create_once when_begun
create_once-create_once o c again endpoint resource_type path path' fallback_path fallback_path' g
      g1 key id table1 response sessions depth w keyed begun first asked stored fits reads
      text_there lasts asked' writes client =
    let once =
      start_or_replay_once o.depth o.config o.loads o.sessions g.world.client.id (some key) endpoint
        o.request_hash g.records (started id) table1 (λ e. ground arith) begun in
    let made = create_resource c resource_type path fallback_path (record g { records = table1 }) in
    let kept : store_answer o (some id) made ≡ (responds response, g1) =
      rw (keyed, once) at first in
    let table2 : g1.records ≡ complete o.config o.dumps true true (some id) response table1 =
      store_answer-records o id made response g1 kept
      ∙ rw (asked, stored)
          (ap (complete o.config o.dumps true true (some id) response) (
            create_resource-records c resource_type path fallback_path
              (record g { records = table1 }))) in
    let a =
      begin o.config o.loads (sessions depth) g.world.client.id (some key) endpoint o.request_hash
        (complete o.config o.dumps true true (some id) response table1) in
    let replays : a.0 ≡ replayed response =
      (begin-complete o.config o.loads o.dumps (o.sessions o.depth) (sessions depth)
          g.world.client.id key o.request_hash o.request_hash endpoint endpoint response g.records
          table1 id begun fits reads text_there lasts asked' writes).0
        refl in
    let o' : Once = record o { sessions = sessions; depth = depth } in
    let g' : Gateway = record g1 { world = w } in
    let twice : start_or_replay depth o.config o.loads sessions w.client.id o.idempotency_key
          endpoint o.request_hash g1.records
        ≡ a =
      rw (client, keyed, table2)
        (start_or_replay_once depth o.config o.loads sessions g.world.client.id (some key) endpoint
          o.request_hash (complete o.config o.dumps true true (some id) response table1) a.0 a.1
          (λ e. ground (arith, replays, e)) refl) in
    let end =
      create_once-replayed o' again endpoint resource_type path' fallback_path' g' a response twice
        replays in
    (ap (λ x. x.0) end, ap (λ x. x.1.world) end, ap (λ x. x.1.bindings) end)
