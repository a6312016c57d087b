-- ===== src/Idempotency/Once.antt =====
-- `start_or_replay` of app/core/idempotency.py calls itself at most once.
use firecrawl_manger.Prelude.{
  ℕ, zero, suc, ◌≡◌, ◌≢◌, refl, String, Option, none, some, arith, inl, inr, Bool-cases,
  Option-cases, ◌==◌, nat_equality, string_equality,
}
use firecrawl_manger.Prelude.Text.{Text}
use firecrawl_manger.Models.{IdempotencyRecord}
use firecrawl_manger.ResourceBinding.{Answer, accepts, violated, fails}
use firecrawl_manger.Idempotency.{
  Config, Blob, Session, Begun, Records, restart, skipped, crashed, started, replayed, refused,
  again_if, is_over, cleanup_expired, find_record, meet_record, on_taken, insert_record, begin,
  start_or_replay,
}
use firecrawl_manger.Idempotency.Free.{
  IsUnique, deleted_none, cleanup_expired-IsUnique, insert_free, begin_free, stored_answer_ends,
}

on_taken_deletes :
    (loads : String → Option Blob) (s : Session) (client_id : ℕ) (key hash : String)
    (table : Records)
    → IsUnique client_id key table
    → (on_taken loads s client_id key hash table).0 ≡ restart
    → find_record client_id key (on_taken loads s client_id key hash table).1 ≡ none
unfolding on_taken meet_record
on_taken_deletes loads s client_id key hash table u h = elim (Bool-cases s.query_ok) [
  | inr lost ↦ absurd (ground (arith, rw lost at h))
  | inl asked ↦ elim (Option-cases (find_record client_id key table)) [
    | inl free ↦ absurd (ground (arith, rw (asked, free) at h))
    | inr (r, there) ↦ rw (asked, there) (meet_deletes r there (rw (asked, there) at h))
  ]
]
  where
    meet_deletes :
        (r : IdempotencyRecord)
        → find_record client_id key table ≡ some r
        → (meet_record loads s hash r table).0 ≡ restart
        → find_record client_id key (meet_record loads s hash r table).1 ≡ none
    meet_deletes r there h = elim (Bool-cases (is_over s.now r.expires_at)) [
      | inr lasts ↦ elim (Bool-cases (r.request_hash == hash)) [
        | inr differ ↦ absurd (ground (arith, rw (lasts, differ) at h))
        | inl same ↦ absurd (
            stored_answer_ends loads r.status r.response_status_code r.response_body
              (rw (lasts, same) at h))
      ]
      | inl over ↦ elim (Bool-cases s.delete_ok) [
        | inr kept ↦ absurd (ground (arith, rw (over, kept) at h))
        | inl gone ↦ rw (over, gone) (deleted_none client_id key r table u there)
      ]
    ]

insert_deletes :
    (config : Config) (loads : String → Option Blob) (s : Session) (client_id : ℕ)
    (key hash : String) (table : Records)
    → IsUnique client_id key table
    → (insert_record config loads s client_id key hash table).0 ≡ restart
    → find_record client_id key (insert_record config loads s client_id key hash table).1 ≡ none
unfolding insert_record
insert_deletes config loads s client_id key hash table u = by_answer s.insert refl
  where
    by_answer :
        (a : Answer)
        → s.insert ≡ a
        → (insert_record config loads s client_id key hash table).0 ≡ restart
        → find_record client_id key (insert_record config loads s client_id key hash table).1 ≡ none
    by_answer fails e h = absurd (ground (arith, rw (e, insert_record) at h))
    by_answer violated e h =
        rw (e, insert_record)
          (on_taken_deletes loads s client_id key hash table u (rw (e, insert_record) at h))
    by_answer accepts e h = elim (Option-cases (find_record client_id key table)) [
      | inl free ↦ absurd (insert_free config loads s client_id key hash table free h)
      | inr (r, there) ↦
          rw (e, insert_record, there)
            (on_taken_deletes loads s client_id key hash table u
              (rw (e, insert_record, there) at h))
    ]

-- After a deletion the client does not have the key.
begin_deletes :
    (config : Config) (loads : String → Option Blob) (s : Session) (client_id : ℕ)
    (key hash : String) (endpoint : Text) (table : Records)
    → IsUnique client_id key table
    → (begin config loads s client_id (some key) endpoint hash table).0 ≡ restart
    → find_record client_id key (begin config loads s client_id (some key) endpoint hash table).1
      ≡ none
unfolding begin
begin_deletes config loads s client_id key hash endpoint table u h =
    elim (Bool-cases config.enabled) [
      | inr off ↦ absurd (ground (arith, rw off at h))
      | inl on ↦ elim (Bool-cases (key == "")) [
        | inl blank ↦ absurd (ground (arith, rw (on, blank) at h))
        | inr named ↦
            rw (on, named)
              (insert_deletes config loads s client_id key hash (cleanup_expired s client_id table)
                (cleanup_expired-IsUnique s client_id key table u) (rw (on, named) at h))
      ]
    ]

-- What a call leaves to the call that it makes of itself ends there, if the client does not have the key.
start_free :
    (depth : ℕ) (config : Config) (loads : String → Option Blob) (sessions : ℕ → Session)
    (client_id : ℕ) (key hash : String) (endpoint : Text) (table : Records)
    → find_record client_id key table ≡ none
    → (start_or_replay depth config loads sessions client_id (some key) endpoint hash table).0
      ≢ restart
unfolding start_or_replay
start_free zero config loads sessions client_id key hash endpoint table free =
    begin_free config loads (sessions 0) client_id key hash endpoint table free
start_free (suc depth) config loads sessions client_id key hash endpoint table free =
    by_begun (begin config loads (sessions (suc depth)) client_id (some key) endpoint hash table)
      (begin_free config loads (sessions (suc depth)) client_id key hash endpoint table free)
  where
    by_begun :
        (a : Begun × Records)
        → a.0 ≢ restart
        → (again_if a
            (start_or_replay depth config loads sessions client_id (some key) endpoint hash)).0
          ≢ restart
    by_begun a ends = ground (arith, ends)

-- A request with an idempotency key never goes round more than twice, where the table has the key once
-- for each client: whatever the database answers, the call that `start_or_replay` makes of itself after
-- it deleted a record that was over ends in a response, a new record or an error.
pub start_or_replay_ends :
    (depth : ℕ) (config : Config) (loads : String → Option Blob) (sessions : ℕ → Session)
    (client_id : ℕ) (key hash : String) (endpoint : Text) (table : Records)
    → IsUnique client_id key table
    → (start_or_replay (suc depth) config loads sessions client_id (some key) endpoint hash table).0
      ≢ restart
unfolding start_or_replay
start_or_replay_ends depth config loads sessions client_id key hash endpoint table u =
    by_begun (begin config loads (sessions (suc depth)) client_id (some key) endpoint hash table)
      (begin_deletes config loads (sessions (suc depth)) client_id key hash endpoint table u)
  where
    by_begun :
        (a : Begun × Records)
        → (a.0 ≡ restart → find_record client_id key a.1 ≡ none)
        → (again_if a
            (start_or_replay depth config loads sessions client_id (some key) endpoint hash)).0
          ≢ restart
    by_begun (restart, rest) gone h =
        start_free depth config loads sessions client_id key hash endpoint rest (gone refl) h
    by_begun (skipped, rest) gone h = ground arith
    by_begun (crashed, rest) gone h = ground arith
    by_begun (started id, rest) gone h = ground arith
    by_begun (replayed response, rest) gone h = ground arith
    by_begun (refused e, rest) gone h = ground arith
