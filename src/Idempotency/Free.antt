-- ===== src/Idempotency/Free.antt =====
-- `start_or_replay` of app/core/idempotency.py for a client that does not have the key.
use firecrawl_manger.Prelude.{
  ℕ, ◌≡◌, ◌≢◌, refl, String, true, Bool, Option, none, some, [], ◌∷◌, arith, inl, inr, Bool-cases,
  Option-cases, filter, not, ==-refl, ◌==◌, nat_equality, string_equality,
}
use firecrawl_manger.Prelude.Text.{Text}
use firecrawl_manger.Models.{IdempotencyRecord, RecordStatus, completed, in_progress}
use firecrawl_manger.ResourceBinding.{Answer, accepts, violated, fails}
use firecrawl_manger.Idempotency.{
  Config, Blob, Session, Records, restart, cleanup_expired, find_record, has_key, on_taken,
  insert_record, stored_answer, deserialize_response, begin,
}

-- The client has the key at most once: the unique constraint of the table.
abbrev pub IsUnique : ℕ → String → Records → Type 0
IsUnique client_id key [] = Unit
IsUnique client_id key (r ∷ table) =
    (has_key client_id key r ≡ true → find_record client_id key table ≡ none)
    × IsUnique client_id key table

-- Rows that are taken out leave the key where it was, or nowhere.
find_record-filter :
    (client_id : ℕ) (key : String) (p : IdempotencyRecord → Bool) (table : Records)
    → find_record client_id key table ≡ none
    → find_record client_id key (filter p table) ≡ none
find_record-filter client_id key p [] h = refl
find_record-filter client_id key p (r ∷ table) h =
    ground (arith, find_record-filter client_id key p table)

filter-IsUnique :
    (client_id : ℕ) (key : String) (p : IdempotencyRecord → Bool) (table : Records)
    → IsUnique client_id key table
    → IsUnique client_id key (filter p table)
filter-IsUnique client_id key p [] u = tt
filter-IsUnique client_id key p (r ∷ table) (here, u) = elim (Bool-cases (p r)) [
  | inl kept ↦ rw kept (
    λ h. find_record-filter client_id key p table (here h),
    filter-IsUnique client_id key p table u,
  )
  | inr out ↦ rw out (filter-IsUnique client_id key p table u)
]

-- The row of the key was the only one: once it is deleted, by its id, there is none.
pub deleted_none :
    (client_id : ℕ) (key : String) (r : IdempotencyRecord) (table : Records)
    → IsUnique client_id key table
    → find_record client_id key table ≡ some r
    → find_record client_id key (filter (λ c. not (c.id == r.id)) table) ≡ none
deleted_none client_id key r [] u h = refl
deleted_none client_id key r (c ∷ table) (here, u) h = elim (Bool-cases (has_key client_id key c)) [
  | inl found ↦
      let same : c.id ≡ r.id = ground (arith, rw found at h) in
      rw (same, ==-refl r.id)
        (find_record-filter client_id key (λ c. not (c.id == r.id)) table (here found))
  | inr other ↦
      let rest = deleted_none client_id key r table u (rw other at h) in
      elim (Bool-cases (c.id == r.id)) [
        | inl gone ↦ rw gone rest
        | inr kept ↦ rw (kept, other) rest
      ]
]

pub cleanup_expired-IsUnique :
    (s : Session) (client_id : ℕ) (key : String) (table : Records)
    → IsUnique client_id key table
    → IsUnique client_id key (cleanup_expired s client_id table)
unfolding cleanup_expired
cleanup_expired-IsUnique s client_id key table u = elim (Bool-cases s.cleanup_ok) [
  | inl cleaned ↦ rw cleaned (filter-IsUnique client_id key _ table u)
  | inr failed ↦ rw failed u
]

cleanup_expired-none :
    (s : Session) (client_id : ℕ) (key : String) (table : Records)
    → find_record client_id key table ≡ none
    → find_record client_id key (cleanup_expired s client_id table) ≡ none
unfolding cleanup_expired
cleanup_expired-none s client_id key table h = elim (Bool-cases s.cleanup_ok) [
  | inl cleaned ↦ rw cleaned (find_record-filter client_id key _ table h)
  | inr failed ↦ rw failed h
]

on_taken_free :
    (loads : String → Option Blob) (s : Session) (client_id : ℕ) (key hash : String)
    (table : Records)
    → find_record client_id key table ≡ none
    → (on_taken loads s client_id key hash table).0 ≢ restart
unfolding on_taken
on_taken_free loads s client_id key hash table free h = elim (Bool-cases s.query_ok) [
  | inl asked ↦ ground (arith, rw (asked, free) at h)
  | inr lost ↦ ground (arith, rw lost at h)
]

pub insert_free :
    (config : Config) (loads : String → Option Blob) (s : Session) (client_id : ℕ)
    (key hash : String) (table : Records)
    → find_record client_id key table ≡ none
    → (insert_record config loads s client_id key hash table).0 ≢ restart
unfolding insert_record
insert_free config loads s client_id key hash table free = by_answer s.insert refl
  where
    by_answer :
        (a : Answer)
        → s.insert ≡ a
        → (insert_record config loads s client_id key hash table).0 ≢ restart
    by_answer fails e h = ground (arith, rw (e, insert_record) at h)
    by_answer violated e h =
        on_taken_free loads s client_id key hash table free (rw (e, insert_record) at h)
    by_answer accepts e h = ground (arith, rw (e, insert_record, free) at h)

-- A client that does not have the key is not sent round again.
pub begin_free :
    (config : Config) (loads : String → Option Blob) (s : Session) (client_id : ℕ)
    (key hash : String) (endpoint : Text) (table : Records)
    → find_record client_id key table ≡ none
    → (begin config loads s client_id (some key) endpoint hash table).0 ≢ restart
unfolding begin
begin_free config loads s client_id key hash endpoint table free h =
    elim (Bool-cases config.enabled) [
      | inr off ↦ ground (arith, rw off at h)
      | inl on ↦ elim (Bool-cases (key == "")) [
        | inl blank ↦ ground (arith, rw (on, blank) at h)
        | inr named ↦
            insert_free config loads s client_id key hash (cleanup_expired s client_id table)
              (cleanup_expired-none s client_id key table free) (rw (on, named) at h)
      ]
    ]

pub stored_answer_ends :
    (loads : String → Option Blob) (status : RecordStatus) (code : Option ℕ) (body : Option String)
    → stored_answer loads status code body ≢ restart
unfolding deserialize_response
stored_answer_ends loads completed (some code) (some body) h = elim (Bool-cases (body == "")) [
  | inl blank ↦ ground (arith, rw blank at h)
  | inr full ↦ elim (Option-cases (loads body)) [
    | inl bad ↦ ground (arith, rw (full, deserialize_response, bad) at h)
    | inr (blob, reads) ↦ ground (arith, rw (full, deserialize_response, reads) at h)
  ]
]
stored_answer_ends loads completed (some code) none h = ground arith
stored_answer_ends loads completed none body h = ground arith
stored_answer_ends loads in_progress code body h = ground arith
