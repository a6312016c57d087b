-- ===== src/Idempotency/Laws.antt =====
-- Calls of app/core/idempotency.py that meet a record, and calls that start.
use firecrawl_manger.Prelude.{
  ℕ, ◌≡◌, ◌≢◌, refl, ap, sym, ◌∙◌, String, true, false, Option, some, arith, Option-cases,
  Bool-cases, inl, inr, find-filter, find-append, nat_equality, string_equality, ==-refl, ◌==◌, not,
  ◌&&◌,
}
use firecrawl_manger.Prelude.Text.{Text}
use firecrawl_manger.Models.{IdempotencyRecord}
use firecrawl_manger.ResourceBinding.{Answer, accepts, fails, violated}
use firecrawl_manger.Idempotency.{
  Config, Blob, Session, Records, started, is_over, cleanup_expired, find_record, has_key,
  meet_record, new_record, on_taken, insert_record, begin,
}

-- A call finds the record of its key, which is not over yet.
pub record Meets (s : Session) (client_id : ℕ) (key : String) (r : IdempotencyRecord)
    (table : Records) : Type 0 where
  pub named : (key == "") ≡ false
  pub there : find_record client_id key table ≡ some r
  pub lasts : is_over s.now r.expires_at ≡ false
  pub asked : s.query_ok ≡ true
  pub writes : s.insert ≢ fails

cleanup_keeps :
    (s : Session) (client_id : ℕ) (key : String) (r : IdempotencyRecord) (table : Records)
    → Meets s client_id key r table
    → find_record client_id key (cleanup_expired s client_id table) ≡ some r
unfolding cleanup_expired
cleanup_keeps s client_id key r table m = elim (Bool-cases s.cleanup_ok) [
  | inr kept ↦ rw kept m.there
  | inl cleaned ↦ rw cleaned (
      find-filter (has_key client_id key)
        (λ r. not (r.client_id == client_id && is_over s.now r.expires_at)) r table m.there
        (ground (arith, m.lasts)))
]

insert_record-Meets :
    (config : Config) (loads : String → Option Blob) (s : Session) (client_id : ℕ)
    (key hash : String) (r : IdempotencyRecord) (table : Records)
    → find_record client_id key table ≡ some r
    → s.query_ok ≡ true
    → s.insert ≢ fails
    → insert_record config loads s client_id key hash table ≡ meet_record loads s hash r table
unfolding insert_record
insert_record-Meets config loads s client_id key hash r table there asked writes =
    by_answer s.insert refl
  where
    by_answer :
        (a : Answer)
        → s.insert ≡ a
        → insert_record config loads s client_id key hash table ≡ meet_record loads s hash r table
    by_answer fails e = absurd (writes e)
    by_answer violated e = rw (e, insert_record, asked, there) refl
    by_answer accepts e = rw (e, insert_record, there, asked, there) refl

pub begin-Meets :
    (config : Config) (loads : String → Option Blob) (s : Session) (client_id : ℕ)
    (key hash : String) (endpoint : Text) (r : IdempotencyRecord) (table : Records)
    → config.enabled ≡ true
    → Meets s client_id key r table
    → begin config loads s client_id (some key) endpoint hash table
      ≡ meet_record loads s hash r (cleanup_expired s client_id table)
unfolding begin
begin-Meets config loads s client_id key hash endpoint r table on m =
    rw (on, m.named)
      (insert_record-Meets config loads s client_id key hash r (cleanup_expired s client_id table)
        (cleanup_keeps s client_id key r table m) m.asked m.writes)

on_taken_starts :
    (loads : String → Option Blob) (s : Session) (client_id : ℕ) (key hash : String)
    (table : Records) (id : ℕ)
    → (on_taken loads s client_id key hash table).0 ≢ started id
unfolding on_taken
on_taken_starts loads s client_id key hash table id h = ground arith

insert_starts :
    (config : Config) (loads : String → Option Blob) (s : Session) (client_id : ℕ)
    (key hash : String) (table table1 : Records) (id : ℕ)
    → insert_record config loads s client_id key hash table ≡ (started id, table1)
    → (id ≡ s.new_id)
      × (find_record client_id key table1 ≡ some (new_record config s client_id key hash))
unfolding insert_record
insert_starts config loads s client_id key hash table table1 id = by_answer s.insert refl
  where
    taken : (P : Type 0) → on_taken loads s client_id key hash table ≡ (started id, table1) → P
    taken P h = absurd (on_taken_starts loads s client_id key hash table id (ap (λ o. o.0) h))

    by_answer :
        (a : Answer)
        → s.insert ≡ a
        → insert_record config loads s client_id key hash table ≡ (started id, table1)
        → (id ≡ s.new_id)
          × (find_record client_id key table1 ≡ some (new_record config s client_id key hash))
    by_answer fails e h = absurd (ground (arith, ap (λ o. o.0) (rw (e, insert_record) at h)))
    by_answer violated e h = taken _ (rw (e, insert_record) at h)
    by_answer accepts e h = elim (Option-cases (find_record client_id key table)) [
      | inr (existing, there) ↦ taken _ (rw (e, insert_record, there) at h)
      | inl free ↦
          let h' = rw (e, insert_record, free) at h in
          (
            ground (arith, ap (λ o. o.0) h'),
            ap (find_record client_id key) (sym (ap (λ o. o.1) h'))
                ∙ find-append (has_key client_id key) (new_record config s client_id key hash) table
                    free (rw (==-refl client_id, ==-refl key) refl),
          )
    ]

pub begin_starts :
    (config : Config) (loads : String → Option Blob) (s : Session) (client_id : ℕ)
    (key hash : String) (endpoint : Text) (table table1 : Records) (id : ℕ)
    → begin config loads s client_id (some key) endpoint hash table ≡ (started id, table1)
    → (config.enabled ≡ true)
      × ((key == "") ≡ false)
      × (id ≡ s.new_id)
      × (find_record client_id key table1 ≡ some (new_record config s client_id key hash))
unfolding begin
begin_starts config loads s client_id key hash endpoint table table1 id h =
    elim (Bool-cases config.enabled) [
      | inr off ↦ absurd (ground (arith, ap (λ o. o.0) h))
      | inl on ↦ elim (Bool-cases (key == "")) [
        | inl blank ↦ absurd (ground (arith, ap (λ o. o.0) h))
        | inr named ↦
            let (id_is, there) =
              insert_starts config loads s client_id key hash (cleanup_expired s client_id table)
                table1 id (rw (on, named) at h) in
            (on, named, id_is, there)
      ]
    ]
