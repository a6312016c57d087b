-- ===== src/Migrate/Copies.antt =====
-- What the loops of app/tools/migrate_sqlite_to_postgres.py copy.
use firecrawl_manger.Prelude.{
  ℕ, ◌+◌, ◌<◌, ◌≡◌, refl, sym, subst, ap, ap₂, map, All-imp, ◌∙◌, Bool, true, false, not, Option,
  none, some, List, [], ◌∷◌, ◌++◌, arith, inl, inr, All, Bool-cases, if-elim, length, length-append,
  if◌then◌else◌, ==-refl,
}
use mathlib.Core.List.{append-nil, append_assoc}
use firecrawl_manger.Prelude.Int.{ℤ}
use firecrawl_manger.Prelude.Text.{Text, text_equality, text_beq, text_beq_iff}
use firecrawl_manger.Migrate.{
  Row, Target, Outcome, done, Args, TableSummary, is_full, copy_rows, max_with, max_id,
  sequence_for, set_rows, fix_sequence, migrate_one_table, migrate_tables, then_others, add_summary,
  has,
}

-- Whatever the size of a batch, every row is inserted once, in its place, and is counted.
pub copy_rows_all :
    (size : ℤ) (rows batch inserted : List Row) (migrated : ℕ)
    → copy_rows size rows batch (inserted, migrated)
      ≡ (inserted ++ (batch ++ rows), migrated + (length batch + length rows))
unfolding copy_rows
copy_rows_all size [] [] inserted migrated =
    ap₂ (λ l n. (l, n)) (sym (append-nil inserted)) (omega arith)
copy_rows_all size [] (row ∷ batch) inserted migrated =
    ap₂ (λ l n. (l, n)) (ap (λ l. inserted ++ row ∷ l) (sym (append-nil batch))) (omega arith)
copy_rows_all size (row ∷ rows) batch inserted migrated =
    elim (Bool-cases (is_full size (batch ++ row ∷ []))) [
      | inl full ↦
          rw (copy_rows, full)
            (copy_rows_all size rows [] (inserted ++ (batch ++ row ∷ []))
                (migrated + length (batch ++ row ∷ []))
              ∙ ap₂ (λ l n. (l, n))
                  (append_assoc inserted (batch ++ row ∷ []) rows
                    ∙ ap (λ l. inserted ++ l) (append_assoc batch (row ∷ []) rows))
                  (omega (arith, length-append batch (row ∷ []))))
      | inr room ↦
          rw (copy_rows, room)
            (copy_rows_all size rows (batch ++ row ∷ []) inserted migrated
              ∙ ap₂ (λ l n. (l, n)) (ap (λ l. inserted ++ l) (append_assoc batch (row ∷ []) rows))
                  (omega (arith, length-append batch (row ∷ []))))
    ]

-- The next id that a sequence gives out.
abbrev pub next_id : ℕ × Bool → ℕ
next_id (value, called) = if called then value + 1 else value

max_with-le :
    (n : ℕ) (m : Option ℕ) (rows : List Row)
    → All (λ r. r.id < next_id (sequence_for m)) rows
    → (n < next_id (sequence_for (max_with n m)))
      × All (λ r. r.id < next_id (sequence_for (max_with n m))) rows
max_with-le n none rows h = (omega arith, All-imp _ _ rows (λ r l. omega arith) h)
max_with-le n (some m) rows h = (omega arith, All-imp _ _ rows (λ r l. omega arith) h)

max_id-le : (rows : List Row) → All (λ r. r.id < next_id (sequence_for (max_id rows))) rows
max_id-le [] = tt
max_id-le (row ∷ rows) = max_with-le row.id (max_id rows) rows (max_id-le rows)

-- The target after the rows of a table were copied to it.
abbrev pub with_copy : (Text → List Row) → Text → Target → Target
with_copy source name t = fix_sequence name (set_rows name (source name) t)

abbrev pub summary_of : (Text → List Row) → Text → TableSummary
summary_of source name = record {
  table = name;
  source_rows = length (source name);
  migrated_rows = length (source name);
}

abbrev pub copied_all : (Text → List Row) → List Text → Target → Target
copied_all source [] t = t
copied_all source (name ∷ names) t = copied_all source names (with_copy source name t)

abbrev pub Distinct : List Text → Type 0
Distinct [] = Unit
Distinct (name ∷ names) = (has names name ≡ false) × Distinct names

other_rows :
    (source : Text → List Row) (name n : Text) (t : Target)
    → text_beq n name ≡ false
    → (with_copy source name t).rows n ≡ t.rows n
other_rows source name n t h = rw h refl

module _ (a : Args) (inserts : Text → Bool) (source : Text → List Row) (real : a.dry_run ≡ false)
    (accepted : (n : Text) → inserts n ≡ true) where
  migrate_one_copies :
      (name : Text) (t : Target)
      → t.rows name ≡ []
      → migrate_one_table a inserts source name t
        ≡ (done (summary_of source name), with_copy source name t)
  unfolding migrate_one_table
  migrate_one_copies name t empty =
      let out : Outcome TableSummary × Target =
        (done (summary_of source name), with_copy source name t) in
      if-elim (λ r. r ≡ out) a.dry_run _ _ (λ dry. cc)
        λ _.
          if-elim (λ r. r ≡ out) (not (inserts name)) _ _ (λ refused. cc (accepted name))
            λ _.
              subst
                (λ (c : List Row × ℕ).
                  (
                    done (record {
                      table = name;
                      source_rows = length (source name);
                      migrated_rows = c.1;
                    }),
                    fix_sequence name (set_rows name c.0 t),
                  )
                  ≡ out)
                (sym (copy_rows_all a.batch_size (source name) [] (t.rows name) 0))
                (subst
                  (λ (l : List Row).
                    (
                      done (record {
                        table = name;
                        source_rows = length (source name);
                        migrated_rows = 0 + (0 + length (source name));
                      }),
                      fix_sequence name (set_rows name (l ++ source name) t),
                    )
                    ≡ out)
                  (sym empty)
                  (ap
                    (λ (n : ℕ). (
                      done (record {
                        table = name;
                        source_rows = length (source name);
                        migrated_rows = n;
                      }),
                      with_copy source name t,
                    ))
                    (omega arith)))

  pub migrate_tables_copies :
      (names : List Text) (t : Target)
      → Distinct names
      → All (λ n. t.rows n ≡ []) names
      → migrate_tables a inserts source names t
        ≡ (done (map (summary_of source) names), copied_all source names t)
  unfolding migrate_tables
  migrate_tables_copies [] t distinct empty = refl
  migrate_tables_copies (name ∷ names) t distinct empty =
      let t' = with_copy source name t in
      ap (λ r. then_others r (migrate_tables a inserts source names))
        (migrate_one_copies name t empty.0)
      ∙ ap (add_summary (summary_of source name))
          (migrate_tables_copies names t' distinct.1 (still_empty names (distinct.0) empty.1))
    where
      still_empty :
          (ns : List Text)
          → has ns name ≡ false
          → All (λ n. t.rows n ≡ []) ns
          → All (λ n. (with_copy source name t).rows n ≡ []) ns
      still_empty [] d e = tt
      still_empty (n ∷ ns) d e =
          ((other_rows source name n t (ground arith)) ∙ e.0, still_empty ns (ground arith) e.1)

text_ne_comm : (s t : Text) → text_beq s t ≡ false → text_beq t s ≡ false
text_ne_comm s t h = ground (arith, text_beq_iff s t, text_beq_iff t s)

own_rows :
    (source : Text → List Row) (name : Text) (t : Target)
    → ((with_copy source name t).rows name ≡ source name)
      × ((with_copy source name t).sequences name ≡ sequence_for (max_id (source name)))
own_rows source name t = (rw (==-refl name) refl, rw (==-refl name) refl)

-- A table that is not copied keeps its rows and its sequence.
pub copied_all-other :
    (source : Text → List Row) (names : List Text) (n : Text) (t : Target)
    → has names n ≡ false
    → ((copied_all source names t).rows n ≡ t.rows n)
      × ((copied_all source names t).sequences n ≡ t.sequences n)
copied_all-other source [] n t h = (refl, refl)
copied_all-other source (name ∷ names) n t h =
    let apart : text_beq n name ≡ false = text_ne_comm name n (ground arith) in
    let rest = copied_all-other source names n (with_copy source name t) (ground arith) in
    (rest.0 ∙ rw apart refl, rest.1 ∙ rw apart refl)

-- A table that is copied has the rows of the source, and its sequence is past their ids.
pub record IsCopied (source : Text → List Row) (t : Target) (n : Text) : Type 0 where
  pub rows : t.rows n ≡ source n
  pub sequence : All (λ r. r.id < next_id (t.sequences n)) (source n)

pub copied_all-IsCopied :
    (source : Text → List Row) (names : List Text) (t : Target)
    → Distinct names
    → All (IsCopied source (copied_all source names t)) names
copied_all-IsCopied source [] t d = tt
copied_all-IsCopied source (name ∷ names) t d =
    let t' = with_copy source name t in
    let kept = copied_all-other source names name t' d.0 in
    let own = own_rows source name t in
    (
      record {
        rows = kept.0 ∙ own.0;
        sequence =
            subst (λ q. All (λ r. r.id < next_id q) (source name)) (sym (kept.1 ∙ own.1))
              (max_id-le (source name));
      },
      copied_all-IsCopied source names t' d.1,
    )
