-- ===== src/Migrate.antt =====
-- app/tools/migrate_sqlite_to_postgres.py: the tables of a database are copied to an empty one. The
-- rows of a table stand in the order of their ids. The connections, the check of the schema's version
-- and what is printed are left out; an insertion may fail.
pub mod Main
pub mod Copies
pub mod Verified
pub mod Whole
mod Tests
use firecrawl_manger.Prelude.{
  ℕ, ◌+◌, Bool, true, false, not, ◌&&◌, ◌||◌, Option, none, some, List, [], ◌∷◌, ◌++◌, map, filter,
  any, find, take, length, max, leb, ◌==◌, nat_equality, if◌then◌else◌,
}
use firecrawl_manger.Prelude.Int.{ℤ, pos, negsuc}
use firecrawl_manger.Prelude.Text.{Text, text, text_equality, text_beq, split, strip, starts_with}

-- `TABLE_ORDER`
abbrev pub table_order : List Text
table_order =
    text "clients"
    ∷ text "api_keys"
    ∷ text "idempotency_records"
    ∷ text "request_logs"
    ∷ text "audit_logs"
    ∷ []

-- `DEPENDENCIES`
abbrev pub dependencies : List (Text × List Text)
dependencies =
    (text "api_keys", text "clients" ∷ [])
    ∷ (text "idempotency_records", text "clients" ∷ [])
    ∷ (text "request_logs", text "clients" ∷ text "api_keys" ∷ [])
    ∷ []

-- `SAMPLE_COLUMNS`
abbrev pub sample_columns : List (Text × List Text)
sample_columns =
    (text "clients", text "id" ∷ text "name" ∷ text "token_hash" ∷ text "is_active" ∷ [])
    ∷ (
      text "api_keys",
      text "id"
          ∷ text "client_id"
          ∷ text "api_key_hash"
          ∷ text "api_key_last4"
          ∷ text "plan_type"
          ∷ text "is_active"
          ∷ text "api_key_ciphertext"
          ∷ text "account_password_ciphertext"
          ∷ [],
    )
    ∷ (
      text "idempotency_records",
      text "id"
          ∷ text "client_id"
          ∷ text "idempotency_key"
          ∷ text "request_hash"
          ∷ text "status"
          ∷ [],
    )
    ∷ (
      text "request_logs",
      text "id"
          ∷ text "request_id"
          ∷ text "client_id"
          ∷ text "api_key_id"
          ∷ text "endpoint"
          ∷ text "method"
          ∷ text "status_code"
          ∷ text "success"
          ∷ text "retry_count"
          ∷ [],
    )
    ∷ (
      text "audit_logs",
      text "id"
          ∷ text "actor_type"
          ∷ text "action"
          ∷ text "resource_type"
          ∷ text "resource_id"
          ∷ [],
    )
    ∷ []

-- A value of a column: NULL, bytes, or another one as a text.
pub data Cell : Type 0 where
  null : Cell
  bytes plain : List ℕ → Cell

pub record Row : Type 0 where
  pub id : ℕ
  pub cells : Text → Cell

-- The target: its rows, the sequences of its ids, each with its last value and whether that was given
-- out, and whether it truncates some tables in one statement without CASCADE, which PostgreSQL refuses
-- where another table references one of them.
pub record Target : Type 0 where
  pub rows : Text → List Row
  pub sequences : Text → ℕ × Bool
  pub accepts_truncate : List Text → Bool

pub data MigrationError : Type 0 where
  unknown_tables no_tables truncate_refused : MigrationError
  missing_dependencies not_empty insert_failed count_mismatch : Text → MigrationError
  sample_mismatch : Text → ℕ → MigrationError

pub data Outcome {ℓ} (A : Type ℓ) : Type ℓ where
  done : A → Outcome A
  failed : MigrationError → Outcome A

abbrev pub has : List Text → Text → Bool
has names t = any (λ n. n == t) names

abbrev pub is_nil {ℓ} : {A : Type ℓ} → List A → Bool
is_nil [] = true
is_nil (x ∷ xs) = false

-- `_parse_csv_list`
unfoldable pub parse_csv_list : Option Text → Option (List Text)
unfolding split strip
parse_csv_list none = none
parse_csv_list (some value) = some (filter (λ s. not (s == [])) (map strip (split b',' value)))

abbrev pub or_empty : Option (List Text) → List Text
or_empty none = []
or_empty (some names) = names

abbrev pub is_included : Option (List Text) → Text → Bool
is_included none t = true
is_included (some names) t = has names t

-- `_resolve_tables`
unfoldable pub resolve_tables : Option (List Text) → Option (List Text) → Outcome (List Text)
resolve_tables include exclude =
    let unknown : List Text =
      filter (λ t. not (has table_order t)) (or_empty include ++ or_empty exclude) in
    let tables : List Text =
      filter (λ t. not (has (or_empty exclude) t)) (filter (is_included include) table_order) in
    if not (is_nil unknown)
    then failed unknown_tables
    else if is_nil tables
    then failed no_tables
    else done tables

-- `_validate_table_selection`: the first table without one that it depends on.
unfoldable pub validate_table_selection : List (Text × List Text) → List Text → Outcome (Unit {0})
validate_table_selection [] selected = done tt
validate_table_selection ((table, deps) ∷ rest) selected =
    let later : Outcome (Unit {0}) = validate_table_selection rest selected in
    if has selected table && any (λ d. not (has selected d)) deps
    then failed (missing_dependencies table)
    else later

abbrev pub set_rows : Text → List Row → Target → Target
set_rows name rows t = record t { rows = λ n. if text_beq n name then rows else t.rows n }

-- `TRUNCATE TABLE … RESTART IDENTITY`
abbrev pub truncated : List Text → Target → Target
truncated names t = record t {
  rows = λ n. if has names n then [] else t.rows n;
  sequences = λ n. if has names n then (1, false) else t.sequences n;
}

-- `_truncate_tables`; the error is one of the database.
abbrev pub truncate_tables : List Text → Target → Outcome Target
truncate_tables names t =
    if t.accepts_truncate names then done (truncated names t) else failed truncate_refused

-- `len(batch) >= batch_size`
abbrev pub is_full : ℤ → List Row → Bool
is_full (pos size) batch = leb size (length batch)
is_full (negsuc n) batch = true

-- The loop over the rows of the source, with the batch, what was inserted and how many rows.
unfoldable pub copy_rows : ℤ → List Row → List Row → List Row × ℕ → List Row × ℕ
copy_rows size [] [] (inserted, migrated) = (inserted, migrated)
copy_rows size [] (row ∷ batch) (inserted, migrated) =
    (inserted ++ row ∷ batch, migrated + length (row ∷ batch))
copy_rows size (row ∷ rows) batch (inserted, migrated) =
    let full : List Row = batch ++ row ∷ [] in
    elim (is_full size full) [
      | true ↦ copy_rows size rows [] (inserted ++ full, migrated + length full)
      | false ↦ copy_rows size rows full (inserted, migrated)
    ]

abbrev pub max_with : ℕ → Option ℕ → Option ℕ
max_with n none = some n
max_with n (some m) = some (max n m)

-- `SELECT max(id)`
abbrev pub max_id : List Row → Option ℕ
max_id [] = none
max_id (row ∷ rows) = max_with row.id (max_id rows)

-- `_fix_postgres_sequence`
abbrev pub sequence_for : Option ℕ → ℕ × Bool
sequence_for none = (1, false)
sequence_for (some m) = (m, true)

abbrev pub fix_sequence : Text → Target → Target
fix_sequence name t = record t {
  sequences = λ n. if text_beq n name then sequence_for (max_id (t.rows name)) else t.sequences n;
}

-- `class TableSummary`, without the time.
pub record TableSummary : Type 0 where
  pub table : Text
  pub source_rows : ℕ
  pub migrated_rows : ℕ

pub record Args : Type 0 where
  pub dry_run : Bool
  pub truncate : Bool
  pub include : Option Text
  pub exclude : Option Text
  pub batch_size : ℤ
  pub verify : Bool

-- `_migrate_one_table`: a transaction for the table.
unfoldable pub migrate_one_table :
    Args → (Text → Bool) → (Text → List Row) → Text → Target → Outcome TableSummary × Target
unfolding copy_rows
migrate_one_table a inserts source name t =
    if a.dry_run
    then (done (record { table = name; source_rows = length (source name); migrated_rows = 0 }), t)
    else if not (inserts name)
    then (failed (insert_failed name), t)
    else let copied_rows : List Row × ℕ =
        copy_rows a.batch_size (source name) [] (t.rows name, 0) in
      (
        done (record {
          table = name;
          source_rows = length (source name);
          migrated_rows = copied_rows.1;
        }),
        fix_sequence name (set_rows name copied_rows.0 t),
      )

abbrev pub add_summary :
    TableSummary → Outcome (List TableSummary) × Target → Outcome (List TableSummary) × Target
add_summary summary (done summaries, t) = (done (summary ∷ summaries), t)
add_summary summary (failed e, t) = (failed e, t)

abbrev pub then_others :
    Outcome TableSummary × Target
    → (Target → Outcome (List TableSummary) × Target)
    → Outcome (List TableSummary) × Target
then_others (done summary, t) others = add_summary summary (others t)
then_others (failed e, t) others = (failed e, t)

-- The loop over the tables.
unfoldable pub migrate_tables :
    Args
    → (Text → Bool)
    → (Text → List Row)
    → List Text
    → Target
    → Outcome (List TableSummary) × Target
migrate_tables a inserts source [] t = (done [], t)
migrate_tables a inserts source (name ∷ names) t =
    then_others (migrate_one_table a inserts source name t) (migrate_tables a inserts source names)
