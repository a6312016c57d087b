-- ===== src/Migrate/Main.antt =====
-- app/tools/migrate_sqlite_to_postgres.py: the verification of what was copied, and `main`.
use firecrawl_manger.Prelude.{
  ℕ, Bool, true, false, not, ◌&&◌, ◌||◌, Option, none, some, List, [], ◌∷◌, filter, any, find, take,
  length, ◌==◌, nat_equality, if◌then◌else◌,
}
use firecrawl_manger.Prelude.Text.{Text, text, text_equality, starts_with}
use firecrawl_manger.Migrate.{
  dependencies, sample_columns, Cell, Row, Target, Outcome, is_nil, parse_csv_list, resolve_tables,
  validate_table_selection, truncate_tables, TableSummary, Args, migrate_tables, null, bytes, plain,
  not_empty, count_mismatch, sample_mismatch, done, failed,
}

-- `_verify_counts`
unfoldable pub verify_counts : (Text → List Row) → Target → List Text → Outcome (Unit {0})
verify_counts source t [] = done tt
verify_counts source t (name ∷ names) =
    let rest : Outcome (Unit {0}) = verify_counts source t names in
    if length (source name) == length (t.rows name) then rest else failed (count_mismatch name)

-- `"ciphertext" in col`
abbrev pub has_text : Text → Text → Bool
has_text part [] = starts_with part []
has_text part (c ∷ s) = starts_with part (c ∷ s) || has_text part s

abbrev pub is_ciphertext : Text → Bool
is_ciphertext col = has_text (text "ciphertext") col

-- Two values of a column with a ciphertext.
abbrev pub same_ciphertext : Cell → Cell → Bool
same_ciphertext null null = true
same_ciphertext (bytes s) (bytes d) = not (s == []) && not (d == []) && s == d
same_ciphertext _ _ = false

abbrev pub same_cell : Cell → Cell → Bool
same_cell null null = true
same_cell (bytes s) (bytes d) = s == d
same_cell (plain s) (plain d) = s == d
same_cell _ _ = false

abbrev pub agrees : Row → Row → Text → Bool
agrees src dst col =
    if is_ciphertext col
    then same_ciphertext (src.cells col) (dst.cells col)
    else same_cell (src.cells col) (dst.cells col)

abbrev pub agrees_all : Row → Row → List Text → Bool
agrees_all src dst columns = not (any (λ c. not (agrees src dst c)) columns)

abbrev pub found_agrees : Row → List Text → Option Row → Bool
found_agrees src columns none = false
found_agrees src columns (some dst) = agrees_all src dst columns

abbrev pub find_row : ℕ → List Row → Option Row
find_row id rows = find (λ r. r.id == id) rows

-- The rows of a sample are looked up in the target.
unfoldable pub verify_rows : Text → List Text → List Row → List Row → Outcome (Unit {0})
verify_rows name columns target [] = done tt
verify_rows name columns target (src ∷ rows) =
    let rest : Outcome (Unit {0}) = verify_rows name columns target rows in
    if found_agrees src columns (find_row src.id target)
    then rest
    else failed (sample_mismatch name src.id)

abbrev columns_in : Text → List (Text × List Text) → List Text
columns_in name [] = text "id" ∷ []
columns_in name ((table, columns) ∷ rest) = if table == name then columns else columns_in name rest

-- `SAMPLE_COLUMNS.get(name) or ["id"]`
abbrev pub columns_of : Text → List Text
columns_of name = columns_in name sample_columns

abbrev pub and_then : Outcome (Unit {0}) → Outcome (Unit {0}) → Outcome (Unit {0})
and_then (done u) other = other
and_then (failed e) other = failed e

-- `_verify_samples`
unfoldable pub verify_samples : ℕ → (Text → List Row) → Target → List Text → Outcome (Unit {0})
unfolding verify_rows
verify_samples size source t [] = done tt
verify_samples size source t (name ∷ names) =
    and_then (verify_rows name (columns_of name) (t.rows name) (take size (source name)))
      (verify_samples size source t names)

-- The tables that hold rows already.
abbrev pub not_empty_tables : List Text → Target → List Text
not_empty_tables names t = filter (λ n. not (is_nil (t.rows n))) names

-- The target before the first table is copied, or the tables that are in the way.
abbrev pub prepared : Args → List Text → Target → Outcome Target
prepared a names t =
    if a.truncate
    then (if a.dry_run then done t else truncate_tables names t)
    else elim (not_empty_tables names t) [ [] ↦ done t | n ∷ ns ↦ failed (not_empty n) ]

abbrev pub verified :
    Args
    → (Text → List Row)
    → List Text
    → Outcome (List TableSummary) × Target
    → Outcome (List TableSummary) × Target
verified a source names (failed e, t) = (failed e, t)
verified a source names (done summaries, t) =
    if a.dry_run || not a.verify
    then (done summaries, t)
    else elim (and_then (verify_counts source t names) (verify_samples 10 source t names)) [
      | failed e ↦ (failed e, t)
      | done u ↦ (done summaries, t)
    ]

abbrev pub run_prepared :
    Args
    → (Text → Bool)
    → (Text → List Row)
    → List Text
    → Outcome Target
    → Target
    → Outcome (List TableSummary) × Target
run_prepared a inserts source names (failed e) t = (failed e, t)
run_prepared a inserts source names (done start) t =
    verified a source names (migrate_tables a inserts source names start)

abbrev pub run_valid :
    Args
    → (Text → Bool)
    → (Text → List Row)
    → List Text
    → Outcome (Unit {0})
    → Target
    → Outcome (List TableSummary) × Target
run_valid a inserts source names (failed e) t = (failed e, t)
run_valid a inserts source names (done u) t =
    run_prepared a inserts source names (prepared a names t) t

abbrev pub run_selected :
    Args
    → (Text → Bool)
    → (Text → List Row)
    → Outcome (List Text)
    → Target
    → Outcome (List TableSummary) × Target
run_selected a inserts source (failed e) t = (failed e, t)
run_selected a inserts source (done names) t =
    run_valid a inserts source names (validate_table_selection dependencies names) t

-- `main`, from the choice of the tables on.
unfoldable pub migrate :
    Args → (Text → Bool) → (Text → List Row) → Target → Outcome (List TableSummary) × Target
unfolding parse_csv_list resolve_tables
migrate a inserts source t =
    run_selected a inserts source
      (resolve_tables (parse_csv_list a.include) (parse_csv_list a.exclude)) t
