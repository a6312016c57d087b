-- ===== src/Migrate/Whole.antt =====
-- A migration of app/tools/migrate_sqlite_to_postgres.py as a whole.
use firecrawl_manger.Prelude.{
  ◌≡◌, refl, subst, ap, ◌∙◌, Bool, true, false, not, Option, List, [], ◌∷◌, ◌++◌, arith, inl, inr,
  ◌⊎◌, All, map, filter, Bool-cases, if-elim, ==-refl, nat_equality,
}
use firecrawl_manger.Prelude.Text.{Text, text_equality}
use firecrawl_manger.Migrate.{
  Row, Target, Outcome, done, Args, validate_table_selection, dependencies, resolve_tables,
  table_order, or_empty, is_included, is_nil, truncated, parse_csv_list, has,
}
use firecrawl_manger.Migrate.Main.{
  not_empty_tables, prepared, verified, run_prepared, run_valid, run_selected, migrate,
}
use firecrawl_manger.Migrate.Copies.{
  summary_of, copied_all, Distinct, IsCopied, copied_all-IsCopied, copied_all-other,
  migrate_tables_copies,
}
use firecrawl_manger.Migrate.Verified.{IsKeyed, verified_done}

filter-has :
    (p : Text → Bool) (names : List Text) (n : Text)
    → has names n ≡ false
    → has (filter p names) n ≡ false
filter-has p [] n h = refl
filter-has p (name ∷ names) n h = elim (Bool-cases (p name)) [
  | inl kept ↦ rw kept (ground (arith, filter-has p names n))
  | inr out ↦ rw out (filter-has p names n (ground arith))
]

filter-Distinct : (p : Text → Bool) (names : List Text) → Distinct names → Distinct (filter p names)
filter-Distinct p [] d = tt
filter-Distinct p (name ∷ names) d = elim (Bool-cases (p name)) [
  | inl kept ↦ rw kept (filter-has p names name d.0, filter-Distinct p names d.1)
  | inr out ↦ rw out (filter-Distinct p names d.1)
]

-- The tables that are chosen are different ones.
resolve_tables-Distinct :
    (include exclude : Option (List Text)) (names : List Text)
    → resolve_tables include exclude ≡ done names
    → Distinct names
unfolding resolve_tables
resolve_tables-Distinct include exclude names h =
    let tables : List Text =
      filter (λ t. not (has (or_empty exclude) t)) (filter (is_included include) table_order) in
    let distinct : Distinct tables =
      filter-Distinct (λ t. not (has (or_empty exclude) t))
        (filter (is_included include) table_order)
        (filter-Distinct (is_included include) table_order
          (refl, (refl, (refl, (refl, (refl, tt)))))) in
    let chosen : Outcome (List Text) → Type 0 = λ o. o ≡ done names → Distinct names in
    if-elim chosen
      (not (is_nil (filter (λ t. not (has table_order t)) (or_empty include ++ or_empty exclude))))
      _ _ (λ unknown e. cc)
      (λ _.
        if-elim chosen (is_nil tables) _ _ (λ none' e. cc) (λ _ e. subst Distinct (cc) distinct))
      h

truncated_empty :
    (all names : List Text) (t : Target)
    → ((n : Text) → has names n ≡ true → has all n ≡ true)
    → All (λ n. (truncated all t).rows n ≡ []) names
truncated_empty all [] t h = tt
truncated_empty all (name ∷ names) t h = (
  rw (h name (rw (==-refl name) refl)) refl,
  truncated_empty all names t (λ n there. h n (ground (arith, there))),
)

already_empty :
    (names : List Text) (t : Target)
    → not_empty_tables names t ≡ []
    → All (λ n. t.rows n ≡ []) names
already_empty [] t h = tt
already_empty (name ∷ names) t h = elim (Bool-cases (is_nil (t.rows name))) [
  | inl none' ↦ (is_nil-eq (t.rows name) none', already_empty names t (rw none' at h))
  | inr some' ↦ absurd (no_cons (rw some' at h))
]
  where
    is_nil-eq : (rows : List Row) → is_nil rows ≡ true → rows ≡ []
    is_nil-eq [] e = refl
    is_nil-eq (r ∷ rows) e = cc

    no_cons : {n : Text} {ns : List Text} → (n ∷ ns) ≡ [] → ⊥
    no_cons e = cc

-- The target before the first table: the chosen tables are empty, and the others as they were.
record Start (a : Args) (names : List Text) (t start : Target) : Type 0 where
  ready : prepared a names t ≡ done start
  empty : All (λ n. start.rows n ≡ []) names
  others : (n : Text) → has names n ≡ false → start.rows n ≡ t.rows n

starts_truncated :
    (a : Args) (names : List Text) (t : Target)
    → a.dry_run ≡ false
    → a.truncate ≡ true
    → t.accepts_truncate names ≡ true
    → (start : Target) × Start a names t start
starts_truncated a names t real truncate accepted = (
  truncated names t,
  record {
    ready = rw (truncate, real, accepted) refl;
    empty = truncated_empty names names t (λ n there. there);
    others = λ n other. rw other refl;
  },
)

starts :
    (a : Args) (names : List Text) (t : Target)
    → a.dry_run ≡ false
    → (a.truncate ≡ true) ⊎ (not_empty_tables names t ≡ [])
    → (a.truncate ≡ true → t.accepts_truncate names ≡ true)
    → (start : Target) × Start a names t start
starts a names t real (inl truncate) accepts =
    starts_truncated a names t real truncate (accepts truncate)
starts a names t real (inr free) accepts = elim (Bool-cases a.truncate) [
  | inl truncate ↦ starts_truncated a names t real truncate (accepts truncate)
  | inr keep ↦ (
    t,
    record {
      ready = rw (keep, free) refl;
      empty = already_empty names t free;
      others = λ n other. refl;
    },
  )
]

-- A migration that is not a dry run, whose choice of tables is accepted, and whose target's tables
-- are empty or are to be truncated, ends well if the insertions go through, and the TRUNCATE too where
-- one is asked for: for any size of a batch,
-- every chosen table has the rows of its source, in order and no others, the next id is past all of
-- them, the verification accepts the result, and the tables that were not chosen keep their rows. The
-- rows of the source have different ids and no empty ciphertext.
pub migrate_copies :
    (a : Args) (inserts : Text → Bool) (source : Text → List Row) (t : Target) (names : List Text)
    → a.dry_run ≡ false
    → ((n : Text) → inserts n ≡ true)
    → resolve_tables (parse_csv_list a.include) (parse_csv_list a.exclude) ≡ done names
    → validate_table_selection dependencies names ≡ done tt
    → (a.truncate ≡ true) ⊎ (not_empty_tables names t ≡ [])
    → (a.truncate ≡ true → t.accepts_truncate names ≡ true)
    → All (λ n. IsKeyed (source n)) names
    → (t' : Target) × (migrate a inserts source t ≡ (done (map (summary_of source) names), t'))
      × All (IsCopied source t') names
      × ((n : Text) → has names n ≡ false → t'.rows n ≡ t.rows n)
unfolding migrate
migrate_copies a inserts source t names real accepted chosen valid room accepts keyed =
    let (start, s) = starts a names t real room accepts in
    let t' = copied_all source names start in
    let distinct =
      resolve_tables-Distinct (parse_csv_list a.include) (parse_csv_list a.exclude) names chosen in
    let copies = copied_all-IsCopied source names start distinct in
    (
      t',
      ap (λ o. run_selected a inserts source o t) chosen
          ∙ ap (λ o. run_valid a inserts source names o t) valid
          ∙ ap (λ o. run_prepared a inserts source names o t) s.ready
          ∙ ap (verified a source names)
              (migrate_tables_copies a inserts source real accepted names start distinct s.empty)
          ∙ verified_done a source names (map (summary_of source) names) t' copies keyed,
      copies,
      λ n other. (copied_all-other source names n start other).0 ∙ s.others n other,
    )
