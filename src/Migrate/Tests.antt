-- ===== src/Migrate/Tests.antt =====
-- A migration of app/tools/migrate_sqlite_to_postgres.py of three clients in batches of two.
use firecrawl_manger.Prelude.{
  ℕ, ◌≡◌, refl, true, false, none, some, List, [], ◌∷◌, map, All, inr, if◌then◌else◌,
}
use firecrawl_manger.Prelude.Int.{pos}
use firecrawl_manger.Prelude.Text.{Text, text, text_beq, split, strip}
use firecrawl_manger.Migrate.{
  null, Row, Target, Args, done, failed, missing_dependencies, has, parse_csv_list, resolve_tables,
  validate_table_selection, dependencies,
}
use firecrawl_manger.Migrate.Main.{migrate}
use firecrawl_manger.Migrate.Copies.{summary_of, IsCopied}
use firecrawl_manger.Migrate.Whole.{migrate_copies}

abbrev row : ℕ → Row
row id = record { id = id; cells = λ c. null }

abbrev source : Text → List Row
source n = if text_beq n (text "clients") then row 1 ∷ row 2 ∷ row 7 ∷ [] else []

abbrev args : Args
args = record {
  dry_run = false;
  truncate = false;
  include = some (text "clients");
  exclude = none;
  batch_size = pos 2;
  verify = true;
}

abbrev target : Target
target = record { rows = λ n. []; sequences = λ n. (1, false); accepts_truncate = λ names. false }

chosen :
    resolve_tables (parse_csv_list (some (text "clients"))) (parse_csv_list none)
    ≡ done (text "clients" ∷ [])
unfolding resolve_tables parse_csv_list split strip
chosen = refl

valid : validate_table_selection dependencies (text "clients" ∷ []) ≡ done tt
unfolding validate_table_selection
valid = refl

-- The logs are not copied without the clients and the keys.
incomplete :
    validate_table_selection dependencies (text "request_logs" ∷ [])
    ≡ failed (missing_dependencies (text "request_logs"))
unfolding validate_table_selection
incomplete = refl

migrate_copies_example :
    (t' : Target) × (migrate args (λ n. true) source target
      ≡ (done (map (summary_of source) (text "clients" ∷ [])), t'))
    × All (IsCopied source t') (text "clients" ∷ [])
    × ((n : Text) → has (text "clients" ∷ []) n ≡ false → t'.rows n ≡ [])
migrate_copies_example =
    migrate_copies args (λ n. true) source target (text "clients" ∷ []) refl (λ n. refl) chosen
      valid (inr refl) (λ e. cc)
      (((refl, λ c e. refl), ((refl, λ c e. refl), ((refl, λ c e. refl), tt))), tt)
