-- ===== src/Migrate/Verified.antt =====
-- What the verification of app/tools/migrate_sqlite_to_postgres.py accepts.
use firecrawl_manger.Prelude.{
  ℕ, zero, suc, ◌≡◌, refl, sym, subst, ap, ◌∙◌, true, not, ◌||◌, some, List, [], ◌∷◌, All, take,
  length, if-elim, ==-refl, nat_equality,
}
use firecrawl_manger.Prelude.Text.{Text, text_equality}
use firecrawl_manger.Migrate.{Cell, null, bytes, plain, Row, Target, done, Args, TableSummary}
use firecrawl_manger.Migrate.Main.{
  same_ciphertext, same_cell, is_ciphertext, agrees, agrees_all, find_row, verify_counts,
  verify_rows, verify_samples, and_then, columns_of, verified,
}
use firecrawl_manger.Migrate.Copies.{IsCopied}

-- A ciphertext is missing, or bytes that are not empty.
abbrev pub IsSealed : Cell → Type 0
IsSealed cell = same_ciphertext cell cell ≡ true

-- Each row of a table is the one with its id, and its ciphertexts are sealed.
abbrev pub IsKeyed : List Row → Type 0
IsKeyed rows =
    All
      (λ r.
        (find_row r.id rows ≡ some r)
        × ((c : Text) → is_ciphertext c ≡ true → IsSealed (r.cells c)))
      rows

same_cell_refl : (cell : Cell) → same_cell cell cell ≡ true
same_cell_refl null = refl
same_cell_refl (bytes b) = ==-refl b
same_cell_refl (plain s) = ==-refl s

agrees_refl :
    (r : Row) (c : Text)
    → ((c : Text) → is_ciphertext c ≡ true → IsSealed (r.cells c))
    → agrees r r c ≡ true
agrees_refl r c h =
    if-elim (λ b. b ≡ true) (is_ciphertext c) _ _ (h c) (λ open'. same_cell_refl (r.cells c))

agrees_all_refl :
    (r : Row) (columns : List Text)
    → ((c : Text) → is_ciphertext c ≡ true → IsSealed (r.cells c))
    → agrees_all r r columns ≡ true
agrees_all_refl r [] h = refl
agrees_all_refl r (c ∷ columns) h = rw (agrees_refl r c h) (agrees_all_refl r columns h)

take-All {ℓ κ} : {A : Type ℓ} (P : A → Type κ) (n : ℕ) (xs : List A) → All P xs → All P (take n xs)
take-All P zero xs h = tt
take-All P (suc n) [] h = tt
take-All P (suc n) (x ∷ xs) h = (h.0, take-All P n xs h.1)

verify_rows_done :
    (name : Text) (columns : List Text) (target rows : List Row)
    → All
        (λ r.
          (find_row r.id target ≡ some r)
          × ((c : Text) → is_ciphertext c ≡ true → IsSealed (r.cells c)))
        rows
    → verify_rows name columns target rows ≡ done tt
unfolding verify_rows
verify_rows_done name columns target [] h = refl
verify_rows_done name columns target (r ∷ rows) h =
    rw (h.0.0, agrees_all_refl r columns h.0.1) (verify_rows_done name columns target rows h.1)

pub verify_counts_done :
    (source : Text → List Row) (t : Target) (names : List Text)
    → All (IsCopied source t) names
    → verify_counts source t names ≡ done tt
unfolding verify_counts
verify_counts_done source t [] h = refl
verify_counts_done source t (name ∷ names) h =
    rw (h.0.rows, ==-refl (length (source name))) (verify_counts_done source t names h.1)

pub verify_samples_done :
    (size : ℕ) (source : Text → List Row) (t : Target) (names : List Text)
    → All (IsCopied source t) names
    → All (λ n. IsKeyed (source n)) names
    → verify_samples size source t names ≡ done tt
unfolding verify_samples
verify_samples_done size source t [] h k = refl
verify_samples_done size source t (name ∷ names) h k =
    ap (λ o. and_then o (verify_samples size source t names))
      (verify_rows_done name (columns_of name) (t.rows name) (take size (source name)) (
        take-All _ size (source name) (
          subst
            (λ rows.
              All
                (λ r.
                  (find_row r.id rows ≡ some r)
                  × ((c : Text) → is_ciphertext c ≡ true → IsSealed (r.cells c)))
                (source name))
            (sym h.0.rows) k.0)))
    ∙ verify_samples_done size source t names h.1 k.1

pub verified_done :
    (a : Args) (source : Text → List Row) (names : List Text) (summaries : List TableSummary)
    (t : Target)
    → All (IsCopied source t) names
    → All (λ n. IsKeyed (source n)) names
    → verified a source names (done summaries, t) ≡ (done summaries, t)
verified_done a source names summaries t h k =
    if-elim (λ r. r ≡ (done summaries, t)) (a.dry_run || not a.verify) _ _ (λ skipped. refl)
      λ _. rw (verify_counts_done source t names h, verify_samples_done 10 source t names h k) refl
