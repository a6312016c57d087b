-- ===== src/KeyImport/Laws.antt =====
-- What becomes of the lines that app/core/key_import.py reads.
use firecrawl_manger.Prelude.{
  ℕ, ◌+◌, ◌≤◌, ◌≡◌, refl, ap, suc, not, List, [], ◌∷◌, arith, inl, inr, All, Bool-cases, filter,
  length, ltb, ◌==◌,
}
use firecrawl_manger.Prelude.Text.{Text, text_equality, strip}
use firecrawl_manger.KeyImport.{
  ParsedKeyLine, ParseFailure, Parsed, parsed, refused, Fields, checked, parse_line, is_skipped,
  add_line, parse_lines, parse_keys_text, fields_of, split_fields,
}

abbrev pub IsUsable : ParsedKeyLine → Type 0
IsUsable item = 8 ≤ length item.api_key

-- A line that is refused says so; one that is not has a usable key.
abbrev pub IsSound : Parsed ParsedKeyLine → Type 0
IsSound (refused message) = Unit
IsSound (parsed item) = IsUsable item

checked-IsSound : (line_no : ℕ) (raw : Text) (f : Parsed Fields) → IsSound (checked line_no raw f)
checked-IsSound line_no raw (refused message) = tt
checked-IsSound line_no raw (parsed f) = elim (Bool-cases (ltb (length (strip f.api_key)) 8)) [
  | inl short ↦ rw short tt
  | inr long ↦ rw long (ground arith)
]

add_line-IsSound :
    (p : Parsed ParsedKeyLine) (line_no : ℕ) (raw : Text)
    (rest : List ParsedKeyLine × List ParseFailure)
    → IsSound p
    → All IsUsable rest.0
    → All IsUsable (add_line p line_no raw rest).0
add_line-IsSound (refused message) line_no raw (items, failures) s all = all
add_line-IsSound (parsed item) line_no raw (items, failures) s all = (s, all)

add_line-length :
    (p : Parsed ParsedKeyLine) (line_no : ℕ) (raw : Text)
    (rest : List ParsedKeyLine × List ParseFailure)
    → let after = add_line p line_no raw rest in
      length after.0 + length after.1 ≡ suc (length rest.0 + length rest.1)
add_line-length (refused message) line_no raw (items, failures) = ground arith
add_line-length (parsed item) line_no raw (items, failures) = ground arith

parse_lines-All :
    (from : Text → Parsed ℕ) (line_no : ℕ) (lines : List Text)
    → All IsUsable (parse_lines from line_no lines).0
unfolding parse_lines parse_line
parse_lines-All from line_no [] = tt
parse_lines-All from line_no (raw ∷ lines) = elim (Bool-cases (is_skipped raw)) [
  | inl skipped ↦ rw skipped (parse_lines-All from (line_no + 1) lines)
  | inr read ↦ rw read (
      add_line-IsSound _ line_no raw _
        (checked-IsSound line_no raw
          (fields_of from (filter (λ p. not (p == [])) (split_fields (strip raw)))))
        (parse_lines-All from (line_no + 1) lines))
]

parse_lines-length :
    (from : Text → Parsed ℕ) (line_no : ℕ) (lines : List Text)
    → let after = parse_lines from line_no lines in
      length after.0 + length after.1 ≡ length (filter (λ raw. not (is_skipped raw)) lines)
unfolding parse_lines parse_line
parse_lines-length from line_no [] = refl
parse_lines-length from line_no (raw ∷ lines) = elim (Bool-cases (is_skipped raw)) [
  | inl skipped ↦ rw skipped (parse_lines-length from (line_no + 1) lines)
  | inr read ↦
      rw (read, add_line-length (parse_line from line_no raw) line_no raw _)
        (ap suc (parse_lines-length from (line_no + 1) lines))
]

-- Every line that is neither empty nor a comment becomes either an item or a failure, and each item has
-- a key of at least eight characters, however the dates are read.
pub parse_keys_text_accounts :
    (from : Text → Parsed ℕ) (lines : List Text)
    → let after = parse_keys_text from lines in
      (length after.0 + length after.1 ≡ length (filter (λ raw. not (is_skipped raw)) lines))
      × All IsUsable after.0
unfolding parse_keys_text
parse_keys_text_accounts from lines =
    (parse_lines-length from 1 lines, parse_lines-All from 1 lines)
