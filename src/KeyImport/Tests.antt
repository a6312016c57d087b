-- ===== src/KeyImport/Tests.antt =====
-- app/core/key_import.py on a text with a comment, a key that is too short and a key with its user.
use firecrawl_manger.Prelude.{ℕ, ◌+◌, ◌≡◌, refl, not, List, [], ◌∷◌, map, All, filter, length}
use firecrawl_manger.Prelude.Text.{Text, text, split, strip}
use firecrawl_manger.KeyImport.{
  Parsed, refused, is_skipped, parse_line, parse_lines, parse_keys_text, split_fields, iso_text,
}
use firecrawl_manger.KeyImport.Laws.{IsUsable, parse_keys_text_accounts}

abbrev no_dates : Text → Parsed ℕ
no_dates s = refused "Invalid isoformat string"

abbrev lines : List Text
lines = text "# keys" ∷ text "fc-1" ∷ text " user | fc-0123456789" ∷ []

imported : map (λ i. i.api_key) (parse_keys_text no_dates lines).0 ≡ text "fc-0123456789" ∷ []
unfolding parse_keys_text parse_lines parse_line split_fields split strip
imported = refl

short : map (λ f. f.line_no) (parse_keys_text no_dates lines).1 ≡ 2 ∷ []
unfolding parse_keys_text parse_lines parse_line split_fields split strip
short = refl

dates : iso_text (text "2025-01-02 03:04") ≡ text "2025-01-02T03:04"
unfolding iso_text
dates = refl

parse_keys_text_accounts_example :
    let after = parse_keys_text no_dates lines in
    (length after.0 + length after.1 ≡ length (filter (λ raw. not (is_skipped raw)) lines))
    × All IsUsable after.0
parse_keys_text_accounts_example = parse_keys_text_accounts no_dates lines
