-- ===== src/KeyImport.antt =====
-- app/core/key_import.py: the lines of a text with keys. `datetime.fromisoformat`, with UTC for a time
-- that has no zone, is an argument, and `str.splitlines` is done before.
pub mod Laws
mod Tests
use firecrawl_manger.Prelude.{
  ℕ, ◌+◌, ◌-◌, String, Bool, true, false, not, ◌&&◌, ◌||◌, Option, none, some, List, [], ◌∷◌, ◌++◌,
  map, any, filter, take, length, ltb, leb, ◌==◌, nat_equality, if◌then◌else◌,
}
use firecrawl_manger.Prelude.Text.{
  Text, text, text_equality, split, strip, starts_with, ends_with, is_space,
}

-- `class ParsedKeyLine`
pub record ParsedKeyLine : Type 0 where
  pub line_no : ℕ
  pub raw : Text
  pub api_key : Text
  pub account_username : Option Text
  pub account_password : Option Text
  pub account_verified_at : Option ℕ

-- `class ParseFailure`
pub record ParseFailure : Type 0 where
  pub line_no : ℕ
  pub raw : Text
  pub message : String

-- A value, or the text of an exception.
pub data Parsed {ℓ} (A : Type ℓ) : Type ℓ where
  parsed : A → Parsed A
  refused : String → Parsed A

abbrev pub has_char : ℕ → Text → Bool
has_char c s = any (λ b. b == c) s

-- `_DATE_ONLY_RE`
abbrev pub is_date_only : Text → Bool
is_date_only (a ∷ b ∷ c ∷ d ∷ e ∷ f ∷ g ∷ h ∷ i ∷ j ∷ []) =
    digits (a ∷ b ∷ c ∷ d ∷ f ∷ g ∷ i ∷ j ∷ []) && e == b'-' && h == b'-'
  where
    digits : Text → Bool
    digits s = not (any (λ c. not (leb 48 c && leb c 57)) s)
is_date_only _ = false

-- `s.replace(" ", "T", 1)`
abbrev pub replace_space : Text → Text
replace_space [] = []
replace_space (c ∷ s) = let rest = replace_space s in if c == 32 then 84 ∷ s else c ∷ rest

-- The text that `_parse_datetime_utc` gives to `fromisoformat`.
unfoldable pub iso_text : Text → Text
iso_text s =
    if is_date_only s
    then s ++ text "T00:00:00+00:00"
    else if ends_with (text "Z") s
    then take (length s - 1) s ++ text "+00:00"
    else if has_char 32 s && not (has_char 84 s) && not (has_char 43 s)
    then replace_space s
    else s

-- `_parse_datetime_utc`
unfoldable pub parse_datetime_utc : (Text → Parsed ℕ) → Text → Parsed ℕ
unfolding iso_text strip
parse_datetime_utc fromisoformat raw =
    if strip raw == [] then refused "empty datetime" else fromisoformat (iso_text (strip raw))

-- `line.split()` has the same parts, less the empty ones.
abbrev pub split_spaces : Text → List Text
split_spaces s = split 32 (map (λ c. if is_space c then 32 else c) s)

-- `_split_fields`
unfoldable pub split_fields : Text → List Text
unfolding split strip
split_fields line = map strip (
    if has_char b'|' line
    then split b'|' line
    else if has_char 9 line
    then split 9 line
    else if has_char b',' line
    then split b',' line
    else split_spaces line)

-- The fields of a line: the user, the password, the key and the time.
pub record Fields : Type 0 where
  pub username : Option Text
  pub password : Option Text
  pub api_key : Text
  pub verified_at : Option ℕ

abbrev pub fields_of : (Text → Parsed ℕ) → List Text → Parsed Fields
fields_of from (key ∷ []) =
    parsed (record { username = none; password = none; api_key = key; verified_at = none })
fields_of from (user ∷ key ∷ []) =
    parsed (record { username = some user; password = none; api_key = key; verified_at = none })
fields_of from (user ∷ pass ∷ key ∷ []) =
    parsed
      (record { username = some user; password = some pass; api_key = key; verified_at = none })
fields_of from (user ∷ pass ∷ key ∷ at ∷ []) = elim (parse_datetime_utc from at) [
  | refused message ↦ refused message
  | parsed verified ↦ parsed (record {
    username = some user;
    password = some pass;
    api_key = key;
    verified_at = some verified;
  })
]
fields_of from _ = refused "expect 1/2/3/4 fields per line"

-- `(value or "").strip() or None`
abbrev pub or_none : Option Text → Option Text
or_none none = none
or_none (some value) = if strip value == [] then none else some (strip value)

abbrev pub checked : ℕ → Text → Parsed Fields → Parsed ParsedKeyLine
checked line_no raw (refused message) = refused message
checked line_no raw (parsed f) =
    if ltb (length (strip f.api_key)) 8
    then refused "api_key too short"
    else parsed (record {
      line_no = line_no;
      raw = raw;
      api_key = strip f.api_key;
      account_username = or_none f.username;
      account_password = or_none f.password;
      account_verified_at = f.verified_at;
    })

-- The body of the loop, for a line that is not skipped.
unfoldable pub parse_line : (Text → Parsed ℕ) → ℕ → Text → Parsed ParsedKeyLine
unfolding split_fields parse_datetime_utc strip
parse_line from line_no raw =
    checked line_no raw (fields_of from (filter (λ p. not (p == [])) (split_fields (strip raw))))

abbrev pub is_skipped : Text → Bool
is_skipped raw = strip raw == [] || starts_with (text "#") (strip raw)

abbrev pub add_line :
    Parsed ParsedKeyLine
    → ℕ
    → Text
    → List ParsedKeyLine × List ParseFailure
    → List ParsedKeyLine × List ParseFailure
add_line (parsed item) line_no raw (items, failures) = (item ∷ items, failures)
add_line (refused message) line_no raw (items, failures) =
    (items, record { line_no = line_no; raw = raw; message = message } ∷ failures)

-- `parse_keys_text`, from line number `line_no` on.
unfoldable pub parse_lines :
    (Text → Parsed ℕ) → ℕ → List Text → List ParsedKeyLine × List ParseFailure
unfolding parse_line
parse_lines from line_no [] = ([], [])
parse_lines from line_no (raw ∷ lines) =
    let rest = parse_lines from (line_no + 1) lines in
    if is_skipped raw then rest else add_line (parse_line from line_no raw) line_no raw rest

unfoldable pub parse_keys_text :
    (Text → Parsed ℕ) → List Text → List ParsedKeyLine × List ParseFailure
unfolding parse_lines
parse_keys_text from lines = parse_lines from 1 lines
