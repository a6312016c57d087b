-- ===== src/Prelude/Text.antt =====
-- Texts that the program walks through, as the code points of their characters.
use Prim.Native.Char.{code}
use Prim.Native.Nat.{ℕ, ◌+◌}
use Prim.Native.String.{String}
use mathlib.Core.Path.{◌≡◌, refl}
use mathlib.Core.Logic.{◌↔◌, inl, inr}
use mathlib.Core.Bool.{Bool, true, false, ◌&&◌, ◌||◌}
use mathlib.Core.Option as Option
use mathlib.Core.Option.{Option, none, some}
use mathlib.Core.List.{List, [], ◌∷◌, ◌++◌}
use native.Mathlib.Omega.{arith}
use firecrawl_manger.Prelude.Tests.{Bool-cases, Equality, eqb_nat, leb, if◌then◌else◌}

abbrev pub Text : Type 0
Text = List ℕ

abbrev pub text : String → Text
text String.[] = []
text (String.◌∷◌ c s) = code c ∷ text s

abbrev pub text_beq : Text → Text → Bool
text_beq [] [] = true
text_beq (a ∷ s) (b ∷ t) = eqb_nat a b && text_beq s t
text_beq _ _ = false

-- `s.startswith(p)`
abbrev pub starts_with : Text → Text → Bool
starts_with [] s = true
starts_with (a ∷ p) [] = false
starts_with (a ∷ p) (b ∷ s) = eqb_nat a b && starts_with p s

-- `p in s`
abbrev pub occurs_in : Text → Text → Bool
occurs_in p [] = starts_with p []
occurs_in p (b ∷ s) = starts_with p (b ∷ s) || occurs_in p s

-- `s.split(c, 1)[0]`: what stands before the first `c`.
abbrev pub before : ℕ → Text → Text
before c [] = []
before c (b ∷ s) = if eqb_nat b c then [] else b ∷ before c s

abbrev extend_first : ℕ → List Text → List Text
extend_first b [] = (b ∷ []) ∷ []
extend_first b (w ∷ ws) = (b ∷ w) ∷ ws

-- `s.split(c)`
unfoldable pub split : ℕ → Text → List Text
split c [] = [] ∷ []
split c (b ∷ s) = let rest = split c s in if eqb_nat b c then [] ∷ rest else extend_first b rest

-- `c.join(words)`
abbrev pub join : ℕ → List Text → Text
join c [] = []
join c (w ∷ []) = w
join c (w ∷ x ∷ ws) = w ++ (c ∷ join c (x ∷ ws))

-- `str.isspace` of one character.
abbrev pub is_space : ℕ → Bool
is_space c =
    between 9 13 c
    || between 28 32 c
    || eqb_nat c 133
    || eqb_nat c 160
    || eqb_nat c 5760
    || between 8192 8202 c
    || between 8232 8233 c
    || eqb_nat c 8239
    || eqb_nat c 8287
    || eqb_nat c 12288
  where
    between : ℕ → ℕ → ℕ → Bool
    between a b n = leb a n && leb n b

abbrev lstrip : Text → Text
lstrip [] = []
lstrip (c ∷ s) = let rest = lstrip s in if is_space c then rest else c ∷ s

abbrev keep_char : ℕ → Text → Text
keep_char c [] = if is_space c then [] else c ∷ []
keep_char c (d ∷ s) = c ∷ d ∷ s

abbrev rstrip : Text → Text
rstrip [] = []
rstrip (c ∷ s) = keep_char c (rstrip s)

-- `s.strip()`
unfoldable pub strip : Text → Text
strip s = rstrip (lstrip s)

abbrev keep_unless : ℕ → ℕ → Text → Text
keep_unless d c [] = if eqb_nat c d then [] else c ∷ []
keep_unless d c (b ∷ s) = c ∷ b ∷ s

-- `s.rstrip(d)` of one character.
unfoldable pub rstrip_char : ℕ → Text → Text
rstrip_char d [] = []
rstrip_char d (c ∷ s) = keep_unless d c (rstrip_char d s)

-- `s.endswith(p)`
abbrev pub ends_with : Text → Text → Bool
ends_with p [] = text_beq p []
ends_with p (c ∷ s) = text_beq p (c ∷ s) || ends_with p s

abbrev before_first : ℕ → Text × Text → Text × Text
before_first c (s, t) = (c ∷ s, t)

-- `s.split(c, 1)`, where it has two parts.
unfoldable pub split_once : ℕ → Text → Option (Text × Text)
split_once c [] = none
split_once c (b ∷ s) =
    let rest = split_once c s in
    if eqb_nat b c then some ([], s) else Option.map (before_first b) rest

-- `s.lower()`, where only the letters from A to Z matter.
abbrev pub lower : Text → Text
lower [] = []
lower (c ∷ s) = (if leb 65 c && leb c 90 then c + 32 else c) ∷ lower s

pub text_beq_iff : (s t : Text) → (text_beq s t ≡ true) ↔ (s ≡ t)
text_beq_iff [] [] = ground arith
text_beq_iff [] (b ∷ t) = ground arith
text_beq_iff (a ∷ s) [] = ground arith
text_beq_iff (a ∷ s) (b ∷ t) = ground (arith, text_beq_iff s t)

instance abbrev pub text_equality : Equality Text
text_equality = record { test = text_beq; test_iff = text_beq_iff }

-- A text is always split into at least one part.
pub split-ne-nil : (c : ℕ) (s : Text) → (w : Text) × (ws : List Text) × (split c s ≡ w ∷ ws)
unfolding split
split-ne-nil c [] = ([], [], refl)
split-ne-nil c (b ∷ s) = elim (Bool-cases (eqb_nat b c)) [
  | inl e ↦ ([], split c s, rw (e, split) refl)
  | inr e ↦ let (w, ws, h) = split-ne-nil c s in (b ∷ w, ws, rw (e, split, h) refl)
]
