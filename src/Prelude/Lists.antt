-- ===== src/Prelude/Lists.antt =====
-- Lists measured by native numbers, and the tests and filters of the program's queries.
use Prim.Native.Nat.{ℕ, zero, suc, ◌+◌, ◌<◌}
use mathlib.Core.Path.{◌≡◌, refl, ap}
use mathlib.Core.Logic.{◌≢◌, inl, inr}
use mathlib.Core.Bool.{Bool, true, false, ◌||◌}
use mathlib.Core.List.{List, [], ◌∷◌, ◌++◌, map}
use mathlib.Core.Option as Option
use mathlib.Core.Option.{Option, none, some}
use native.Mathlib.Omega.{arith}
use firecrawl_manger.Prelude.Tests.{Bool-cases, if◌then◌else◌}

module _ {ℓ} {A : Type ℓ} where
  abbrev pub length : List A → ℕ
  length [] = 0
  length (x ∷ xs) = suc (length xs)

  abbrev pub get_elem? : List A → ℕ → Option A
  get_elem? [] i = none
  get_elem? (x ∷ xs) zero = some x
  get_elem? (x ∷ xs) (suc i) = get_elem? xs i

  abbrev pub take : ℕ → List A → List A
  take zero xs = []
  take (suc n) [] = []
  take (suc n) (x ∷ xs) = x ∷ take n xs

  abbrev pub drop : ℕ → List A → List A
  drop zero xs = xs
  drop (suc n) [] = []
  drop (suc n) (x ∷ xs) = drop n xs

  -- `any(p(x) for x in xs)`
  abbrev pub any : (A → Bool) → List A → Bool
  any p [] = false
  any p (x ∷ xs) = p x || any p xs

  -- The rows of a query with a condition.
  abbrev pub filter : (A → Bool) → List A → List A
  filter p [] = []
  filter p (x ∷ xs) = if p x then x ∷ filter p xs else filter p xs

  -- `.first()` of a query, or the row that a unique column names.
  abbrev pub find : (A → Bool) → List A → Option A
  find p [] = none
  find p (x ∷ xs) = if p x then some x else find p xs

  -- Every element has the property.
  abbrev pub All {κ} : (A → Type κ) → List A → Type κ
  All P [] = Unit
  All P (x ∷ xs) = P x × All P xs

  pub length-append : (xs ys : List A) → length (xs ++ ys) ≡ length xs + length ys
  length-append [] ys = omega arith
  length-append (x ∷ xs) ys = omega (arith, length-append xs ys)

  pub take-append-drop : (n : ℕ) (xs : List A) → take n xs ++ drop n xs ≡ xs
  take-append-drop zero xs = refl
  take-append-drop (suc n) [] = refl
  take-append-drop (suc n) (x ∷ xs) = rw (take-append-drop n xs)

module _ {ℓ} {A : Type ℓ} where
  -- A write out of bounds changes nothing.
  abbrev pub set : List A → ℕ → A → List A
  set [] i v = []
  set (x ∷ xs) zero v = v ∷ xs
  set (x ∷ xs) (suc i) v = x ∷ set xs i v

  pub length-set : (xs : List A) (i : ℕ) (v : A) → length (set xs i v) ≡ length xs
  length-set [] i v = refl
  length-set (x ∷ xs) zero v = refl
  length-set (x ∷ xs) (suc i) v = ap suc (length-set xs i v)

  pub get_elem?-set_self :
      (xs : List A) (i : ℕ) (v : A) → i < length xs → get_elem? (set xs i v) i ≡ some v
  get_elem?-set_self [] i v h = elim h [ ]
  get_elem?-set_self (x ∷ xs) zero v h = refl
  get_elem?-set_self (x ∷ xs) (suc i) v h = get_elem?-set_self xs i v (omega arith)

  pub get_elem?-set_ne :
      (xs : List A) (i j : ℕ) (v : A) → i ≢ j → get_elem? (set xs i v) j ≡ get_elem? xs j
  get_elem?-set_ne [] i j v h = refl
  get_elem?-set_ne (x ∷ xs) zero zero v h = absurd (h refl)
  get_elem?-set_ne (x ∷ xs) zero (suc j) v h = refl
  get_elem?-set_ne (x ∷ xs) (suc i) zero v h = refl
  get_elem?-set_ne (x ∷ xs) (suc i) (suc j) v h = get_elem?-set_ne xs i j v (λ e. h (ap suc e))

  pub get_elem?-some : (xs : List A) (i : ℕ) → i < length xs → (x : A) × (get_elem? xs i ≡ some x)
  get_elem?-some [] i h = elim h [ ]
  get_elem?-some (x ∷ xs) zero h = (x, refl)
  get_elem?-some (x ∷ xs) (suc i) h = get_elem?-some xs i (omega arith)

-- A change that the test does not see commutes with the query.
pub find-map {ℓ} :
    {A : Type ℓ} (p : A → Bool) (f : A → A)
    → ((x : A) → p (f x) ≡ p x)
    → (xs : List A) → find p (map f xs) ≡ Option.map f (find p xs)
find-map p f keeps [] = refl
find-map p f keeps (x ∷ xs) =
    rw (keeps x)
      (elim (Bool-cases (p x)) [ inl e ↦ rw e refl | inr e ↦ rw e (find-map p f keeps xs) ])

pub find_passes {ℓ} :
    {A : Type ℓ} (p : A → Bool) (y : A) (xs : List A) → find p xs ≡ some y → p y ≡ true
find_passes p y [] h = absurd (ground arith)
find_passes p y (x ∷ xs) h = by_test (p x) refl (find_passes p y xs) h
  where
    by_test :
        (t : Bool)
        → p x ≡ t
        → (find p xs ≡ some y → p y ≡ true)
        → (if t then some x else find p xs) ≡ some y
        → p y ≡ true
    by_test true e later k = cc
    by_test false e later k = later k

-- A filter that keeps the row keeps it the first.
pub find-filter {ℓ} :
    {A : Type ℓ} (p keeps : A → Bool) (y : A) (xs : List A)
    → find p xs ≡ some y
    → keeps y ≡ true
    → find p (filter keeps xs) ≡ some y
find-filter p keeps y [] h k = absurd (ground arith)
find-filter p keeps y (x ∷ xs) h k = by_tests (p x) (keeps x) refl refl h (find-filter p keeps y xs)
  where
    by_tests :
        (t u : Bool)
        → p x ≡ t
        → keeps x ≡ u
        → (if t then some x else find p xs) ≡ some y
        → (find p xs ≡ some y → keeps y ≡ true → find p (filter keeps xs) ≡ some y)
        → find p (if u then x ∷ filter keeps xs else filter keeps xs) ≡ some y
    by_tests true true e d h' later = rw e h'
    by_tests true false e d h' later = absurd cc
    by_tests false true e d h' later = rw e (later h' k)
    by_tests false false e d h' later = later h' k

pub find-append {ℓ} :
    {A : Type ℓ} (p : A → Bool) (y : A) (xs : List A)
    → find p xs ≡ none
    → p y ≡ true
    → find p (xs ++ (y ∷ [])) ≡ some y
find-append p y [] h k = rw k refl
find-append p y (x ∷ xs) h k = by_test (p x) refl h (find-append p y xs)
  where
    by_test :
        (t : Bool)
        → p x ≡ t
        → (if t then some x else find p xs) ≡ none
        → (find p xs ≡ none → p y ≡ true → find p (xs ++ (y ∷ [])) ≡ some y)
        → (if t then some x else find p (xs ++ (y ∷ []))) ≡ some y
    by_test true e h' later = absurd (ground arith)
    by_test false e h' later = later h' k

-- What is kept passed the test, and what held of all holds of what is kept.
pub filter-All {ℓ κ} :
    {A : Type ℓ} (P : A → Type κ) (keeps : A → Bool) (xs : List A)
    → ((x : A) → keeps x ≡ true → P x)
    → All P (filter keeps xs)
filter-All P keeps [] h = tt
filter-All P keeps (x ∷ xs) h = elim (Bool-cases (keeps x)) [
  | inl e ↦ rw e (h x e, filter-All P keeps xs h)
  | inr e ↦ rw e (filter-All P keeps xs h)
]

pub All-filter {ℓ κ} :
    {A : Type ℓ} (P : A → Type κ) (keeps : A → Bool) (xs : List A)
    → All P xs
    → All P (filter keeps xs)
All-filter P keeps [] h = tt
All-filter P keeps (x ∷ xs) h = elim (Bool-cases (keeps x)) [
  | inl e ↦ rw e (h.0, All-filter P keeps xs h.1)
  | inr e ↦ rw e (All-filter P keeps xs h.1)
]

pub All-append {ℓ κ} :
    {A : Type ℓ} (P : A → Type κ) (xs ys : List A) → All P xs → All P ys → All P (xs ++ ys)
All-append P [] ys hx hy = hy
All-append P (x ∷ xs) ys hx hy = (hx.0, All-append P xs ys hx.1 hy)

pub filter-append {ℓ} :
    {A : Type ℓ} (p : A → Bool) (xs ys : List A) → filter p (xs ++ ys) ≡ filter p xs ++ filter p ys
filter-append p [] ys = refl
filter-append p (x ∷ xs) ys = elim (Bool-cases (p x)) [
  | inl e ↦ rw e (ap (λ l. x ∷ l) (filter-append p xs ys))
  | inr e ↦ rw e (filter-append p xs ys)
]

pub filter_comm {ℓ} :
    {A : Type ℓ} (p q : A → Bool) (xs : List A) → filter p (filter q xs) ≡ filter q (filter p xs)
filter_comm p q [] = refl
filter_comm p q (x ∷ xs) = elim (Bool-cases (p x)) [
  | inl e ↦ elim (Bool-cases (q x)) [
    | inl d ↦ rw (d, e, d) (ap (λ l. x ∷ l) (filter_comm p q xs))
    | inr d ↦ rw (d, e, d) (filter_comm p q xs)
  ]
  | inr e ↦ elim (Bool-cases (q x)) [
    | inl d ↦ rw (d, e) (filter_comm p q xs)
    | inr d ↦ rw (d, e) (filter_comm p q xs)
  ]
]

-- A test that a stronger one implies needs no filter of its own.
pub filter_absorbs {ℓ} :
    {A : Type ℓ} (p q : A → Bool) (xs : List A)
    → ((x : A) → p x ≡ true → q x ≡ true)
    → filter p (filter q xs) ≡ filter p xs
filter_absorbs p q [] h = refl
filter_absorbs p q (x ∷ xs) h = elim (Bool-cases (q x)) [
  | inl d ↦ elim (Bool-cases (p x)) [
    | inl e ↦ rw (d, e) (ap (λ l. x ∷ l) (filter_absorbs p q xs h))
    | inr e ↦ rw (d, e) (filter_absorbs p q xs h)
  ]
  | inr d ↦ elim (Bool-cases (p x)) [
    | inl e ↦ absurd (bool_clash (q x) (h x e) d)
    | inr e ↦ rw (d, e) (filter_absorbs p q xs h)
  ]
]
  where
    bool_clash : (b : Bool) → b ≡ true → b ≡ false → ⊥
    bool_clash b h k = ground arith

pub filter-none {ℓ} :
    {A : Type ℓ} (p : A → Bool) (xs : List A) → All (λ x. p x ≡ false) xs → filter p xs ≡ []
filter-none p [] h = refl
filter-none p (x ∷ xs) h = rw h.0 (filter-none p xs h.1)

pub All-imp {ℓ κ κ'} :
    {A : Type ℓ} (P : A → Type κ) (Q : A → Type κ') (xs : List A)
    → ((x : A) → P x → Q x)
    → All P xs
    → All Q xs
All-imp P Q [] f h = tt
All-imp P Q (x ∷ xs) f h = (f x h.0, All-imp P Q xs f h.1)
