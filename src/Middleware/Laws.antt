-- ===== src/Middleware/Laws.antt =====
-- Which requests app/middleware.py lets through.
use firecrawl_manger.Prelude.{
  ℕ, not, ◌&&◌, ◌||◌, ◌≢◌, String, any, drop, ◌==◌, ◌≤◌, ◌≡◌, ◌⊎◌, ◌↔◌, refl, sym, subst, ◌∙◌, Bool,
  true, false, Option, none, some, List, [], ◌∷◌, length, arith, inl, inr, Bool-cases, ge→ltb,
  string_equality,
}
use firecrawl_manger.Prelude.Int.{ℤ, pos, negsuc, clamp}
use firecrawl_manger.Prelude.Text.{Text, text, occurs_in, starts_with, before, text_equality}
use firecrawl_manger.Errors.{FcamError}
use firecrawl_manger.Middleware.{
  Limits, Incoming, is_path_allowed, is_exa_allowed, is_empty, check_length, check_body, is_read,
  dispatch, first_of,
}

-- The header says nothing, or a number that is not too large.
abbrev pub IsSmall : (Text → Option ℤ) → Limits → Text → Type 0
IsSmall int l content_length =
    (content_length ≡ []) ⊎ ((n : ℤ) × (int content_length ≡ some n) × (clamp n ≤ l.max_body_bytes))

-- There is no body, or a small one that is said to be JSON.
abbrev pub IsJson : Limits → Text → List ℕ → Type 0
IsJson l content_type body =
    (body ≡ [])
    ⊎ ((occurs_in (text "application/json") content_type ≡ true) × (length body ≤ l.max_body_bytes))

some-inj : (a b : ℤ) → Path (Option ℤ) (some a) (some b) → a ≡ b
some-inj a b h = cc

some-ne-none : (a : ℤ) → ¬ (Path (Option ℤ) (some a) none)
some-ne-none a h = ground arith

check_length-IsSmall :
    (int : Text → Option ℤ) (l : Limits) (header : Text)
    → (check_length int l header ≡ none) ↔ IsSmall int l header
unfolding check_length
check_length-IsSmall int l [] = (λ h. inl refl, λ h. refl)
check_length-IsSmall int l (c ∷ s) = by_number (int (c ∷ s)) refl
  where
    by_number :
        (o : Option ℤ)
        → int (c ∷ s) ≡ o
        → (check_length int l (c ∷ s) ≡ none) ↔ IsSmall int l (c ∷ s)
    by_number none e = (
      λ h. absurd (ground (arith, rw (check_length, e) at h)),
      λ k. elim k [
        | inl blank ↦ absurd (ground (arith, blank))
        | inr (n, f, g) ↦ absurd (some-ne-none n (sym f ∙ e))
      ],
    )
    by_number (some (negsuc n)) e =
        (λ h. inr (negsuc n, e, omega arith), λ k. rw (check_length, e) refl)
    by_number (some (pos n)) e = (
      λ h. inr (pos n, e, ground (arith, rw (check_length, e) at h)),
      λ k. elim k [
        | inl blank ↦ absurd (ground (arith, blank))
        | inr (m, f, g) ↦
            let small : n ≤ l.max_body_bytes =
              subst (λ m. clamp m ≤ l.max_body_bytes) (some-inj m (pos n) (sym f ∙ e)) g in
            rw (check_length, e, ge→ltb l.max_body_bytes n small) refl
      ],
    )

check_body-IsJson :
    (l : Limits) (content_type : Text) (body : List ℕ)
    → (check_body l content_type body ≡ none) ↔ IsJson l content_type body
unfolding check_body
check_body-IsJson l content_type [] = (λ h. inl refl, λ h. refl)
check_body-IsJson l content_type (c ∷ body) =
    elim (Bool-cases (occurs_in (text "application/json") content_type)) [
      | inr other ↦ rw other (ground arith)
      | inl json ↦ rw json (ground arith)
    ]

first_of-none : (a b : Option FcamError) → (first_of a b ≡ none) ↔ ((a ≡ none) × (b ≡ none))
first_of-none none b = (λ h. (refl, h), λ h. h.1)
first_of-none (some e) b = (λ h. absurd (ground arith), λ h. absurd (ground (arith, h.0)))

-- The first segment behind the prefix is listed, if the path has the prefix.
abbrev pub IsListed : Text → Text → List Text → Type 0
IsListed prefix path names =
    starts_with prefix path ≡ true
    → any (λ n. n == before b'/' (drop (length prefix) path)) names ≡ true

-- Below `/api/`, `/v1/` and `/v2/` the allowed paths count, and below `/exa/` those of Exa, unless they
-- are empty.
abbrev pub IsAllowed : Limits → Text → Type 0
IsAllowed l path =
    IsListed (text "/api/") path l.allowed_api_paths
    × IsListed (text "/v1/") path l.allowed_api_paths
    × IsListed (text "/v2/") path l.allowed_api_paths
    × (l.allowed_exa_paths ≢ [] → IsListed (text "/exa/") path l.allowed_exa_paths)

apart :
    (path : Text)
    → (starts_with (text "/api/") path ≡ true → starts_with (text "/v1/") path ≡ false)
      × (starts_with (text "/api/") path ≡ true → starts_with (text "/v2/") path ≡ false)
      × (starts_with (text "/v1/") path ≡ true → starts_with (text "/v2/") path ≡ false)
apart [] = (λ h. refl, λ h. refl, λ h. refl)
apart (a ∷ []) = (λ h. ground arith, λ h. ground arith, λ h. ground arith)
apart (a ∷ b ∷ []) = (λ h. ground arith, λ h. ground arith, λ h. ground arith)
apart (a ∷ b ∷ c ∷ s) = (λ h. ground arith, λ h. ground arith, λ h. ground arith)

allowed_iff :
    (l : Limits) (path : Text)
    → (is_path_allowed l path ≡ true) ↔ (
        IsListed (text "/api/") path l.allowed_api_paths
        × IsListed (text "/v1/") path l.allowed_api_paths
        × IsListed (text "/v2/") path l.allowed_api_paths)
allowed_iff l path =
    let (no_v1, no_v2, no_other) = apart path in
    elim (Bool-cases (starts_with (text "/api/") path)) [
      | inl under ↦
          rw (under, no_v1 under, no_v2 under)
            (λ h. (λ _. h, λ e. cc, λ e. cc), λ (x, y, z). x refl)
      | inr e1 ↦ elim (Bool-cases (starts_with (text "/v1/") path)) [
        | inl under ↦
            rw (e1, under, no_other under) (λ h. (λ e. cc, λ _. h, λ e. cc), λ (x, y, z). y refl)
        | inr e2 ↦ elim (Bool-cases (starts_with (text "/v2/") path)) [
          | inl under ↦ rw (e1, e2, under) (λ h. (λ e. cc, λ e. cc, λ _. h), λ (x, y, z). z refl)
          | inr e3 ↦ rw (e1, e2, e3) (λ h. (λ e. cc, λ e. cc, λ e. cc), λ h. refl)
        ]
      ]
    ]

exa_iff :
    (l : Limits) (path : Text)
    → (is_exa_allowed l path ≡ true)
      ↔ (l.allowed_exa_paths ≢ [] → IsListed (text "/exa/") path l.allowed_exa_paths)
exa_iff l path = elim (Bool-cases (starts_with (text "/exa/") path)) [
  | inr other ↦ rw other (λ h some e. cc, λ h. refl)
  | inl under ↦ by_names l.allowed_exa_paths under
]
  where
    listed : List Text → Bool
    listed names = any (λ n. n == before b'/' (drop 5 path)) names

    by_names :
        (names : List Text)
        → starts_with (text "/exa/") path ≡ true
        → ((not (starts_with (text "/exa/") path && not (is_empty names)) || listed names) ≡ true)
          ↔ (names ≢ [] → IsListed (text "/exa/") path names)
    by_names [] under = (λ h no. absurd (no refl), λ h. rw under refl)
    by_names (n ∷ names) under = rw under (λ h no e. h, λ h. h (λ e. cc) refl)

read_iff : (method : String) → (is_read method ≡ true) ↔ ((method ≡ "GET") ⊎ (method ≡ "HEAD"))
read_iff method =
    ground (arith, string_equality.test_iff method "GET", string_equality.test_iff method "HEAD")

passes_by_tests :
    (int : Text → Option ℤ) (l : Limits) (r : Incoming)
    → (dispatch int l r ≡ none) ↔ (
        (is_path_allowed l r.path ≡ true)
        × (is_exa_allowed l r.path ≡ true)
        × ((is_read r.method ≡ true)
            ⊎ (IsSmall int l r.content_length × IsJson l r.content_type r.body)))
unfolding dispatch
passes_by_tests int l r = elim (Bool-cases (is_path_allowed l r.path)) [
  | inr other ↦ rw other (λ h. absurd (ground (arith, h)), λ h. absurd (ground (arith, h.0)))
  | inl path ↦ elim (Bool-cases (is_exa_allowed l r.path)) [
    | inr other ↦
        rw (path, other) (λ h. absurd (ground (arith, h)), λ h. absurd (ground (arith, h.1)))
    | inl listed ↦ elim (Bool-cases (is_read r.method)) [
      | inl reads ↦ rw (path, listed, reads) (λ h. (refl, refl, inl refl), λ h. refl)
      | inr writes ↦ rw (path, listed, writes) (written)
    ]
  ]
]
  where
    written :
        (first_of (check_length int l r.content_length) (check_body l r.content_type r.body) ≡ none)
        ↔ (Path Bool true true
            × Path Bool true true
            × (Path Bool false true
                ⊎ (IsSmall int l r.content_length × IsJson l r.content_type r.body)))
    written =
        let both =
          first_of-none (check_length int l r.content_length)
            (check_body l r.content_type r.body) in
        let small = check_length-IsSmall int l r.content_length in
        let json = check_body-IsJson l r.content_type r.body in
        (
          λ h. let (a, b) = both.0 h in (refl, refl, inr (small.0 a, json.0 b)),
          λ h. elim h.2 [
            | inl no_read ↦ absurd (ground (arith, no_read))
            | inr (a, b) ↦ both.1 (small.1 a, json.1 b)
          ],
        )

-- A request goes on to its route exactly if the first segment of its path behind `/api/`, `/v1/` or
-- `/v2/` is one of the allowed ones, that behind `/exa/` one of those of Exa, where there are any, and,
-- unless its method is GET or HEAD, its length is said to be no more than the limit or is not said, and
-- its body is empty, or is JSON and no longer than the limit.
pub dispatch_passes :
    (int : Text → Option ℤ) (l : Limits) (r : Incoming)
    → (dispatch int l r ≡ none) ↔ (
        IsAllowed l r.path
        × (((r.method ≡ "GET") ⊎ (r.method ≡ "HEAD"))
            ⊎ (IsSmall int l r.content_length × IsJson l r.content_type r.body)))
dispatch_passes int l r =
    let (out, back) = passes_by_tests int l r in
    let (listed, is_listed) = allowed_iff l r.path in
    let (exa, is_exa) = exa_iff l r.path in
    let (reads, is_reading) = read_iff r.method in
    (
      λ h.
          let (a, b, c) = out h in
          let (x, y, z) = listed a in
          ((x, y, z, exa b), elim c [ inl read ↦ inl (reads read) | inr small ↦ inr small ]),
      λ ((x, y, z, b), c). back (
        is_listed (x, y, z),
        is_exa b,
        elim c [ inl read ↦ inl (is_reading read) | inr small ↦ inr small ],
      ),
    )
