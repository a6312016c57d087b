-- ===== src/Forwarder/Providers/Headers.antt =====
-- Which headers app/core/forwarder.py passes to the upstream and back.
use firecrawl_manger.Prelude.{
  ◌≡◌, ◌≢◌, ◌∙◌, ap, sym, subst, filter, ◌⊎◌, inl, inr, refl, Bool, true, false, not, ◌&&◌, Option,
  none, some, List, [], ◌∷◌, ◌++◌, All, filter-All, All-filter, All-append, arith, Bool-cases, ◌==◌,
  if◌then◌else◌,
}
use firecrawl_manger.Prelude.Text.{Text, text, text_equality, lower}
use firecrawl_manger.Forwarder.Providers.{
  Header, copied, is_auth, is_in, drop_request_headers, drop_response_headers,
  sanitized_request_headers, upstream_headers, response_headers,
}

-- What may be sent: the id of the request, three of the client's headers, and the key.
abbrev pub IsSent : (Text → Option Text) → Text → Header → Header → Type 0
IsSent get request_id auth h =
    (h ≡ auth)
    ⊎ (h ≡ (text "x-request-id", request_id))
    ⊎ (((h.0 ≡ text "accept") ⊎ (h.0 ≡ text "content-type") ⊎ (h.0 ≡ text "user-agent"))
        × (get h.0 ≡ some h.1))

copied-All :
    (P : Header → Type 0) (get : Text → Option Text) (name : Text)
    → ((value : Text) → get name ≡ some value → P (name, value))
    → All P (copied get name)
copied-All P get name h = by_value (get name) h
  where
    by_value :
        (found : Option Text)
        → ((value : Text) → found ≡ some value → P (name, value))
        → let hs : List Header = elim found [
          | none ↦ []
          | some value ↦ if value == [] then [] else (name, value) ∷ []
        ] in
          All P hs
    by_value none k = tt
    by_value (some value) k = elim (Bool-cases (value == [])) [
      | inl blank ↦ rw blank tt
      | inr full ↦ rw full (k value refl, tt)
    ]

-- The header is in the list.
abbrev pub Has : Header → List Header → Type 0
Has h [] = ⊥
Has h (x ∷ xs) = (x ≡ h) ⊎ Has h xs

Has-left : (h : Header) (xs ys : List Header) → Has h xs → Has h (xs ++ ys)
Has-left h [] ys there = elim there [ ]
Has-left h (x ∷ xs) ys (inl e) = inl e
Has-left h (x ∷ xs) ys (inr there) = inr (Has-left h xs ys there)

Has-right : (h : Header) (xs ys : List Header) → Has h ys → Has h (xs ++ ys)
Has-right h [] ys there = there
Has-right h (x ∷ xs) ys there = inr (Has-right h xs ys there)

Has-filter :
    (p : Header → Bool) (h : Header) (xs : List Header)
    → p h ≡ true
    → Has h xs
    → Has h (filter p xs)
Has-filter p h [] passes there = elim there [ ]
Has-filter p h (x ∷ xs) passes (inl e) =
    subst (λ b. Has h (if b then x ∷ filter p xs else filter p xs)) (sym (ap p e ∙ passes)) (inl e)
Has-filter p h (x ∷ xs) passes (inr there) = elim (Bool-cases (p x)) [
  | inl kept ↦ rw kept (inr (Has-filter p h xs passes there))
  | inr out ↦ rw out (Has-filter p h xs passes there)
]

Has-copied :
    (get : Text → Option Text) (name value : Text)
    → get name ≡ some value
    → value ≢ []
    → Has (name, value) (copied get name)
Has-copied get name [] e some' = absurd (some' refl)
Has-copied get name (c ∷ value) e some' =
    subst
      (λ found.
        let hs : List Header = elim found [
          | none ↦ []
          | some v ↦ if v == [] then [] else (name, v) ∷ []
        ] in
        Has (name, c ∷ value) hs)
      (sym e) (inl refl)

-- The names of the headers that carry a key.
abbrev pub IsAuthName : Text → Type 0
IsAuthName name = (name ≡ text "authorization") ⊎ (name ≡ text "x-api-key")

-- The headers that are passed on from the client.
abbrev pub IsPassed : Text → Type 0
IsPassed name = (name ≡ text "accept") ⊎ (name ≡ text "content-type") ⊎ (name ≡ text "user-agent")

all-IsSent :
    (get : Text → Option Text) (request_id : Text) (auth : Header)
    → All (IsSent get request_id auth) (upstream_headers get request_id auth)
unfolding upstream_headers sanitized_request_headers
all-IsSent get request_id auth =
    let P = IsSent get request_id auth in
    All-filter P (λ h. not (is_in (lower h.0) drop_request_headers && not (is_auth (lower h.0))))
      (sanitized_request_headers get request_id ++ (auth ∷ []))
      (All-append P (sanitized_request_headers get request_id) (auth ∷ [])
        (
          inr (inl refl),
          All-append P (copied get (text "accept"))
              (copied get (text "content-type") ++ copied get (text "user-agent"))
              (copied-All P get (text "accept") λ value e. inr (inr (inl refl, e)))
              (All-append P (copied get (text "content-type")) (copied get (text "user-agent"))
                (copied-All P get (text "content-type") λ value e. inr (inr (inr (inl refl), e)))
                (copied-All P get (text "user-agent") λ value e. inr (inr (inr (inr refl), e)))),
        )
        (inl refl, tt))

-- Whatever the client sends, the upstream gets the id of the request, the key (in `authorization` or
-- `x-api-key`), and the client's `accept`, `content-type` and `user-agent` as they were, where they are
-- not empty, and nothing else: never a credential of the client.
pub upstream_headers-IsSent :
    (get : Text → Option Text) (request_id : Text) (auth : Header)
    → IsAuthName auth.0
    → let headers = upstream_headers get request_id auth in
      All (IsSent get request_id auth) headers
      × Has auth headers
      × Has (text "x-request-id", request_id) headers
      × ((name value : Text)
          → IsPassed name
          → get name ≡ some value
          → value ≢ []
          → Has (name, value) headers)
unfolding upstream_headers sanitized_request_headers
upstream_headers-IsSent get request_id auth named =
    let keeps : Header → Bool =
      λ h. not (is_in (lower h.0) drop_request_headers && not (is_auth (lower h.0))) in
    let own = sanitized_request_headers get request_id in
    let a = copied get (text "accept") in
    let b = copied get (text "content-type") in
    let c = copied get (text "user-agent") in
    let passed : (h : Header)
        → keeps h ≡ true
        → Has h (a ++ (b ++ c))
        → Has h (filter keeps (own ++ (auth ∷ []))) =
      λ h kept there.
        Has-filter keeps h (own ++ (auth ∷ [])) kept (Has-left h own (auth ∷ []) (inr there)) in
    (
      all-IsSent get request_id auth,
      Has-filter keeps auth (own ++ (auth ∷ [])) (by_name auth named)
          (Has-right auth own (auth ∷ []) (inl refl)),
      Has-filter keeps (text "x-request-id", request_id) (own ++ (auth ∷ [])) refl (inl refl),
      λ name value which e full.
          let there = Has-copied get name value e full in
          elim which [
            | inl accept ↦
                passed (name, value) (rw accept refl)
                  (Has-left (name, value) a (b ++ c)
                    (subst (λ n. Has (name, value) (copied get n)) accept there))
            | inr (inl content) ↦
                passed (name, value) (rw content refl)
                  (Has-right (name, value) a (b ++ c)
                    (Has-left (name, value) b c
                      (subst (λ n. Has (name, value) (copied get n)) content there)))
            | inr (inr agent) ↦
                passed (name, value) (rw agent refl)
                  (Has-right (name, value) a (b ++ c)
                    (Has-right (name, value) b c
                      (subst (λ n. Has (name, value) (copied get n)) agent there)))
          ],
    )
  where
    by_name :
        (h : Header)
        → IsAuthName h.0
        → not (is_in (lower h.0) drop_request_headers && not (is_auth (lower h.0))) ≡ true
    by_name h (inl e) = rw e refl
    by_name h (inr e) = rw e refl

negated_true : (b : Bool) → not b ≡ true → b ≡ false
negated_true b h = ground arith

-- No header of the connection, no cookie and no length or encoding of the body comes back.
pub response_headers-Kept :
    (headers : List Header)
    → All (λ h. is_in (lower h.0) drop_response_headers ≡ false) (response_headers headers)
unfolding response_headers
response_headers-Kept headers =
    filter-All (λ h. is_in (lower h.0) drop_response_headers ≡ false)
      (λ h. not (is_in (lower h.0) drop_response_headers)) headers
      (λ h k. negated_true (is_in (lower h.0) drop_response_headers) k)
