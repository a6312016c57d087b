-- ===== src/ControlPlane/Ids.antt =====
-- `deduplicate_client_ids` of app/core/batch_clients.py: the same ids, and none of them twice.
use firecrawl_manger.Prelude.{
  ℕ, ◌||◌, ◌≡◌, refl, ap, ◌∙◌, Bool, false, not, List, [], ◌∷◌, arith, inl, inr, filter, any,
  Bool-cases, ◌==◌, nat_equality,
}
use firecrawl_manger.ControlPlane.Clients.{deduplicate_client_ids}

abbrev pub is_named : ℕ → List ℕ → Bool
is_named id ids = any (λ i. i == id) ids

filter-in :
    (id q : ℕ) (ids : List ℕ)
    → (id == q) ≡ false
    → is_named q (filter (λ i. not (i == id)) ids) ≡ is_named q ids
filter-in id q [] other = refl
filter-in id q (i ∷ ids) other = elim (Bool-cases (i == id)) [
  | inr kept ↦ rw kept (ap (λ b. (i == q) || b) (filter-in id q ids other))
  | inl out ↦
      let differ : (i == q) ≡ false = rw ((nat_equality.test_iff i id).0 out) other in
      rw (out, differ) (filter-in id q ids other)
]

pub deduplicate-in :
    (q : ℕ) (ids : List ℕ) → is_named q (deduplicate_client_ids ids) ≡ is_named q ids
unfolding deduplicate_client_ids
deduplicate-in q [] = refl
deduplicate-in q (id ∷ ids) = elim (Bool-cases (id == q)) [
  | inl same ↦ rw same refl
  | inr other ↦ rw other (filter-in id q (deduplicate_client_ids ids) other ∙ deduplicate-in q ids)
]

-- No id twice.
abbrev pub AllDifferent : List ℕ → Type 0
AllDifferent [] = Unit
AllDifferent (id ∷ ids) = (is_named id ids ≡ false) × AllDifferent ids

filter-out : (id : ℕ) (ids : List ℕ) → is_named id (filter (λ i. not (i == id)) ids) ≡ false
filter-out id [] = refl
filter-out id (i ∷ ids) = elim (Bool-cases (i == id)) [
  | inl out ↦ rw out (filter-out id ids)
  | inr kept ↦ rw (kept, kept) (filter-out id ids)
]

filter-absent :
    (p : ℕ → Bool) (q : ℕ) (ids : List ℕ)
    → is_named q ids ≡ false
    → is_named q (filter p ids) ≡ false
filter-absent p q [] h = refl
filter-absent p q (i ∷ ids) h = elim (Bool-cases (p i)) [
  | inl kept ↦ rw kept (ground (arith, filter-absent p q ids))
  | inr out ↦ rw out (filter-absent p q ids (ground arith))
]

filter-AllDifferent : (p : ℕ → Bool) (ids : List ℕ) → AllDifferent ids → AllDifferent (filter p ids)
filter-AllDifferent p [] d = tt
filter-AllDifferent p (i ∷ ids) (fresh, d) = elim (Bool-cases (p i)) [
  | inl kept ↦ rw kept (filter-absent p i ids fresh, filter-AllDifferent p ids d)
  | inr out ↦ rw out (filter-AllDifferent p ids d)
]

pub deduplicate-AllDifferent : (ids : List ℕ) → AllDifferent (deduplicate_client_ids ids)
unfolding deduplicate_client_ids
deduplicate-AllDifferent [] = tt
deduplicate-AllDifferent (id ∷ ids) = (
  filter-out id (deduplicate_client_ids ids),
  filter-AllDifferent (λ i. not (i == id)) (deduplicate_client_ids ids)
      (deduplicate-AllDifferent ids),
)
