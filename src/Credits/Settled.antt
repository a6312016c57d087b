-- ===== src/Credits/Settled.antt =====
-- Which keys app/core/credit_refresh.py still has to do: those that are due are among them.
use firecrawl_manger.Prelude.{
  ℕ, ◌≡◌, refl, sym, subst, Bool, true, false, ◌&&◌, List, [], ◌∷◌, arith, inl, inr, All, All-imp,
  Bool-cases, any, map, ◌==◌, nat_equality, if◌then◌else◌,
}
use mathlib.Core.List.{map-map}
use firecrawl_manger.Models.{ApiKey}
use firecrawl_manger.Forwarder.{set_key}
use firecrawl_manger.Credits.{due_keys, is_due, is_fetched}
use firecrawl_manger.Credits.Fetch.{off}
use firecrawl_manger.Credits.Refresh.{due_ids}

-- The test of the query in `_refresh_once`.
abbrev pub is_wanted : ℕ → ApiKey → Bool
is_wanted now k = k.is_active && is_fetched k.status && is_due now k.next_refresh_at

abbrev pub has_id : List ℕ → ApiKey → Bool
has_id ids k = any (λ i. k.id == i) ids

-- The keys that are due are among those to be done.
abbrev pub Settled : ℕ → List ℕ → List ApiKey → Type 0
Settled now todo keys = All (λ k. is_wanted now k ≡ true → has_id todo k ≡ true) keys

pub settle_map :
    (now id : ℕ) (todo : List ℕ) (h : ApiKey → ApiKey) (keys : List ApiKey)
    → ((k : ApiKey) → (k.id == id) ≡ true → is_wanted now (h k) ≡ false)
    → ((k : ApiKey) → (k.id == id) ≡ false → h k ≡ k)
    → Settled now (id ∷ todo) keys
    → Settled now todo (map h keys)
settle_map now id todo h [] done rest s = tt
settle_map now id todo h (k ∷ keys) done rest s = (
  (elim (Bool-cases (k.id == id)) [
    | inl own ↦ λ wanted. cc (done k own)
    | inr other ↦ rw (rest k other) (λ wanted. rw other at (s.0 wanted))
  ]),
  settle_map now id todo h keys done rest s.1,
)

due_ids_skip :
    (now : ℕ) (k : ApiKey) (keys : List ApiKey)
    → is_wanted now k ≡ false
    → due_ids now (k ∷ keys) ≡ due_ids now keys
unfolding due_keys
due_ids_skip now k keys not_due = rw not_due refl

pub due_ids-Settled : (now : ℕ) (keys : List ApiKey) → Settled now (due_ids now keys) keys
unfolding due_keys
due_ids-Settled now [] = tt
due_ids-Settled now (k ∷ keys) = elim (Bool-cases (is_wanted now k)) [
  | inl due ↦ rw due (
    (λ wanted. ground arith),
    All-imp (λ k. is_wanted now k ≡ true → has_id (due_ids now keys) k ≡ true) _ keys
        (λ k' h wanted. ground (arith, h wanted)) (due_ids-Settled now keys),
  )
  | inr not_due ↦ (
    (λ wanted. cc),
    subst (λ ids. Settled now ids keys) (sym (due_ids_skip now k keys not_due))
        (due_ids-Settled now keys),
  )
]

pub Settled-due_keys : (now : ℕ) (keys : List ApiKey) → Settled now [] keys → due_keys now keys ≡ []
unfolding due_keys
Settled-due_keys now [] s = refl
Settled-due_keys now (k ∷ keys) s = elim (Bool-cases (is_wanted now k)) [
  | inl due ↦ cc (s.0 due)
  | inr not_due ↦ rw not_due (Settled-due_keys now keys s.1)
]

-- A row is written and then given its next time.
pub settle_twice :
    (now id : ℕ) (todo : List ℕ) (change : ApiKey → ApiKey) (key : ApiKey) (keys : List ApiKey)
    → key.id ≡ id
    → is_wanted now (change key) ≡ false
    → Settled now (id ∷ todo) keys
    → Settled now todo (map (λ k. if k.id == id then change k else k) (set_key key keys))
settle_twice now id todo change key keys same off s =
    rw
      (map-map (λ (k : ApiKey). if k.id == id then change k else k)
        (λ (k : ApiKey). if k.id == key.id then key else k) keys)
      (settle_map now id todo _ keys (λ k own. ground arith) (λ k other. ground arith) s)
