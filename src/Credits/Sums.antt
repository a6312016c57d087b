-- ===== src/Credits/Sums.antt =====
-- The totals of app/core/credit_aggregator.py and its list of keys.
use firecrawl_manger.Prelude.{
  ℕ, ◌<◌, ◌≢◌, ◌⊎◌, ◌↔◌, inl, inr, Option, none, true, false, Bool-cases, if-elim, ◌&&◌, subst, ◌+◌,
  ◌≡◌, refl, ap, sym, ◌∙◌, some, List, [], ◌∷◌, ◌++◌, map, arith,
}
use mathlib.Core.List.{append-nil}
use firecrawl_manger.Models.{ApiKey, Client}
use firecrawl_manger.ControlPlane.{find_client}
use firecrawl_manger.Credits.{CreditSnapshot}
use firecrawl_manger.Credits.Aggregate.{
  KeyCredits, ClientCredits, key_credits, add_key, add_keys, no_credits, counted_keys,
  first_snapshot, is_key_of, total_of, report_for, aggregate_client_credits,
}

abbrev pub sum_of {ℓ} : {A : Type ℓ} → (A → ℕ) → List A → ℕ
sum_of f [] = 0
sum_of f (x ∷ xs) = f x + sum_of f xs

sum_of_last {ℓ} :
    {A : Type ℓ} (f : A → ℕ) (xs : List A) (x : A) → sum_of f (xs ++ x ∷ []) ≡ sum_of f xs + f x
sum_of_last f [] x = omega arith
sum_of_last f (y ∷ xs) x = let rest = sum_of_last f xs x in omega arith

-- The totals are those of the keys that are listed.
pub record IsTotal (a : ClientCredits) : Type 0 where
  pub remaining : a.total_remaining_credits ≡ sum_of (λ k. k.remaining_credits) a.keys
  pub plan : a.total_plan_credits ≡ sum_of (λ k. k.plan_credits) a.keys
  pub total : a.total_credits ≡ sum_of (λ k. k.total_credits) a.keys

add_key-IsTotal : (a : ClientCredits) (k : KeyCredits) → IsTotal a → IsTotal (add_key a k)
add_key-IsTotal a k h = record {
  remaining = rw (sum_of_last (λ k. k.remaining_credits) a.keys k, h.remaining) refl;
  plan = rw (sum_of_last (λ k. k.plan_credits) a.keys k, h.plan) refl;
  total = rw (sum_of_last (λ k. k.total_credits) a.keys k, h.total) refl;
}

add_keys-IsTotal :
    (snapshots : List CreditSnapshot) (a : ClientCredits) (keys : List ApiKey)
    → IsTotal a
    → IsTotal (add_keys snapshots a keys)
unfolding add_keys
add_keys-IsTotal snapshots a [] h = h
add_keys-IsTotal snapshots a (key ∷ keys) h =
    add_keys-IsTotal snapshots (add_key a (key_credits snapshots key)) keys
      (add_key-IsTotal a (key_credits snapshots key) h)

move_last {ℓ} :
    {A : Type ℓ} (xs : List A) (x : A) (ys : List A) → (xs ++ x ∷ []) ++ ys ≡ xs ++ x ∷ ys
move_last [] x ys = refl
move_last (y ∷ xs) x ys = ap (λ zs. y ∷ zs) (move_last xs x ys)

add_keys-map :
    (snapshots : List CreditSnapshot) (a : ClientCredits) (keys : List ApiKey)
    → (add_keys snapshots a keys).keys ≡ a.keys ++ map (key_credits snapshots) keys
unfolding add_keys
add_keys-map snapshots a [] = sym (append-nil a.keys)
add_keys-map snapshots a (key ∷ keys) =
    add_keys-map snapshots (add_key a (key_credits snapshots key)) keys
    ∙ move_last a.keys (key_credits snapshots key) _

-- What an entry says of a key: the credits that remain and those of the plan, 0 where they are not
-- known, and as the total the plan's, else those of the first snapshot, else those that remain.
pub record IsEntry (snapshots : List CreditSnapshot) (key : ApiKey) (e : KeyCredits) : Type 0 where
  pub id : e.api_key_id ≡ key.id
  pub remaining : (n : ℕ) → key.cached_remaining_credits ≡ some n → e.remaining_credits ≡ n
  pub no_remaining : key.cached_remaining_credits ≡ none → e.remaining_credits ≡ 0
  pub plan : (n : ℕ) → key.cached_plan_credits ≡ some n → e.plan_credits ≡ n
  pub no_plan : key.cached_plan_credits ≡ none → e.plan_credits ≡ 0
  pub by_plan : 0 < e.plan_credits → e.total_credits ≡ e.plan_credits
  pub by_snapshot :
      (s : CreditSnapshot)
      → e.plan_credits ≡ 0
      → first_snapshot key.id snapshots ≡ some s
      → e.total_credits ≡ s.remaining_credits
  pub by_rest :
      e.plan_credits ≡ 0
      → first_snapshot key.id snapshots ≡ none
      → e.total_credits ≡ e.remaining_credits

key_credits-IsEntry :
    (snapshots : List CreditSnapshot) (key : ApiKey)
    → IsEntry snapshots key (key_credits snapshots key)
unfolding total_of
key_credits-IsEntry snapshots key = record {
  id = refl;
  remaining = λ n e. rw e refl;
  no_remaining = λ e. rw e refl;
  plan = λ n e. rw e refl;
  no_plan = λ e. rw e refl;
  by_plan = λ some. ground arith;
  by_snapshot = λ s no e. rw e (ground arith);
  by_rest = λ no e. rw e (ground arith);
}

-- The entries are those of the client's active keys, in the order of the keys.
abbrev pub Lists : ℕ → List CreditSnapshot → List ApiKey → List KeyCredits → Type 0
Lists client_id snapshots [] entries = entries ≡ []
Lists client_id snapshots (key ∷ keys) entries =
    ((key.client_id ≡ some client_id)
      × (key.is_active ≡ true)
      × ((e : KeyCredits) × (rest : List KeyCredits) × (entries ≡ e ∷ rest)
          × IsEntry snapshots key e
          × Lists client_id snapshots keys rest))
    ⊎ (((key.client_id ≢ some client_id) ⊎ (key.is_active ≡ false))
        × Lists client_id snapshots keys entries)

is_key_of_iff :
    (client_id : ℕ) (owner : Option ℕ)
    → (is_key_of client_id owner ≡ true) ↔ (owner ≡ some client_id)
is_key_of_iff client_id none = (λ h. absurd (ground arith), λ h. absurd (ground arith))
is_key_of_iff client_id (some id) = (λ h. ground arith, λ h. ground arith)

counted_keys-Lists :
    (client_id : ℕ) (snapshots : List CreditSnapshot) (keys : List ApiKey)
    → Lists client_id snapshots keys (map (key_credits snapshots) (counted_keys client_id keys))
counted_keys-Lists client_id snapshots [] = refl
counted_keys-Lists client_id snapshots (key ∷ keys) =
    let rest = counted_keys-Lists client_id snapshots keys in
    let (owned, owns) = is_key_of_iff client_id key.client_id in
    if-elim
      (λ counted. Lists client_id snapshots (key ∷ keys) (map (key_credits snapshots) counted))
      (is_key_of client_id key.client_id && key.is_active) _ _
      (λ both. inl (
        owned (ground (arith, both)),
        ground (arith, both),
        (key_credits snapshots key, _, refl, key_credits-IsEntry snapshots key, rest),
      ))
      (λ out. inr (out_by key out owns, rest))
  where
    out_by :
        (key : ApiKey)
        → (is_key_of client_id key.client_id && key.is_active) ≡ false
        → (key.client_id ≡ some client_id → is_key_of client_id key.client_id ≡ true)
        → (key.client_id ≢ some client_id) ⊎ (key.is_active ≡ false)
    out_by key out owns = elim (Bool-cases key.is_active) [
      | inr off ↦ inr off
      | inl on ↦ inl (λ e. ground (arith, owns e, out))
    ]

-- For a client that is there, the keys listed are its active ones, each with the plan's credits, those
-- of its first snapshot or those that remain, and every total is the sum over that list.
pub aggregate_client_credits_adds_up :
    (client_id : ℕ) (clients : List Client) (keys : List ApiKey) (snapshots : List CreditSnapshot)
    (client : Client)
    → find_client client_id clients ≡ some client
    → (a : ClientCredits) × (aggregate_client_credits client_id clients keys snapshots ≡ some a)
      × Lists client_id snapshots keys a.keys
      × IsTotal a
unfolding aggregate_client_credits
aggregate_client_credits_adds_up client_id clients keys snapshots client known = (
  add_keys snapshots no_credits (counted_keys client_id keys),
  ap (report_for client_id keys snapshots) known,
  subst (Lists client_id snapshots keys)
      (sym (add_keys-map snapshots no_credits (counted_keys client_id keys)))
      (counted_keys-Lists client_id snapshots keys),
  add_keys-IsTotal snapshots no_credits (counted_keys client_id keys)
      (record { remaining = refl; plan = refl; total = refl }),
)
