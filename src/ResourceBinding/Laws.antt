-- ===== src/ResourceBinding/Laws.antt =====
-- Bindings of app/core/resource_binding.py stay what they are.
use firecrawl_manger.Prelude.{
  ℕ, ◌≤◌, ◌≡◌, refl, ap, sym, ◌∙◌, Bool, true, false, Option, none, some, [], ◌∷◌, ◌++◌, arith,
  Option-cases, Bool-cases, inl, inr, find_passes, find-map, nat_equality, ◌==◌, ◌&&◌,
  if◌then◌else◌,
}
use mathlib.Core.Option as Option
use firecrawl_manger.Prelude.Text.{Text, text_equality, text_beq_iff, strip}
use firecrawl_manger.Models.{UpstreamResourceBinding}
use firecrawl_manger.ResourceBinding.{
  Bindings, Resource, Session, Answer, accepts, fails, violated, stored_as, is_for, find_binding,
  expiry, is_longer, set_expiry, renew, on_violation, insert_binding, bind_resource,
}

-- The row that is found for a resource is still found, with its key.
abbrev pub Stays : Resource → UpstreamResourceBinding → Bindings → Type 0
Stays q b table =
    (b' : UpstreamResourceBinding) × (find_binding q table ≡ some b')
    × (b'.api_key_id ≡ b.api_key_id)
    × ((e : ℕ) → b.expires_at ≡ some e → (e' : ℕ) × (b'.expires_at ≡ some e') × (e ≤ e'))

same-Stays :
    (q : Resource) (b : UpstreamResourceBinding) (table : Bindings)
    → find_binding q table ≡ some b
    → Stays q b table
same-Stays q b table h = (b, h, refl, λ e k. (e, k, omega arith))

find-append :
    (q : Resource) (b new : UpstreamResourceBinding) (table : Bindings)
    → find_binding q table ≡ some b
    → find_binding q (table ++ (new ∷ [])) ≡ some b
find-append q b new [] h = ground arith
find-append q b new (c ∷ table) h = ground (arith, find-append q b new table)

find-set_expiry :
    (q r : Resource) (expires_at : ℕ) (b : UpstreamResourceBinding) (table : Bindings)
    → find_binding q table ≡ some b
    → find_binding q (set_expiry r expires_at table)
      ≡ some (if is_for r b then record b { expires_at = some expires_at } else b)
find-set_expiry q r expires_at b table h =
    find-map (is_for q) (λ c. if is_for r c then record c { expires_at = some expires_at } else c)
      (λ c. ground arith) table
    ∙ ap (Option.map (λ c. if is_for r c then record c { expires_at = some expires_at } else c)) h

-- A row is for one resource only.
is_for_one :
    (q r : Resource) (b : UpstreamResourceBinding) → is_for q b ≡ true → is_for r b ≡ true → q ≡ r
is_for_one q r b h k = grind (
  arith,
  nat_equality.test_iff b.client_id q.client_id,
  nat_equality.test_iff b.client_id r.client_id,
  text_beq_iff b.resource_type q.resource_type,
  text_beq_iff b.resource_type r.resource_type,
  text_beq_iff b.resource_id q.resource_id,
  text_beq_iff b.resource_id r.resource_id,
)

last :
    (existing b : UpstreamResourceBinding) (e d : ℕ)
    → some existing ≡ some b
    → b.expires_at ≡ some d
    → is_longer existing.expires_at e ≡ true
    → d ≤ e
last existing b e d same t longer = ground arith

both : (x y z : Bool) → (x && y && z) ≡ true → y ≡ true
both x y z h = ground arith

renew-Stays :
    (q r : Resource) (key : ℕ) (expires_at : Option ℕ) (commit_ok : Bool)
    (b existing : UpstreamResourceBinding) (table : Bindings)
    → find_binding q table ≡ some b
    → find_binding r table ≡ some existing
    → Stays q b (renew r key expires_at commit_ok existing table)
unfolding renew
renew-Stays q r key none commit_ok b existing table h k = same-Stays q b table h
renew-Stays q r key (some e) commit_ok b existing table h k =
    elim (Bool-cases (existing.api_key_id == key && is_longer existing.expires_at e && commit_ok)) [
      | inr kept ↦ rw kept (same-Stays q b table h)
      | inl longer ↦ rw longer (by_owner (is_for r b) refl longer (find-set_expiry q r e b table h))
    ]
  where
    by_owner :
        (owner : Bool)
        → is_for r b ≡ owner
        → (existing.api_key_id == key && is_longer existing.expires_at e && commit_ok) ≡ true
        → find_binding q (set_expiry r e table)
          ≡ some (if owner then record b { expires_at = some e } else b)
        → Stays q b (set_expiry r e table)
    by_owner false owned longer found = (b, found, refl, λ d t. (d, t, omega arith))
    by_owner true owned longer found = (
      record b { expires_at = some e },
      found,
      refl,
      λ d t.
          let same : some existing ≡ some b =
            sym k
            ∙ ap (λ x. find_binding x table)
                (sym (is_for_one q r b (find_passes (is_for q) b table h) owned))
            ∙ h in
          (
            e,
            refl,
            last existing b e d same t (
                both (existing.api_key_id == key) (is_longer existing.expires_at e) commit_ok
                  longer),
          ),
    )

on_violation-Stays :
    (s : Session) (q r : Resource) (key : ℕ) (expires_at : Option ℕ) (b : UpstreamResourceBinding)
    (table : Bindings)
    → find_binding q table ≡ some b
    → Stays q b (on_violation s r key expires_at table).1
unfolding on_violation
on_violation-Stays s q r key expires_at b table h = elim (Bool-cases s.query_ok) [
  | inr broken ↦ rw broken (same-Stays q b table h)
  | inl asked ↦ elim (Option-cases (find_binding r table)) [
    | inl gone ↦ rw (asked, gone) (same-Stays q b table h)
    | inr (existing, there) ↦
        rw (asked, there) (renew-Stays q r key expires_at s.commit_ok b existing table h there)
  ]
]

insert_binding-Stays :
    (s : Session) (q r : Resource) (key : ℕ) (expires_at : Option ℕ) (b : UpstreamResourceBinding)
    (table : Bindings)
    → find_binding q table ≡ some b
    → Stays q b (insert_binding s r key expires_at table).1
unfolding insert_binding
insert_binding-Stays s q r key expires_at b table h = by_answer s.insert refl
  where
    violation : Stays q b (on_violation s r key expires_at table).1
    violation = on_violation-Stays s q r key expires_at b table h

    by_answer : (a : Answer) → s.insert ≡ a → Stays q b (insert_binding s r key expires_at table).1
    by_answer fails e = rw (e, insert_binding) (same-Stays q b table h)
    by_answer violated e = rw (e, insert_binding) violation
    by_answer accepts e = elim (Option-cases (find_binding r table)) [
      | inl free ↦ rw (e, insert_binding, free) (same-Stays q b _ (find-append q b _ table h))
      | inr (existing, there) ↦ rw (e, insert_binding, there) violation
    ]

-- A binding sticks: whatever is bound afterwards, by whichever client and with whichever answers of
-- the database, the resource is found with the same key, and a lifetime that has an end does not end
-- earlier.
pub bind_resource-Stays :
    (s : Session) (client_id key : ℕ) (resource_type resource_id : Text) (ttl_seconds : Option ℕ)
    (q : Resource) (b : UpstreamResourceBinding) (table : Bindings)
    → find_binding q table ≡ some b
    → Stays q b (bind_resource s client_id key resource_type resource_id ttl_seconds table).1
unfolding bind_resource
bind_resource-Stays s client_id key resource_type resource_id ttl_seconds q b table h =
    elim (Bool-cases (strip resource_id == [])) [
      | inl blank ↦ rw blank (same-Stays q b table h)
      | inr named ↦ rw named (
          insert_binding-Stays s q (stored_as client_id resource_type (strip resource_id)) key
            (expiry s.now ttl_seconds) b table h)
    ]
