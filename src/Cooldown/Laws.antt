-- ===== src/Cooldown/Laws.antt =====
-- What app/core/cooldown.py keeps.
use firecrawl_manger.Prelude.{
  ℕ, zero, suc, ◌≡◌, ◌≢◌, refl, sym, ap, ◌∙◌, false, Bool-cases, inl, inr, Option, none, some, ◌==◌,
  nat_equality, arith,
}
use firecrawl_manger.Prelude.Int.{ℤ, pos, negsuc}
use firecrawl_manger.Errors.{ok}
use firecrawl_manger.Cooldown.{
  RedisClient, or_unavailable, at_least_0, set_cooldown, positive_ttl, remaining_of,
  remaining_seconds,
}

-- What Redis documents of SETEX, DEL and TTL, right after the command: a name that was set has its time
-- to live, one that was deleted has -2, and other names are as before.
pub record IsRedis {ℓ} {S : Type ℓ} (c : RedisClient S) : Type ℓ where
  pub ttl_set : (id n : ℕ) (s s' : S) → c.setex id n s ≡ some s' → c.ttl id s' ≡ some (pos n)
  pub ttl_deleted : (id : ℕ) (s s' : S) → c.delete id s ≡ some s' → c.ttl id s' ≡ some (negsuc 1)
  pub ttl_set_other :
      (id other n : ℕ) (s s' : S)
      → other ≢ id
      → c.setex id n s ≡ some s'
      → c.ttl other s' ≡ c.ttl other s
  pub ttl_deleted_other :
      (id other : ℕ) (s s' : S)
      → other ≢ id
      → c.delete id s ≡ some s'
      → c.ttl other s' ≡ c.ttl other s

or_unavailable_ok {ℓ} : {A : Type ℓ} (o : Option A) (a : A) → or_unavailable o ≡ ok a → o ≡ some a
or_unavailable_ok none a h = absurd (ground arith)
or_unavailable_ok (some b) a h = grind arith

-- The cooldown that is asked for, where there is one.
abbrev pub asked_for : ℤ → Option ℕ
asked_for (pos zero) = none
asked_for (pos (suc n)) = some (suc n)
asked_for (negsuc n) = none

positive_ttl-asked_for : (seconds : ℤ) → positive_ttl seconds ≡ asked_for seconds
positive_ttl-asked_for (pos zero) = refl
positive_ttl-asked_for (pos (suc n)) = ground arith
positive_ttl-asked_for (negsuc n) = refl

zero_ttl : (seconds : ℤ) → at_least_0 seconds ≡ 0 → positive_ttl seconds ≡ none
zero_ttl (pos n) h = rw h refl
zero_ttl (negsuc n) h = refl

some_ttl :
    (seconds : ℤ)
    → (at_least_0 seconds == 0) ≡ false
    → positive_ttl (pos (at_least_0 seconds)) ≡ positive_ttl seconds
some_ttl (pos n) h = refl
some_ttl (negsuc n) h = absurd (ground arith)

module _ {ℓ} {S : Type ℓ} (c : RedisClient S) (laws : IsRedis c) where
  -- For a client that does what Redis documents, once a cooldown is set, the seconds that remain are
  -- those that were given, none for zero or less,
  -- and the other keys have what they had.
  pub remaining_seconds-set_cooldown :
      (id : ℕ) (seconds : ℤ) (s s' : S)
      → set_cooldown c id seconds s ≡ ok s'
      → (remaining_seconds c id s' ≡ ok (asked_for seconds))
        × ((other : ℕ) → other ≢ id → remaining_seconds c other s' ≡ remaining_seconds c other s)
  unfolding set_cooldown remaining_seconds
  remaining_seconds-set_cooldown id seconds s s' set = elim (Bool-cases (at_least_0 seconds == 0)) [
    | inl nothing ↦
        let deleted : c.delete id s ≡ some s' =
          or_unavailable_ok (c.delete id s) s' (sym (rw nothing refl) ∙ set) in
        (
          ap remaining_of (laws.ttl_deleted id s s' deleted)
              ∙ ap ok (sym (zero_ttl seconds (ground arith)) ∙ positive_ttl-asked_for seconds),
          λ other differs. ap remaining_of (laws.ttl_deleted_other id other s s' differs deleted),
        )
    | inr some_left ↦
        let n = at_least_0 seconds in
        let stored : c.setex id n s ≡ some s' =
          or_unavailable_ok (c.setex id n s) s' (sym (rw some_left refl) ∙ set) in
        (
          ap remaining_of (laws.ttl_set id n s s' stored)
              ∙ ap ok (some_ttl seconds some_left ∙ positive_ttl-asked_for seconds),
          λ other differs. ap remaining_of (laws.ttl_set_other id other n s s' differs stored),
        )
  ]
