-- ===== src/RateLimit/History.antt =====
-- Histories of calls of the token buckets of app/core/rate_limit.py, for any mix of keys.
use native.Mathlib.Nat.{add-mul, le_refl}
use firecrawl_manger.Prelude.{
  ℕ, ◌+◌, ◌-◌, ◌*◌, ◌≤◌, ◌<◌, String, ◌≡◌, ap, ◌∙◌, false, ◌&&◌, Option, none, some, List, [], ◌∷◌,
  inl, inr, Bool-cases, Option-cases, arith, ◌==◌, ==-refl, string_equality, Bool, if◌then◌else◌,
}
use firecrawl_manger.Prelude.Dict.{empty}
use firecrawl_manger.RateLimit.{Bucket, Buckets, allow, find_bucket, take_token, token}
use firecrawl_manger.RateLimit.Step.{take_token_spends, allow_pos, allow_other}

pub record Call : Type 0 where
  pub key : String
  pub rate : ℕ
  pub now : ℕ

-- How many of the calls on `key` are allowed.
unfoldable pub granted : String → List Call → Buckets → ℕ
granted key [] buckets = 0
granted key (c ∷ cs) buckets =
    let (answer, buckets') = allow c.key c.rate c.now buckets in
    (if key == c.key && answer.0 then 1 else 0) + granted key cs buckets'

-- The clock does not run backwards, and the calls on `key` all have the rate `r`.
abbrev pub Steady : String → ℕ → ℕ → List Call → Type 0
Steady key r t [] = Unit
Steady key r t (c ∷ cs) = (t ≤ c.now) × (key ≡ c.key → c.rate ≡ r) × Steady key r c.now cs

-- The time of the last call.
abbrev pub finish : ℕ → List Call → ℕ
finish t [] = t
finish t (c ∷ cs) = finish c.now cs

finish-le : (key : String) (r t : ℕ) (cs : List Call) → Steady key r t cs → t ≤ finish t cs
finish-le key r t [] h = omega arith
finish-le key r t (c ∷ cs) h = omega (arith, finish-le key r c.now cs h.2, h.0)

-- At time `t` the bucket, refilled, holds at most `level`.
abbrev HasLevel : ℕ → ℕ → ℕ → Option Bucket → Type 0
HasLevel r t level none = r * token ≤ level
HasLevel r t level (some b) = (b.last_refill ≤ t) × (b.tokens + (t - b.last_refill) * r ≤ level)

refill_split : (a b c r : ℕ) → a ≤ b → b ≤ c → (c - a) * r ≡ (c - b) * r + (b - a) * r
refill_split a b c r h k = ap (λ n. n * r) together ∙ add-mul (c - b) (b - a) r
  where
    together : c - a ≡ (c - b) + (b - a)
    together = omega arith

-- What a call on the key itself leaves and spends, from a level at an earlier time.
found-HasLevel :
    (key : String) (r t now level : ℕ) (buckets : Buckets)
    → t ≤ now
    → HasLevel r t level (buckets key)
    → let (answer, b) = take_token r now (find_bucket key r now buckets) in
      (b.last_refill ≡ now) × (b.tokens + (if answer.0 then token else 0) ≤ level + (now - t) * r)
found-HasLevel key r t now level buckets later l = elim (Option-cases (buckets key)) [
  | inl new ↦ ground (arith, take_token_spends r now (find_bucket key r now buckets))
  | inr (b, old) ↦ ground (
    arith,
    take_token_spends r now b,
    λ (p : b.last_refill ≤ t). refill_split b.last_refill t now r p later,
  )
]

abbrev spent : Bool → ℕ
spent answer = if answer then token else 0

own-HasLevel :
    (key : String) (r t now level : ℕ) (buckets : Buckets)
    → 0 < r
    → t ≤ now
    → HasLevel r t level (buckets key)
    → let (answer, buckets') = allow key r now buckets in
      (spent answer.0 ≤ level + (now - t) * r)
      × HasLevel r now (level + (now - t) * r - spent answer.0) (buckets' key)
own-HasLevel key r t now level buckets pos later l =
    rw (allow_pos key r now buckets pos, ==-refl key)
      (ground (arith, found-HasLevel key r t now level buckets later l))

-- The same of a call that turns out to be one on the key.
same-HasLevel :
    (key k : String) (r rate t now level : ℕ) (buckets : Buckets)
    → key ≡ k
    → rate ≡ r
    → 0 < r
    → t ≤ now
    → HasLevel r t level (buckets key)
    → let (answer, buckets') = allow k rate now buckets in
      (spent answer.0 ≤ level + (now - t) * r)
      × HasLevel r now (level + (now - t) * r - spent answer.0) (buckets' key)
same-HasLevel key k r rate t now level buckets same steady pos later l =
    rw (← same, steady) (own-HasLevel key r t now level buckets pos later l)

other-HasLevel :
    (key k : String) (r rate t now level : ℕ) (buckets : Buckets)
    → (key == k) ≡ false
    → t ≤ now
    → HasLevel r t level (buckets key)
    → HasLevel r now (level + (now - t) * r) ((allow k rate now buckets).1 key)
other-HasLevel key k r rate t now level buckets other later l =
    rw (allow_other key k rate now buckets other) (elim (Option-cases (buckets key)) [
      | inl new ↦ ground arith
      | inr (b, old) ↦
          ground (arith, λ (p : b.last_refill ≤ t). refill_split b.last_refill t now r p later)
    ])

granted_le :
    (key : String) (r t level : ℕ) (cs : List Call) (buckets : Buckets)
    → 0 < r
    → Steady key r t cs
    → HasLevel r t level (buckets key)
    → granted key cs buckets * token ≤ level + (finish t cs - t) * r
unfolding granted
granted_le key r t level [] buckets pos h l = omega arith
granted_le key r t level (c ∷ cs) buckets pos h l = elim (Bool-cases (key == c.key)) [
  | inl same ↦
      let (answer, buckets') = allow c.key c.rate c.now buckets in
      let e = (string_equality.test_iff key c.key).0 same in
      let (afford, l') =
        same-HasLevel key c.key r c.rate t c.now level buckets e (h.1 e) pos h.0 l in
      let rest =
        granted_le key r c.now (level + (c.now - t) * r - spent answer.0) cs buckets' pos h.2 l' in
      let parts = refill_split t c.now (finish c.now cs) r h.0 (finish-le key r c.now cs h.2) in
      rw same (ground (arith, rest, parts, afford))
  | inr other ↦
      let (answer, buckets') = allow c.key c.rate c.now buckets in
      let rest =
        granted_le key r c.now (level + (c.now - t) * r) cs buckets' pos h.2
          (other-HasLevel key c.key r c.rate t c.now level buckets other h.0 l) in
      let parts = refill_split t c.now (finish c.now cs) r h.0 (finish-le key r c.now cs h.2) in
      rw other (omega (arith, rest, parts))
]

-- Between `t` and the last call, at most `r` calls of a key are allowed and `r` more for each minute
-- that passes, whatever happens on other keys; the clock is taken not to run backwards.
pub granted_bound :
    (key : String) (r t : ℕ) (cs : List Call)
    → 0 < r
    → Steady key r t cs
    → granted key cs empty * token ≤ r * token + (finish t cs - t) * r
granted_bound key r t cs pos h = granted_le key r t (r * token) cs empty pos h (le_refl _)
