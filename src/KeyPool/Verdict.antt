-- ===== src/KeyPool/Verdict.antt =====
-- What one round of the loop of app/core/key_pool.py makes of a key.
use firecrawl_manger.Prelude.{
  ℕ, ◌+◌, refl, ◌<◌, ◌≡◌, ◌≢◌, ◌⊎◌, ◌↔◌, Option, Option-cases, true, none, some, arith,
  nat_equality, inl, inr,
}
use firecrawl_manger.Errors.{ok}
use firecrawl_manger.Models.{ApiKey, cooling, failed, disabled}
use firecrawl_manger.KeyPool.{Env, available, cooldown_remaining_seconds, visit, option_beq_iff}

-- The cooldown of the row is over, or ends in less than a second, as the code drops a rest that is not
-- a whole second.
abbrev pub IsOver : Env → ApiKey → Type 0
IsOver env key =
    (cooldown_until : ℕ)
    → key.cooldown_until ≡ some cooldown_until
    → cooldown_until < env.now + 1_000_000

cooldown-IsOver :
    (env : Env) (key : ApiKey) → (cooldown_remaining_seconds key env.now ≡ 0) ↔ IsOver env key
unfolding cooldown_remaining_seconds
cooldown-IsOver env key = by_row key.cooldown_until refl
  where
    by_row :
        (o : Option ℕ)
        → key.cooldown_until ≡ o
        → (cooldown_remaining_seconds key env.now ≡ 0) ↔ IsOver env key
    by_row none e = (λ h t f. absurd (ground arith), λ h. ground arith)
    by_row (some t) e = (λ h u f. ground arith, λ h. ground (arith, h t e))

-- No rest is left: neither by the row nor, for a cooling key, by the cooldown store.
abbrev pub IsRested : Env → ApiKey → Type 0
IsRested env key =
    (key.status ≡ cooling
      → IsOver env key
        × ((env.remaining_seconds key.id ≡ ok none) ⊎ (env.remaining_seconds key.id ≡ ok (some 0))))
    × (key.status ≡ failed → IsOver env key)

-- The quota leaves room for one more request; the usage of another day does not count.
abbrev pub HasQuota : Env → ApiKey → Type 0
HasQuota env key =
    (quota : ℕ)
    → key.daily_quota ≡ some quota
    → (key.quota_reset_at ≡ some env.today → key.daily_usage < quota)
      × (key.quota_reset_at ≢ some env.today → 0 < quota)

abbrev pub IsReady : Env → ApiKey → Type 0
IsReady env key =
    (key.is_active ≡ true) × (key.status ≢ disabled) × IsRested env key × HasQuota env key

-- How a chosen key is left.
pub record IsChosen (env : Env) (key key' : ApiKey) : Type 0 where
  pub same_id : key'.id ≡ key.id
  pub same_provider : key'.provider ≡ key.provider
  pub same_client : key'.client_id ≡ key.client_id
  pub enabled : key'.is_active ≡ true
  pub not_disabled : key'.status ≢ disabled
  pub not_cooling : key'.status ≢ cooling
  pub not_failed : key'.status ≢ failed
  pub today : key'.quota_reset_at ≡ some env.today
  pub room : (quota : ℕ) → key'.daily_quota ≡ some quota → key'.daily_usage < quota

pub visit_available :
    (env : Env) (key : ApiKey)
    → (visit env key).0 ≡ ok available
    → IsChosen env key (visit env key).1
unfolding visit
visit_available env key h = ground (arith, option_beq_iff key.quota_reset_at (some env.today))

-- The same, by the seconds that the code computes.
abbrev RestsZero : Env → ApiKey → Type 0
RestsZero env key =
    (key.status ≡ cooling
      → cooldown_remaining_seconds key env.now ≡ 0
        × ((env.remaining_seconds key.id ≡ ok none) ⊎ (env.remaining_seconds key.id ≡ ok (some 0))))
    × (key.status ≡ failed → cooldown_remaining_seconds key env.now ≡ 0)

IsRested-iff : (env : Env) (key : ApiKey) → RestsZero env key ↔ IsRested env key
IsRested-iff env key =
    let (over, zero) = cooldown-IsOver env key in
    (
      λ (c, d). (λ e. let (z, st) = c e in (over z, st), λ e. over (d e)),
      λ (c, d). (λ e. let (z, st) = c e in (zero z, st), λ e. zero (d e)),
    )

abbrev ReadyZero : Env → ApiKey → Type 0
ReadyZero env key =
    (key.is_active ≡ true) × (key.status ≢ disabled) × RestsZero env key × HasQuota env key

visit_ready : (env : Env) (key : ApiKey) → ReadyZero env key → (visit env key).0 ≡ ok available
unfolding visit
visit_ready env key (enabled, live, rested, quota) = elim (Option-cases key.daily_quota) [
  | inl unlimited ↦ ground (arith, option_beq_iff key.quota_reset_at (some env.today))
  | inr (q, limited) ↦
      ground (arith, option_beq_iff key.quota_reset_at (some env.today), quota q limited)
]

ready_zero : (env : Env) (key : ApiKey) → (visit env key).0 ≡ ok available → ReadyZero env key
unfolding visit
ready_zero env key h = (
  ground (arith, option_beq_iff key.quota_reset_at (some env.today)),
  ground (arith, option_beq_iff key.quota_reset_at (some env.today)),
  (
    ground (arith, option_beq_iff key.quota_reset_at (some env.today)),
    ground (arith, option_beq_iff key.quota_reset_at (some env.today)),
  ),
  λ q e. (
    ground (arith, option_beq_iff key.quota_reset_at (some env.today)),
    ground (arith, option_beq_iff key.quota_reset_at (some env.today)),
  ),
)

-- The loop takes a key exactly when the key is ready: enabled, not disabled, its cooldown over (or
-- ending within a second) in the row, and over in the store, and with room in the quota of today.
pub visit_available_iff :
    (env : Env) (key : ApiKey) → ((visit env key).0 ≡ ok available) ↔ IsReady env key
visit_available_iff env key =
    let (out, back) = IsRested-iff env key in
    (
      λ h. let (a, b, c, d) = ready_zero env key h in (a, b, out c, d),
      λ (a, b, c, d). visit_ready env key (a, b, back c, d),
    )
