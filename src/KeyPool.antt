-- ===== src/KeyPool.antt =====
-- app/core/key_pool.py: `KeyPool.select` chooses an upstream key for a request, round robin over the
-- keys of a client (or of everybody) at one provider, and wakes keys whose day or cooldown is over.
-- The clock, the database's answers and the cooldown store are arguments (`Env`).
pub mod Verdict
pub mod Select
mod Tests
use firecrawl_manger.Prelude.{
  ℕ, zero, suc, ◌+◌, ◌-◌, ◌/◌, ◌%◌, min, max, String, Bool, true, false, not, ◌&&◌, ◌||◌, Option,
  none, some, List, [], ◌∷◌, map, length, get_elem?, set, any, filter, find, ltb, leb, ◌==◌,
  Equality, nat_equality, string_equality, ◌≡◌, ◌↔◌, arith, if◌then◌else◌,
}
use firecrawl_manger.Prelude.Dict.{Dict, insert, get}
use firecrawl_manger.Errors.{
  Result, ok, err, Code, FcamError, error, database_unavailable, no_key_configured,
  all_keys_disabled, all_keys_quota_exceeded, all_keys_cooling, no_key_available,
}
use firecrawl_manger.Models.{
  Status, active, cooling, failed, disabled, quota_exceeded, decrypt_failed, ApiKey,
}

-- What a call of `select` meets outside: the readings of `now_utc`, `today_in_timezone` and
-- `seconds_until_next_midnight`, whether the query and the commit go through, the rows that the
-- session shows after a rollback, and what the cooldown store answers for a key.
pub record Env : Type 0 where
  pub now : ℕ
  pub today : ℕ
  pub until_midnight : ℕ
  pub query_ok : Bool
  pub commit_ok : Bool
  pub stored : List ApiKey
  pub remaining_seconds : ℕ → Result (Option ℕ)

-- The key of `_rr_index_by_scope`: f"client:{client_id}:{provider}" or f"global:{provider}".
pub record Scope : Type 0 where
  pub client : Option ℕ
  pub provider : String

abbrev pub option_beq : Option ℕ → Option ℕ → Bool
option_beq none none = true
option_beq (some a) (some b) = a == b
option_beq _ _ = false

abbrev pub scope_beq : Scope → Scope → Bool
scope_beq a b = option_beq a.client b.client && a.provider == b.provider

pub option_beq_iff : (a b : Option ℕ) → (option_beq a b ≡ true) ↔ (a ≡ b)
option_beq_iff a b = ground arith

pub scope_beq_iff : (a b : Scope) → (scope_beq a b ≡ true) ↔ (a ≡ b)
scope_beq_iff a b =
    ground (arith, option_beq_iff a.client b.client, string_equality.test_iff a.provider b.provider)

instance abbrev pub scope_equality : Equality Scope
scope_equality = record { test = scope_beq; test_iff = scope_beq_iff }

abbrev pub Indices : Type 0
Indices = Dict Scope ℕ

abbrev pub status_is : Status → Status → Bool
status_is active active = true
status_is cooling cooling = true
status_is failed failed = true
status_is disabled disabled = true
status_is quota_exceeded quota_exceeded = true
status_is decrypt_failed decrypt_failed = true
status_is _ _ = false

-- `_is_disabled`
unfoldable pub is_disabled : ApiKey → Bool
is_disabled key = not key.is_active || status_is key.status disabled

-- `_cooldown_remaining_seconds`: a difference of times in whole seconds, 0 where it is negative.
unfoldable pub cooldown_remaining_seconds : ApiKey → ℕ → ℕ
cooldown_remaining_seconds key now = elim key.cooldown_until [
  | none ↦ 0
  | some cooldown_until ↦ (cooldown_until - now) / 1_000_000
]

-- What the loop of `select` does with one key.
pub data Visit : Type 0 where
  skip_disabled skip_quota available : Visit
  skip_cooling : ℕ → Visit

-- `if key.quota_reset_at != today: …`
unfoldable pub reset_day : ℕ → ApiKey → ApiKey
reset_day today key = if option_beq key.quota_reset_at (some today) then key else record key {
  daily_usage = 0;
  quota_reset_at = some today;
  status = if status_is key.status quota_exceeded then active else key.status;
}

-- `if key.daily_quota is not None and key.daily_usage >= key.daily_quota: …`
unfoldable pub check_quota : ApiKey → Visit × ApiKey
check_quota key = elim key.daily_quota [
  | none ↦ (available, key)
  | some quota ↦
      if leb quota key.daily_usage
      then (skip_quota, record key { status = quota_exceeded })
      else (available, key)
]

abbrev max_remaining : ℕ → Option ℕ → ℕ
max_remaining remaining none = remaining
max_remaining remaining (some store_remaining) = max remaining store_remaining

-- The rest of `if key.status in {"cooling", "failed"}: …`, from the store's answer.
unfoldable pub check_cooldown : ℕ → Option ℕ → ApiKey → Visit × ApiKey
unfolding cooldown_remaining_seconds check_quota
check_cooldown now store_remaining key =
    let remaining : ℕ = max_remaining (cooldown_remaining_seconds key now) store_remaining in
    if ltb 0 remaining
    then (skip_cooling remaining, key)
    else check_quota (record key { cooldown_until = none; status = active })

-- The store is asked only about a key that is cooling.
abbrev pub store_remaining : Env → ApiKey → Result (Option ℕ)
store_remaining env key =
    if status_is key.status cooling then env.remaining_seconds key.id else ok none

-- One round of the loop: the verdict on the key, and the key as it is left.
unfoldable pub visit : Env → ApiKey → Result Visit × ApiKey
unfolding is_disabled check_cooldown reset_day check_quota
visit env key =
    if is_disabled key
    then (ok skip_disabled, key)
    else let key' = reset_day env.today key in
      if status_is key'.status cooling || status_is key'.status failed
      then (elim (store_remaining env key') [
        | err e ↦ (err e, key')
        | ok remaining ↦ let (v, key'') = check_cooldown env.now remaining key' in (ok v, key'')
      ])
      else (let (v, key'') = check_quota key' in (ok v, key''))
