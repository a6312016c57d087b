-- ===== src/Credits.antt =====
-- app/core/credit_refresh.py: when the credits of a key are fetched again, and which of its snapshots
-- are kept. Times are microseconds; the first of the next month is an argument.
pub mod Laws
pub mod Aggregate
pub mod Sums
pub mod Fetch
pub mod Refresh
pub mod Settled
pub mod Passes
pub mod Records
pub mod Report
pub mod Manual
pub mod Manuals
pub mod Providers
mod Tests
use firecrawl_manger.Prelude.{
  ℕ, ◌+◌, ◌*◌, ◌-◌, Bool, true, false, not, ◌&&◌, ◌||◌, Option, none, some, List, filter, ltb, leb,
  ◌==◌, nat_equality, if◌then◌else◌,
}
use firecrawl_manger.Prelude.Int.{ℤ, pos, negsuc}
use firecrawl_manger.Models.{ApiKey, Status, active, cooling}

-- `config.credit_monitoring`, with its intervals in minutes.
pub record CreditMonitoring : Type 0 where
  pub fixed_interval : ℕ
  pub smart_enabled : Bool
  pub high_usage_interval : ℕ
  pub medium_usage_interval : ℕ
  pub normal_usage_interval : ℕ
  pub low_usage_interval : ℕ
  pub retention_days : ℤ
  pub batch_size : ℤ
  pub retry_delay_minutes : ℤ

-- `timedelta(minutes=…)`
abbrev pub minutes : ℕ → ℕ
minutes n = n * 60_000_000

-- The interval by the share of the plan that is used, `1 - remaining / plan`: more than 0.9, 0.7 or
-- 0.5 of it.
unfoldable pub interval_minutes : CreditMonitoring → ℕ → ℕ → ℕ
interval_minutes c remaining plan =
    if not c.smart_enabled
    then c.fixed_interval
    else if ltb (10 * remaining) plan
    then c.high_usage_interval
    else if ltb (10 * remaining) (3 * plan)
    then c.medium_usage_interval
    else if ltb (10 * remaining) (5 * plan)
    then c.normal_usage_interval
    else c.low_usage_interval

-- `calculate_next_refresh_time`
unfoldable pub calculate_next_refresh_time :
    CreditMonitoring → (ℕ → ℕ) → ℕ → Option ℕ → Option ℕ → ℕ
unfolding interval_minutes
calculate_next_refresh_time c next_month now (some remaining) (some plan) =
    if plan == 0
    then now + minutes c.fixed_interval
    else if remaining == 0
    then next_month now
    else now + minutes (interval_minutes c remaining plan)
calculate_next_refresh_time c next_month now _ _ = now

abbrev pub is_due : ℕ → Option ℕ → Bool
is_due now none = true
is_due now (some next_refresh_at) = leb next_refresh_at now

abbrev pub is_fetched : Status → Bool
is_fetched active = true
is_fetched cooling = true
is_fetched _ = false

-- The keys of `_refresh_once`.
unfoldable pub due_keys : ℕ → List ApiKey → List ApiKey
due_keys now keys =
    filter (λ k. k.is_active && is_fetched k.status && is_due now k.next_refresh_at) keys

-- `class CreditSnapshot`, without the billing period and the text of an error.
pub record CreditSnapshot : Type 0 where
  pub id : ℕ
  pub api_key_id : ℕ
  pub remaining_credits : ℕ
  pub plan_credits : ℕ
  pub fetch_success : Bool
  pub snapshot_at : ℕ

-- `cleanup_old_snapshots`: what is older than the retention goes, if the commit goes through.
unfoldable pub cleanup_old_snapshots :
    CreditMonitoring → ℕ → Bool → List CreditSnapshot → List CreditSnapshot
cleanup_old_snapshots c now commit_ok snapshots = elim c.retention_days [
  | negsuc n ↦ snapshots
  | pos days ↦
      if days == 0 || not commit_ok
      then snapshots
      else filter (λ s. not (ltb s.snapshot_at (now - days * 86_400_000_000))) snapshots
]
