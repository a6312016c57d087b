-- ===== src/Credits/Tests.antt =====
-- The theorems on app/core/credit_refresh.py with its default intervals, and on
-- app/core/credit_aggregator.py for a client with two keys.
use firecrawl_manger.Prelude.{
  any, inl, ◌==◌, nat_equality, ℕ, List, map, none, ◌+◌, ◌≤◌, ◌<◌, ◌≡◌, refl, true, some, [], ◌∷◌,
  arith,
}
use firecrawl_manger.Prelude.Int.{pos}
use firecrawl_manger.Errors.{ok}
use firecrawl_manger.KeyPool.{visit, skip_disabled}
use firecrawl_manger.Forwarder.Keys.{find_key}
use firecrawl_manger.Forwarder.Tests.{key, client, env}
use firecrawl_manger.Models.{ApiKey}
use firecrawl_manger.Credits.{
  CreditMonitoring, minutes, interval_minutes, calculate_next_refresh_time, due_keys,
  CreditSnapshot,
}
use firecrawl_manger.Credits.Aggregate.{ClientCredits, aggregate_client_credits, or_zero, total_of}
use firecrawl_manger.Credits.Sums.{Lists, IsTotal, aggregate_client_credits_adds_up}
use firecrawl_manger.Credits.Fetch.{
  CreditCall, Tables, DbSession, save, not_json, returns, raises, snapshot_of, with_credits,
  note_check, response, credits, fetch_credit_from_firecrawl,
}
use firecrawl_manger.Credits.Refresh.{
  due_ids, Pass, refresh_once, refresh_batches, refresh_keys, refresh_key,
}
use firecrawl_manger.Credits.Passes.{refresh_once_settles}
use firecrawl_manger.Credits.Manual.{Setup, too_frequent, refresh_key_credits_api}
use firecrawl_manger.Credits.Manuals.{refresh_key_credits_again}
use firecrawl_manger.Credits.Providers.{refresh_key-visit}
use firecrawl_manger.Credits.Report.{reported_total, reported_total-total_of}
use firecrawl_manger.Credits.Laws.{IsOrdered, calculate_next_refresh_time_order}

abbrev config : CreditMonitoring
config = record {
  fixed_interval = 60;
  smart_enabled = true;
  high_usage_interval = 15;
  medium_usage_interval = 30;
  normal_usage_interval = 60;
  low_usage_interval = 120;
  retention_days = pos 90;
  batch_size = pos 10;
  retry_delay_minutes = pos 10;
}

abbrev next_month : ℕ → ℕ
next_month now = now + 1

-- 8 percent are left.
next-soon : calculate_next_refresh_time config next_month 0 (some 40) (some 500) ≡ minutes 15
unfolding calculate_next_refresh_time interval_minutes
next-soon = refl

calculate_next_refresh_time_order_example :
    let next = calculate_next_refresh_time config next_month 5 (some 40) (some 500) in
    let next' = calculate_next_refresh_time config next_month 5 (some 200) (some 500) in
    (due_keys 5 (record key { next_refresh_at = some next } ∷ []) ≡ []) × (0 < 40 → next ≤ next')
calculate_next_refresh_time_order_example =
    calculate_next_refresh_time_order config next_month 5 40 200 500 key
      (record {
        fixed = omega arith;
        high = omega arith;
        medium = omega arith;
        normal = omega arith;
        low = omega arith;
      })
      (omega arith) (omega arith)

-- A free key that began with 500 credits, and one with a plan.
abbrev keys : List ApiKey
keys =
    record key { client_id = some 1; cached_remaining_credits = some 120 }
    ∷ record key {
      id = 2;
      client_id = some 1;
      cached_remaining_credits = some 900;
      cached_plan_credits = some 3_000;
    }
    ∷ []

abbrev snapshot : ℕ → ℕ → CreditSnapshot
snapshot remaining at = record {
  id = at;
  api_key_id = 1;
  remaining_credits = remaining;
  plan_credits = 0;
  fetch_success = true;
  snapshot_at = at;
}

abbrev snapshots : List CreditSnapshot
snapshots = snapshot 120 9 ∷ snapshot 500 4 ∷ []

totals : map (λ k. total_of snapshots k) keys ≡ 500 ∷ 3_000 ∷ []
unfolding total_of
totals = refl

aggregate_client_credits_adds_up_example :
    (a : ClientCredits) × (aggregate_client_credits 1 (client ∷ []) keys snapshots ≡ some a)
    × Lists 1 snapshots keys a.keys
    × IsTotal a
aggregate_client_credits_adds_up_example =
    aggregate_client_credits_adds_up 1 (client ∷ []) keys snapshots client refl

-- The key 1 has no next time, and the upstream says that it has 40 of 500 credits left.
abbrev call : CreditCall
call = record {
  decrypted = true;
  now = 7;
  later = 8;
  reply = response 200 (credits 40 500);
  new_id = 3;
  commit_ok = true;
  refresh_ok = true;
}

abbrev session : DbSession
session = record { rows = tables; committed = tables }
  where
    tables : Tables
    tables = record { keys = key ∷ []; snapshots = []; checks = λ id. none }

abbrev pass : Pass
pass = record {
  now = 6;
  call = λ id. call;
  again = λ id. 9;
  rereads = λ id. true;
  commits = λ i. true;
  cleanup_at = 9;
  cleans = true;
}

after_15_minutes :
    map (λ k. k.next_refresh_at) (refresh_once config next_month pass session).committed.keys
    ≡ some (9 + minutes 15) ∷ []
unfolding refresh_once refresh_batches refresh_keys refresh_key fetch_credit_from_firecrawl due_keys
    calculate_next_refresh_time interval_minutes
after_15_minutes = refl

config-IsOrdered : IsOrdered config
config-IsOrdered = record {
  fixed = omega arith;
  high = omega arith;
  medium = omega arith;
  normal = omega arith;
  low = omega arith;
}

refresh_once_settles_example :
    due_keys 6 (refresh_once config next_month pass session).committed.keys ≡ []
refresh_once_settles_example =
    refresh_once_settles config next_month pass config-IsOrdered (λ t. omega arith)
      (λ id. omega arith) (λ id. refl) (λ i. refl) session refl

abbrev setup : Setup
setup = record {
  has_master_key = true;
  monitoring = config;
  min_manual_refresh_interval_seconds = 0;
  next_month = next_month;
  now = 7;
}

-- What the call leaves.
abbrev stored : DbSession
stored = save true written session
  where
    written : Tables
    written = record {
      keys = with_credits config next_month call key 40 500 ∷ [];
      snapshots = snapshot_of call key true 40 500 ∷ [];
      checks = note_check 1 (3, 7) (λ id. none);
    }

fetched :
    fetch_credit_from_firecrawl config next_month call key session
    ≡ (returns (snapshot_of call key true 40 500), stored)
unfolding fetch_credit_from_firecrawl
fetched = refl

refresh_key_credits_again_example :
    (refresh_key_credits_api setup call 1 session
      ≡ (returns (snapshot_of call key true 40 500), stored))
    × (refresh_key_credits_api (record setup { now = 8 }) call 1 stored
        ≡ (raises too_frequent, stored))
refresh_key_credits_again_example =
    refresh_key_credits_again setup (record setup { now = 8 }) call call key session stored
      (snapshot_of call key true 40 500) refl refl refl refl refl fetched (omega arith)

-- A key of exa, and a pass in which Firecrawl refuses it.
abbrev exa_key : ApiKey
exa_key = record key { provider = "exa" }

abbrev exa_session : DbSession
exa_session = save true (record session.rows { keys = exa_key ∷ [] }) session

abbrev refusing : Pass
refusing = record pass { call = λ id. record call { reply = response 401 not_json } }

refresh_key-visit_example :
    (any (λ i. i == 1) (due_ids 6 exa_session.rows.keys) ≡ true)
    × ((row : ApiKey) × (find_key 1 (refresh_key config next_month refusing 1 exa_session).rows.keys
          ≡ some row)
        × (row.provider ≡ "exa")
        × ((visit env row).0 ≡ ok skip_disabled))
refresh_key-visit_example =
    refresh_key-visit config next_month refusing 1 exa_key exa_session not_json env refl refl refl
      (inl refl) (inl refl) refl refl refl

reported_total-total_of_example :
    or_zero (reported_total snapshots (record key { cached_remaining_credits = some 120 }))
    ≡ total_of snapshots (record key { cached_remaining_credits = some 120 })
reported_total-total_of_example =
    reported_total-total_of snapshots (record key { cached_remaining_credits = some 120 })
