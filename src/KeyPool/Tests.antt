-- ===== src/KeyPool/Tests.antt =====
-- Runs of `KeyPool.select` of app/core/key_pool.py, and the theorems at concrete rows.
use firecrawl_manger.Prelude.{
  ℕ, zero, suc, Bool, true, false, List, [], ◌∷◌, ◌≡◌, ◌<◌, refl, none, some, arith,
}
use firecrawl_manger.Prelude.Dict.{empty}
use firecrawl_manger.Errors.{ok, err, database_unavailable}
use firecrawl_manger.Models.{ApiKey, Status, active, cooling, disabled, quota_exceeded}
use firecrawl_manger.KeyPool.{Env, Scope, Visit, skip_disabled, skip_quota, skip_cooling, visit}
use firecrawl_manger.KeyPool.Verdict.{IsReady, visit_available_iff}
use firecrawl_manger.KeyPool.Select.{select_from}
use firecrawl_manger.KeyPool.Select.Loop.{FirstAt, SkipsAt}
use firecrawl_manger.KeyPool.Select.Outcome.{
  select_from_selects, select_from_rolls_back, select_from-Explains, AllSkipped,
}

abbrev sample : ℕ → Status → ApiKey
sample id status = record {
  id = id;
  client_id = some 1;
  api_key_ciphertext = "secret";
  api_key_hash = "key hash";
  name = none;
  plan_type = "free";
  is_active = true;
  daily_quota = some 5;
  daily_usage = 5;
  quota_reset_at = some 20;
  max_concurrent = 2;
  rate_limit_per_min = 10;
  cooldown_until = some 90_000_000;
  total_requests = 0;
  last_used_at = none;
  cached_remaining_credits = none;
  cached_plan_credits = none;
  next_refresh_at = none;
  provider = "firecrawl";
  status = status;
}

-- Day 20, sixty seconds into the epoch.
abbrev env_at : ℕ → Bool → Env
env_at today commit_ok = record {
  now = 60_000_000;
  today = today;
  until_midnight = 500;
  query_ok = true;
  commit_ok = commit_ok;
  stored = sample 1 disabled ∷ [];
  remaining_seconds = λ _. ok none;
}

abbrev scope : Scope
scope = record { client = some 1; provider = "firecrawl" }

-- The first key cools for thirty more seconds, the second is worn out until the day changes.
abbrev rows : List ApiKey
rows = sample 1 cooling ∷ sample 2 quota_exceeded ∷ []

first_passed :
    (commit_ok : Bool) (p : ℕ) → p < 1 → (w : Visit) × SkipsAt (env_at 21 commit_ok) rows 0 p w
unfolding visit
first_passed commit_ok zero h = (
  skip_cooling 30,
  record { key = sample 1 cooling; here = refl; visited = refl; skips = λ e. ground arith },
)
first_passed commit_ok (suc p) h = absurd (omega arith)

second_ready : (commit_ok : Bool) → FirstAt (env_at 21 commit_ok) rows 0 1 (sample 2 quota_exceeded)
unfolding visit
second_ready commit_ok = record {
  in_range = omega arith;
  here = refl;
  ready = refl;
  earlier = first_passed commit_ok;
}

visit_available_iff_example : IsReady (env_at 21 true) (sample 2 quota_exceeded)
unfolding visit
visit_available_iff_example =
    (visit_available_iff (env_at 21 true) (sample 2 quota_exceeded)).0 refl

select_from_selects_example :
    (select_from (env_at 21 true) scope empty rows).0
    ≡ ok (record {
      index = 1;
      api_key = (visit (env_at 21 true) (sample 2 quota_exceeded)).1;
      today = 21;
      now = 60_000_000;
    })
select_from_selects_example =
    (select_from_selects (env_at 21 true) scope scope empty rows 1 (sample 2 quota_exceeded) refl
      (second_ready true)).0

select_from_rolls_back_example :
    select_from (env_at 21 false) scope empty rows
    ≡ (err database_unavailable, empty, sample 1 disabled ∷ [])
select_from_rolls_back_example =
    select_from_rolls_back (env_at 21 false) scope empty rows 1 (sample 2 quota_exceeded) refl
      (second_ready false)

-- On the day of its quota the second key is worn out, and the first is disabled.
abbrev worn : List ApiKey
worn = sample 1 disabled ∷ sample 2 active ∷ []

abbrev verdicts : ℕ → Visit
verdicts zero = skip_disabled
verdicts (suc p) = skip_quota

worn_skipped : AllSkipped (env_at 20 true) worn 0 verdicts
unfolding visit
worn_skipped zero h = record {
  key = sample 1 disabled;
  here = refl;
  visited = refl;
  skips = λ e. ground arith;
}
worn_skipped (suc zero) h = record {
  key = sample 2 active;
  here = refl;
  visited = refl;
  skips = λ e. ground arith;
}
worn_skipped (suc (suc p)) h = absurd (omega arith)

select_from-Explains_example : (select_from (env_at 20 true) scope empty worn).1 ≡ empty
select_from-Explains_example =
    (select_from-Explains (env_at 20 true) scope empty worn verdicts refl worn_skipped).3
