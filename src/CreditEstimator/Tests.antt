-- ===== src/CreditEstimator/Tests.antt =====
-- Runs of app/core/credit_estimator.py, and the theorems at concrete requests.
use firecrawl_manger.Prelude.{◌≡◌, refl, true, some, none}
use firecrawl_manger.Prelude.Text.{text}
use firecrawl_manger.Models.{ApiKey, active}
use firecrawl_manger.CreditEstimator.{ResponseData, estimate_credit_cost}

abbrev pages : ResponseData
pages = record { total = some 42; count = none }

crawl_costs_its_pages : estimate_credit_cost (text "/v1/crawl") (some pages) ≡ 42
unfolding estimate_credit_cost
crawl_costs_its_pages = refl

abbrev cached : ApiKey
cached = record {
  id = 1;
  client_id = none;
  api_key_ciphertext = "secret";
  api_key_hash = "key hash";
  name = none;
  plan_type = "free";
  is_active = true;
  daily_quota = none;
  daily_usage = 0;
  quota_reset_at = none;
  max_concurrent = 2;
  rate_limit_per_min = 10;
  cooldown_until = none;
  total_requests = 0;
  last_used_at = none;
  cached_remaining_credits = some 3;
  cached_plan_credits = none;
  next_refresh_at = none;
  provider = "firecrawl";
  status = active;
}
