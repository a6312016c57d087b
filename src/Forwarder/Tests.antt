-- ===== src/Forwarder/Tests.antt =====
-- Runs of the loop of app/core/forwarder.py, and the theorems at a concrete key and request.
pub mod Upstream
use firecrawl_manger.Prelude.{
  ℕ, String, zero, suc, ◌+◌, ◌<◌, ◌≡◌, refl, Bool, true, false, some, none, [], ◌∷◌, arith,
}
use firecrawl_manger.Prelude.Dict.{empty}
use firecrawl_manger.Prelude.Int.{pos}
use firecrawl_manger.Prelude.Text.{text}
use firecrawl_manger.Errors.{ok, err, database_unavailable}
use firecrawl_manger.Models.{ApiKey, Client, active}
use firecrawl_manger.Concurrency.{current}
use firecrawl_manger.KeyPool.{Env, available, skip_disabled, is_disabled, visit}
use firecrawl_manger.Forwarder.{
  Reply, response, timeout, Settings, Try, World, consume_quota_on_success, disable_key,
  disable_key_decrypt_failed, mark_cooling, record_failure, microseconds,
}
use firecrawl_manger.Forwarder.Answer.{Request}
use firecrawl_manger.Forwarder.Loop.{forward_unpinned}
use firecrawl_manger.Forwarder.Attempts.{Ends, forward_unpinned-Ends}
use firecrawl_manger.Forwarder.Providers.{Providers}
use firecrawl_manger.Forwarder.Pinned.{forward, forward_with}
use firecrawl_manger.Forwarder.Pinned.Attempts.{PinnedEnd, forward_with-PinnedEnd}
use firecrawl_manger.Forwarder.Pinned.Slots.{forward_current}
use firecrawl_manger.Forwarder.Keys.{
  FailsUntil, find_key, record_failures, mark_cooling-visit, disable_key-visit, consume_quota-visit,
  record_failures-visit,
}

abbrev pub key : ApiKey
key = record {
  id = 1;
  client_id = none;
  api_key_ciphertext = "secret";
  api_key_hash = "key hash";
  name = none;
  plan_type = "free";
  is_active = true;
  daily_quota = some 5;
  daily_usage = 4;
  quota_reset_at = some 20;
  max_concurrent = 2;
  rate_limit_per_min = 10;
  cooldown_until = none;
  total_requests = 0;
  last_used_at = none;
  cached_remaining_credits = none;
  cached_plan_credits = none;
  next_refresh_at = none;
  provider = "firecrawl";
  status = active;
}

abbrev pub client : Client
client = record {
  id = 1;
  name = "client";
  token_hash = "hash";
  status = "active";
  is_active = true;
  daily_quota = none;
  daily_usage = 0;
  quota_reset_at = none;
  rate_limit_per_min = 10;
  max_concurrent = 2;
  last_used_at = none;
}

abbrev pub env : Env
env = record {
  now = 60_000_000;
  today = 20;
  until_midnight = 500;
  query_ok = true;
  commit_ok = true;
  stored = key ∷ [];
  remaining_seconds = λ _. ok none;
}

-- The upstream fails first, and answers then.
abbrev pub replies : ℕ → String → Reply
replies zero _ = timeout
replies (suc i) _ =
    response
      (record { status_code = 200; retry_after = none; json = none; headers = []; content = [] })

abbrev pub tries : Bool → ℕ → Try
tries commit_ok i = record {
  env = env;
  monotonic = 60_000_000_000;
  decrypt = λ ciphertext. some ciphertext;
  reply = replies i;
  now = 60_000_000;
  commit_ok = commit_ok;
  stored = key ∷ [];
  stored_client = client;
}

abbrev pub settings : Settings
settings = record {
  has_master_key = true;
  failure_threshold = 3;
  failure_window_seconds = 60;
  failed_cooldown_seconds = 120;
  cooldown_seconds = 60;
  credit_monitoring_enabled = false;
  local_estimation_enabled = false;
  sync_on_request = false;
  count_success = true;
}

abbrev pub request : Request
request = record {
  settings = settings;
  total_attempts = 2;
  scope = record { client = none; provider = "firecrawl" };
  is_get = false;
  upstream_path = text "/v1/scrape";
  str = λ _. "1";
}

abbrev pub world : World
world = record {
  keys = key ∷ [];
  client = client;
  indices = empty;
  states = empty;
  buckets = empty;
  failures = empty;
  requests = [];
  cooldowns = [];
}

forward_unpinned-Ends_example : Ends 0 2 (forward_unpinned request (tries true) world)
forward_unpinned-Ends_example = forward_unpinned-Ends request (tries true) world (omega arith)

abbrev pub providers : Providers
providers = record {
  firecrawl_base_url = text "https://api.firecrawl.dev";
  firecrawl_timeout = 30;
  firecrawl_max_retries = pos 1;
  configured = λ _. none;
}

forward_current_example :
    current "1" (forward providers request (some 1) true (tries true) world).1.states
    ≡ current "1" empty
forward_current_example = forward_current providers request (some 1) true (tries true) world "1"

forward_with-PinnedEnd_example :
    PinnedEnd request 0 1 [] (forward_with request (tries true) world (some key))
forward_with-PinnedEnd_example = forward_with-PinnedEnd request (tries true) world key (omega arith)
