-- ===== src/Governance/Tests.antt =====
-- The theorems on the gates of app/api/deps.py at a concrete client.
use firecrawl_manger.Prelude.{◌≡◌, refl, true, some, none, arith}
use firecrawl_manger.Prelude.Dict.{empty}
use firecrawl_manger.Prelude.Text.{text, split_once, strip}
use firecrawl_manger.Errors.{ok}
use firecrawl_manger.Models.{Client}
use firecrawl_manger.Concurrency.{current, new_lease, try_acquire}
use firecrawl_manger.RateLimit.{allow, take_token}
use firecrawl_manger.Governance.{
  Outside, Gates, bearer_token, require_client, enforce_client_governance,
}
use firecrawl_manger.Governance.Access.{require_client_admits}
use firecrawl_manger.Governance.Laws.{
  WithinQuota, finally, enforce_client_governance_current, enforce_client_governance_admits,
}

token_is_read : bearer_token (text "Bearer  abc ") ≡ some (text "abc")
unfolding bearer_token split_once strip
token_is_read = refl

abbrev client : Client
client = record {
  id = 1;
  name = "client";
  token_hash = "hash";
  status = "active";
  is_active = true;
  daily_quota = some 5;
  daily_usage = 5;
  quota_reset_at = some 19;
  rate_limit_per_min = 10;
  max_concurrent = 2;
  last_used_at = none;
}

abbrev outside : Outside
outside = record {
  limiter_answers = true;
  monotonic = 0;
  today = some 20;
  until_midnight = 500;
  commit_ok = true;
}

abbrev gates : Gates
gates = record { states = empty; buckets = empty; client = client }

enforce_client_governance_current_example :
    current "1" (finally (enforce_client_governance true outside "1" gates)).states
    ≡ current "1" empty
enforce_client_governance_current_example =
    (enforce_client_governance_current true outside "1" "1" gates).0 refl

enforce_client_governance_admits_example :
    WithinQuota outside gates.client (enforce_client_governance true outside "1" gates).1.client
unfolding enforce_client_governance allow take_token try_acquire
enforce_client_governance_admits_example =
    (enforce_client_governance_admits outside "1" gates (new_lease (some "1")) (ground arith)).2

require_client_admits_example :
    require_client true (some (text "Bearer abc")) (λ token. ok (some client)) ≡ ok client
unfolding bearer_token split_once strip
require_client_admits_example =
    (require_client_admits true (some (text "Bearer abc")) (λ token. ok (some client)) client).1
      (text "Bearer abc", text "abc", refl, refl, refl, refl, refl)
