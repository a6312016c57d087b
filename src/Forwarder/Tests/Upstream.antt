-- ===== src/Forwarder/Tests/Upstream.antt =====
-- Headers and tests of keys of app/core/forwarder.py: the theorems at concrete requests and keys.
use firecrawl_manger.Prelude.{
  ◌≢◌, inr, ℕ, ◌≡◌, ◌↔◌, refl, true, Option, none, some, [], ◌∷◌, All, ◌==◌, if◌then◌else◌,
}
use firecrawl_manger.Prelude.Text.{Text, text, text_equality}
use firecrawl_manger.Errors.{ok}
use firecrawl_manger.Models.{ApiKey, active, cooling}
use firecrawl_manger.KeyPool.{available, visit, is_disabled}
use firecrawl_manger.KeyPool.Verdict.{HasQuota}
use firecrawl_manger.Forwarder.{Response}
use firecrawl_manger.Forwarder.Keys.{find_key}
use firecrawl_manger.Forwarder.Providers.{upstream_headers}
use firecrawl_manger.Forwarder.Providers.Headers.{Has, IsPassed, IsSent, upstream_headers-IsSent}
use firecrawl_manger.Forwarder.KeyTest.{conclude}
use firecrawl_manger.Forwarder.KeyTest.Laws.{conclude-visit}
use firecrawl_manger.Forwarder.Tests.{key, env, tries, settings, world}

-- The client sends its own token, and what it accepts.
abbrev sent : Text → Option Text
sent name =
    if name == text "accept"
    then some (text "text/html")
    else if name == text "authorization"
    then some (text "Bearer token")
    else none

upstream_headers-IsSent_example :
    let headers = upstream_headers sent (text "id") (text "x-api-key", text "secret") in
    All (IsSent sent (text "id") (text "x-api-key", text "secret")) headers
    × Has (text "x-api-key", text "secret") headers
    × Has (text "x-request-id", text "id") headers
    × ((name value : Text)
        → IsPassed name
        → sent name ≡ some value
        → value ≢ []
        → Has (name, value) headers)
upstream_headers-IsSent_example =
    upstream_headers-IsSent sent (text "id") (text "x-api-key", text "secret") (inr refl)

abbrev reply_of : ℕ → Response
reply_of status_code = record {
  status_code = status_code;
  retry_after = none;
  json = none;
  headers = [];
  content = [];
}

-- The key is paused, and its test is answered by 200.
abbrev paused : ApiKey
paused = record key { status = cooling; cooldown_until = some 90_000_000 }

conclude-visit_example :
    let (result, w') =
      conclude settings
        (tries true 0)
        paused
        (reply_of 200)
        (record world { keys = paused ∷ [] }) in
    (result.passed ≡ true)
    × (result.observed_status ≡ active)
    × ((revived : ApiKey) × (find_key 1 w'.keys ≡ some revived)
        × (revived.is_active ≡ true)
        × (revived.status ≡ active)
        × (revived.cooldown_until ≡ none)
        × (((visit env revived).0 ≡ ok available) ↔ HasQuota env revived))
unfolding is_disabled
conclude-visit_example =
    conclude-visit settings (tries true 0) paused paused (reply_of 200)
      (record world { keys = paused ∷ [] }) env refl refl refl refl
