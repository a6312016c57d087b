-- ===== src/DataPlane/V2.antt =====
-- The routes of app/api/firecrawl_v2_compat.py. What is written to `request.state` is only logged.
use firecrawl_manger.Prelude.{◌++◌, some, none}
use firecrawl_manger.Prelude.Text.{Text, text}
use firecrawl_manger.DataPlane.{
  Call, Once, Gateway, Answered, with_query, path_and_query, plain, create_resource, use_resource,
  create_once,
}

unfoldable pub crawl : Once → Call → Gateway → Answered × Gateway
unfolding create_once
crawl o c g =
    create_once o c (text "crawl") (text "crawl") (with_query c (text "/v2/crawl"))
      (some (with_query c (text "/v2/crawl/start"))) g

unfoldable pub crawl_start : Once → Call → Gateway → Answered × Gateway
unfolding create_once
crawl_start o c g =
    create_once o c (text "crawl") (text "crawl") (with_query c (text "/v2/crawl"))
      (some (with_query c (text "/v2/crawl/start"))) g

unfoldable pub crawl_active : Call → Gateway → Answered × Gateway
unfolding plain
crawl_active c g = plain c "GET" (with_query c (text "/v2/crawl/active")) g

unfoldable pub crawl_params_preview : Call → Gateway → Answered × Gateway
unfolding plain
crawl_params_preview c g = plain c "POST" (with_query c (text "/v2/crawl/params-preview")) g

unfoldable pub crawl_status : Call → Text → Gateway → Answered × Gateway
unfolding use_resource
crawl_status c job_id g =
    use_resource c "GET" (text "crawl") job_id (with_query c (text "/v2/crawl/" ++ job_id))
      (some (with_query c (text "/v2/crawl/status/" ++ job_id))) g

unfoldable pub crawl_status_alias : Call → Text → Gateway → Answered × Gateway
unfolding use_resource
crawl_status_alias c job_id g =
    use_resource c "GET" (text "crawl") job_id (with_query c (text "/v2/crawl/" ++ job_id))
      (some (with_query c (text "/v2/crawl/status/" ++ job_id))) g

unfoldable pub agent : Once → Call → Gateway → Answered × Gateway
unfolding create_once
agent o c g = create_once o c (text "agent") (text "agent") (path_and_query c) none g

unfoldable pub batch_scrape : Call → Gateway → Answered × Gateway
unfolding create_resource
batch_scrape c g =
    create_resource c (text "batch_scrape") (with_query c (text "/v2/batch/scrape"))
      (some (with_query c (text "/v2/batch/scrape/start"))) g

unfoldable pub batch_scrape_start : Call → Gateway → Answered × Gateway
unfolding create_resource
batch_scrape_start c g =
    create_resource c (text "batch_scrape") (with_query c (text "/v2/batch/scrape"))
      (some (with_query c (text "/v2/batch/scrape/start"))) g

unfoldable pub batch_scrape_status : Call → Text → Gateway → Answered × Gateway
unfolding use_resource
batch_scrape_status c job_id g =
    use_resource c "GET" (text "batch_scrape") job_id
      (with_query c (text "/v2/batch/scrape/" ++ job_id))
      (some (with_query c (text "/v2/batch/scrape/status/" ++ job_id))) g

unfoldable pub batch_scrape_status_alias : Call → Text → Gateway → Answered × Gateway
unfolding use_resource
batch_scrape_status_alias c job_id g =
    use_resource c "GET" (text "batch_scrape") job_id
      (with_query c (text "/v2/batch/scrape/" ++ job_id))
      (some (with_query c (text "/v2/batch/scrape/status/" ++ job_id))) g

unfoldable pub crawl_delete : Call → Text → Gateway → Answered × Gateway
unfolding use_resource
crawl_delete c job_id g =
    use_resource c "DELETE" (text "crawl") job_id (with_query c (text "/v2/crawl/" ++ job_id)) none
      g

unfoldable pub crawl_errors : Call → Text → Gateway → Answered × Gateway
unfolding use_resource
crawl_errors c job_id g =
    use_resource c "GET" (text "crawl") job_id
      (with_query c (text "/v2/crawl/" ++ (job_id ++ text "/errors"))) none g

unfoldable pub batch_scrape_errors : Call → Text → Gateway → Answered × Gateway
unfolding use_resource
batch_scrape_errors c job_id g =
    use_resource c "GET" (text "batch_scrape") job_id
      (with_query c (text "/v2/batch/scrape/" ++ (job_id ++ text "/errors"))) none g

unfoldable pub batch_scrape_delete : Call → Text → Gateway → Answered × Gateway
unfolding use_resource
batch_scrape_delete c job_id g =
    use_resource c "DELETE" (text "batch_scrape") job_id
      (with_query c (text "/v2/batch/scrape/" ++ job_id)) none g

unfoldable pub agent_status : Call → Text → Gateway → Answered × Gateway
unfolding use_resource
agent_status c job_id g =
    use_resource c "GET" (text "agent") job_id (with_query c (text "/v2/agent/" ++ job_id)) none g

unfoldable pub agent_delete : Call → Text → Gateway → Answered × Gateway
unfolding use_resource
agent_delete c job_id g =
    use_resource c "DELETE" (text "agent") job_id (with_query c (text "/v2/agent/" ++ job_id)) none
      g

unfoldable pub browser_create : Call → Gateway → Answered × Gateway
unfolding create_resource
browser_create c g = create_resource c (text "browser") (with_query c (text "/v2/browser")) none g

unfoldable pub browser_list : Call → Gateway → Answered × Gateway
unfolding plain
browser_list c g = plain c "GET" (with_query c (text "/v2/browser")) g

unfoldable pub browser_execute : Call → Text → Gateway → Answered × Gateway
unfolding use_resource
browser_execute c job_id g =
    use_resource c "POST" (text "browser") job_id
      (with_query c (text "/v2/browser/" ++ (job_id ++ text "/execute"))) none g

unfoldable pub browser_delete : Call → Text → Gateway → Answered × Gateway
unfolding use_resource
browser_delete c job_id g =
    use_resource c "DELETE" (text "browser") job_id (with_query c (text "/v2/browser/" ++ job_id))
      none g

unfoldable pub extract : Call → Gateway → Answered × Gateway
unfolding create_resource
extract c g = create_resource c (text "extract") (with_query c (text "/v2/extract")) none g

unfoldable pub extract_status : Call → Text → Gateway → Answered × Gateway
unfolding use_resource
extract_status c job_id g =
    use_resource c "GET" (text "extract") job_id (with_query c (text "/v2/extract/" ++ job_id)) none
      g

unfoldable pub scrape : Call → Gateway → Answered × Gateway
unfolding plain
scrape c g = plain c "POST" (with_query c (text "/v2/scrape")) g

unfoldable pub search : Call → Gateway → Answered × Gateway
unfolding plain
search c g = plain c "POST" (with_query c (text "/v2/search")) g

unfoldable pub map_urls : Call → Gateway → Answered × Gateway
unfolding plain
map_urls c g = plain c "POST" (with_query c (text "/v2/map")) g

unfoldable pub team_credit_usage : Call → Gateway → Answered × Gateway
unfolding plain
team_credit_usage c g = plain c "GET" (with_query c (text "/v2/team/credit-usage")) g

unfoldable pub team_queue_status : Call → Gateway → Answered × Gateway
unfolding plain
team_queue_status c g = plain c "GET" (with_query c (text "/v2/team/queue-status")) g

unfoldable pub team_credit_usage_historical : Call → Gateway → Answered × Gateway
unfolding plain
team_credit_usage_historical c g =
    plain c "GET" (with_query c (text "/v2/team/credit-usage/historical")) g

unfoldable pub team_token_usage : Call → Gateway → Answered × Gateway
unfolding plain
team_token_usage c g = plain c "GET" (with_query c (text "/v2/team/token-usage")) g

unfoldable pub team_token_usage_historical : Call → Gateway → Answered × Gateway
unfolding plain
team_token_usage_historical c g =
    plain c "GET" (with_query c (text "/v2/team/token-usage/historical")) g

unfoldable pub passthrough_get : Call → Gateway → Answered × Gateway
unfolding plain
passthrough_get c g = plain c "GET" (path_and_query c) g

unfoldable pub passthrough_post : Call → Gateway → Answered × Gateway
unfolding plain
passthrough_post c g = plain c "POST" (path_and_query c) g

unfoldable pub passthrough_delete : Call → Gateway → Answered × Gateway
unfolding plain
passthrough_delete c g = plain c "DELETE" (path_and_query c) g
