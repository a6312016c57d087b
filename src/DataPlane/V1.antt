-- ===== src/DataPlane/V1.antt =====
-- The routes of app/api/data_plane.py (`api_…`) and of app/api/firecrawl_compat.py (`v1_…`).
use firecrawl_manger.Prelude.{◌++◌, some, none}
use firecrawl_manger.Prelude.Text.{Text, text}
use firecrawl_manger.DataPlane.{
  Call, Once, Gateway, Answered, with_query, path_and_query, plain, forward_once,
}

unfoldable pub api_scrape : Call → Gateway → Answered × Gateway
unfolding plain
api_scrape c g = plain c "POST" (text "/v1/scrape") g

unfoldable pub api_crawl : Once → Call → Gateway → Answered × Gateway
unfolding forward_once
api_crawl o c g = forward_once o c (text "crawl") (text "/v1/crawl") none g

unfoldable pub api_crawl_status : Call → Text → Gateway → Answered × Gateway
unfolding plain
api_crawl_status c crawl_id g = plain c "GET" (text "/v1/crawl/" ++ crawl_id) g

unfoldable pub api_search : Call → Gateway → Answered × Gateway
unfolding plain
api_search c g = plain c "POST" (text "/v1/search") g

unfoldable pub api_agent : Once → Call → Gateway → Answered × Gateway
unfolding forward_once
api_agent o c g = forward_once o c (text "agent") (text "/v2/agent") (some (text "/v1/agent")) g

unfoldable pub v1_scrape : Call → Gateway → Answered × Gateway
unfolding plain
v1_scrape c g = plain c "POST" (path_and_query c) g

unfoldable pub v1_crawl_status : Call → Gateway → Answered × Gateway
unfolding plain
v1_crawl_status c g = plain c "GET" (path_and_query c) g

unfoldable pub v1_search : Call → Gateway → Answered × Gateway
unfolding plain
v1_search c g = plain c "POST" (path_and_query c) g

unfoldable pub v1_crawl : Once → Call → Gateway → Answered × Gateway
unfolding forward_once
v1_crawl o c g = forward_once o c (text "crawl") (path_and_query c) none g

unfoldable pub v1_agent : Once → Call → Gateway → Answered × Gateway
unfolding forward_once
v1_agent o c g =
    forward_once o c (text "agent") (with_query c (text "/v2/agent")) (some (path_and_query c)) g
