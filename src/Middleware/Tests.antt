-- ===== src/Middleware/Tests.antt =====
-- The theorem on app/middleware.py at a concrete request.
use firecrawl_manger.Prelude.{◌≡◌, ◌⊎◌, ◌↔◌, Option, none, some, [], ◌∷◌}
use firecrawl_manger.Prelude.Int.{ℤ, pos}
use firecrawl_manger.Prelude.Text.{Text, text}
use firecrawl_manger.Middleware.{Limits, Incoming, dispatch}
use firecrawl_manger.Middleware.Laws.{IsAllowed, IsSmall, IsJson, dispatch_passes}

abbrev small : Limits
small = record {
  max_body_bytes = 4;
  allowed_api_paths = text "scrape" ∷ [];
  allowed_exa_paths = [];
}

abbrev posted : Incoming
posted = record {
  method = "POST";
  path = text "/v2/scrape";
  content_length = text "3";
  content_type = text "application/json";
  body = 1 ∷ 2 ∷ 3 ∷ [];
}

abbrev int : Text → Option ℤ
int _ = some (pos 3)

dispatch_passes_example : (dispatch int small posted ≡ none) ↔ (
    IsAllowed small posted.path
    × (((posted.method ≡ "GET") ⊎ (posted.method ≡ "HEAD"))
        ⊎ (IsSmall int small posted.content_length × IsJson small posted.content_type posted.body)))
dispatch_passes_example = dispatch_passes int small posted
