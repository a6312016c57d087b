-- ===== src/ResourceBinding/Tests.antt =====
-- The theorems on the bindings of app/core/resource_binding.py at concrete rows.
use firecrawl_manger.Prelude.{◌≡◌, refl, true, some, [], ◌∷◌, arith}
use firecrawl_manger.Prelude.Text.{text, strip}
use firecrawl_manger.Models.{UpstreamResourceBinding}
use firecrawl_manger.ResourceBinding.{
  Session, accepts, stored_as, bind_resource, lookup_bound_key_id,
}
use firecrawl_manger.ResourceBinding.Laws.{Stays, bind_resource-Stays}
use firecrawl_manger.ResourceBinding.Lookup.{lookup-bind}

abbrev session : Session
session = record { now = 1_000; insert = accepts; query_ok = true; commit_ok = true }

abbrev job : UpstreamResourceBinding
job = record {
  client_id = 1;
  api_key_id = 7;
  resource_type = text "crawl";
  resource_id = text "a1";
  created_at = 0;
  expires_at = some 5_000;
}

-- Another key is bound to the same job.
bind_resource-Stays_example :
    Stays
      (stored_as 1 (text "crawl") (text "a1"))
      job
      (bind_resource session 1 8 (text "crawl") (text "a1") (some 60) (job ∷ [])).1
unfolding stored_as
bind_resource-Stays_example =
    bind_resource-Stays session 1 8 (text "crawl") (text "a1") (some 60)
      (stored_as 1 (text "crawl") (text "a1")) job (job ∷ []) refl

lookup-bind_example :
    let table = (bind_resource session 1 8 (text "crawl") (text "b2") (some 60) (job ∷ [])).1 in
    lookup_bound_key_id session 1 (text "crawl") (text " b2 ") table ≡ (some 8, table)
unfolding stored_as strip
lookup-bind_example =
    lookup-bind session session 1 8 (text "crawl") (text "b2") (text " b2 ") (some 60) (job ∷ [])
      (ground arith) refl refl refl refl refl
