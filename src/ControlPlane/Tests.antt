-- ===== src/ControlPlane/Tests.antt =====
-- The theorems on the admin routes of app/api/control_plane.py at concrete tables.
use firecrawl_manger.Prelude.{
  ℕ, suc, ◌+◌, ◌≡◌, refl, true, not, none, some, List, [], ◌∷◌, arith, filter, length,
}
use firecrawl_manger.Errors.{ok}
use firecrawl_manger.Models.{ApiKey, RequestLog, quota_exceeded}
use firecrawl_manger.ResourceBinding.{accepts}
use firecrawl_manger.KeyPool.{available, visit}
use firecrawl_manger.Forwarder.Keys.{find_key}
use firecrawl_manger.Forwarder.Tests.{key, env, client}
use firecrawl_manger.ControlPlane.{Db, find_client}
use firecrawl_manger.ControlPlane.Keys.{reset_keys_quota}
use firecrawl_manger.ControlPlane.Clients.{BatchClientResponse, disable, batch_update_clients}
use firecrawl_manger.ControlPlane.Sound.{IsSound}
use firecrawl_manger.ControlPlane.History.{run, purges_client, deletes_key, run-IsSound}
use firecrawl_manger.ControlPlane.Ids.{AllDifferent, is_named}
use firecrawl_manger.ControlPlane.Batch.{is_there, wanted, batch_update_clients-wanted}
use firecrawl_manger.ControlPlane.Logs.{LogQuery, matches}
use firecrawl_manger.ControlPlane.Logs.Pages.{follow, follow-all}
use firecrawl_manger.ControlPlane.Effects.{reset_keys_quota-visit}

-- A key of the client that has used up its quota, and a log of both.
abbrev worn : ApiKey
worn = record key { client_id = some 1; status = quota_exceeded; daily_usage = 5 }

abbrev db : Db
db = record {
  keys = worn ∷ [];
  clients = client ∷ [];
  logs =
      record {
        id = 1;
        client_id = some 1;
        api_key_id = some 1;
        status_code = some 200;
        success = some true;
      }
      ∷ [];
  records = [];
  audits = [];
}

db-IsSound : IsSound db
db-IsSound = record {
  keys_clients = (refl, tt);
  logs_clients = (refl, tt);
  logs_keys = (refl, tt);
  records_clients = tt;
}

run-IsSound_example : IsSound (run (deletes_key accepts 1 ∷ purges_client accepts 1 ∷ []) db)
run-IsSound_example =
    run-IsSound (deletes_key accepts 1 ∷ purges_client accepts 1 ∷ []) db db-IsSound

batch_update_clients-wanted_example :
    let (result, db') = batch_update_clients disable accepts (1 ∷ 9 ∷ 1 ∷ []) db in
    ((ids : List ℕ) × (response : BatchClientResponse) × (result ≡ ok response)
      × AllDifferent ids
      × ((q : ℕ) → is_named q ids ≡ is_named q (1 ∷ 9 ∷ 1 ∷ []))
      × (response.success_count ≡ length (filter (is_there db) ids))
      × (response.failed_ids ≡ filter (λ id. not (is_there db id)) ids)
      × (response.success_count + response.failed_count ≡ length ids))
    × ((q : ℕ)
        → find_client q db'.clients ≡ wanted disable (1 ∷ 9 ∷ 1 ∷ []) q (find_client q db.clients))
batch_update_clients-wanted_example = batch_update_clients-wanted disable (1 ∷ 9 ∷ 1 ∷ []) db

reset_keys_quota-visit_example :
    (back : ApiKey) × (find_key 1 (reset_keys_quota 20 accepts db).1.keys ≡ some back)
    × ((visit env back).0 ≡ ok available)
reset_keys_quota-visit_example =
    reset_keys_quota-visit 1 worn db env 5 refl refl refl refl (omega arith)

-- Three logs, in pages of two.
abbrev log : ℕ → ℕ → RequestLog
log id code = record {
  id = id;
  client_id = some 1;
  api_key_id = none;
  status_code = some code;
  success = some true;
}

abbrev logs : List RequestLog
logs = log 9 200 ∷ log 7 404 ∷ log 4 200 ∷ []

abbrev everything : LogQuery
everything = record {
  client_id = none;
  api_key_id = none;
  status_code = none;
  success = none;
  level = none;
  other = λ _. true;
}

follow-all_example :
    follow (suc (length (filter (matches everything) logs))) 2 none everything logs
    ≡ filter (matches everything) logs
follow-all_example =
    follow-all 2 everything logs (omega arith) (omega arith)
      ((omega arith, (omega arith, tt)), ((omega arith, tt), (tt, tt)))
