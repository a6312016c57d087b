-- ===== src/ControlPlane/History.antt =====
-- Histories of admin requests of app/api/control_plane.py.
use firecrawl_manger.Prelude.{ℕ, String, Bool, List, [], ◌∷◌, nat_equality, string_equality}
use firecrawl_manger.ResourceBinding.{Answer}
use firecrawl_manger.ControlPlane.{Db}
use firecrawl_manger.ControlPlane.Keys.{
  Vault, CreateKeyRequest, UpdateKeyRequest, create_key, update_key, delete_key, purge_key,
  reset_keys_quota,
}
use firecrawl_manger.ControlPlane.KeyBatch.{BatchKeysRequest, batch_keys}
use firecrawl_manger.ControlPlane.Clients.{
  CreateClientRequest, UpdateClientRequest, BatchAction, create_client, update_client,
  delete_client, purge_client, rotate_client_token, batch_update_clients,
}
use firecrawl_manger.ControlPlane.Import.{ImportKeysTextRequest, Secrets, Account, Attempt}
use firecrawl_manger.ControlPlane.Import.Lines.{import_keys_text}
use firecrawl_manger.ControlPlane.Import.Runs.{import_keys_text-IsSound}
use firecrawl_manger.ControlPlane.Sound.{IsSound}
use firecrawl_manger.ControlPlane.Runs.{
  create_key-IsSound, update_key-IsSound, delete_key-IsSound, purge_key-IsSound,
  reset_keys_quota-IsSound, batch_each-IsSound,
}
use firecrawl_manger.ControlPlane.ClientRuns.{
  create_client-IsSound, update_client-IsSound, delete_client-IsSound, purge_client-IsSound,
  rotate_client_token-IsSound, batch_update_clients-IsSound,
}

-- A request to one of the admin routes, with what it meets.
pub data Operation : Type 0 where
  creates_key : Vault → ℕ → ℕ → Answer → CreateKeyRequest → Operation
  updates_key : Vault → Answer → ℕ → UpdateKeyRequest → Operation
  deletes_key purges_key : Answer → ℕ → Operation
  resets_quota : ℕ → Answer → Operation
  changes_keys : BatchKeysRequest → (ℕ → Answer) → Operation
  imports_keys :
      Secrets → ℕ → ImportKeysTextRequest → (ℕ → Attempt) → Bool → (ℕ → Account) → Operation
  creates_client : Vault → ℕ → ℕ → String → Answer → CreateClientRequest → Operation
  updates_client : Answer → ℕ → UpdateClientRequest → Operation
  deletes_client purges_client : Answer → ℕ → Operation
  rotates_token : Vault → String → Answer → ℕ → Operation
  changes_clients : BatchAction → Answer → List ℕ → Operation

unfoldable pub step : Operation → Db → Db
step (creates_key vault new_id today answer p) db = (create_key vault new_id today answer p db).1
step (updates_key vault answer key_id p) db = (update_key vault answer key_id p db).1
step (deletes_key answer key_id) db = (delete_key answer key_id db).1
step (purges_key answer key_id) db = (purge_key answer key_id db).1
step (resets_quota today answer) db = (reset_keys_quota today answer db).1
step (changes_keys p answers) db = (batch_keys p answers db).1
step (imports_keys secrets today p tries commit_ok accounts) db =
    (import_keys_text secrets today p tries commit_ok db accounts).1
step (creates_client vault new_id today token answer p) db =
    (create_client vault new_id today token answer p db).1
step (updates_client answer client_id p) db = (update_client answer client_id p db).1
step (deletes_client answer client_id) db = (delete_client answer client_id db).1
step (purges_client answer client_id) db = (purge_client answer client_id db).1
step (rotates_token vault token answer client_id) db =
    (rotate_client_token vault token answer client_id db).1
step (changes_clients action answer client_ids) db =
    (batch_update_clients action answer client_ids db).1

unfoldable pub run : List Operation → Db → Db
unfolding step
run [] db = db
run (op ∷ ops) db = run ops (step op db)

step-IsSound : (op : Operation) (db : Db) → IsSound db → IsSound (step op db)
unfolding step batch_keys
step-IsSound (creates_key vault new_id today answer p) db s =
    create_key-IsSound vault new_id today answer p db s
step-IsSound (updates_key vault answer key_id p) db s =
    update_key-IsSound vault answer key_id p db s
step-IsSound (deletes_key answer key_id) db s = delete_key-IsSound answer key_id db s
step-IsSound (purges_key answer key_id) db s = purge_key-IsSound answer key_id db s
step-IsSound (resets_quota today answer) db s = reset_keys_quota-IsSound today answer db s
step-IsSound (changes_keys p answers) db s = batch_each-IsSound p answers p.ids db s
step-IsSound (imports_keys secrets today p tries commit_ok accounts) db s =
    import_keys_text-IsSound secrets today p tries commit_ok db accounts s
step-IsSound (creates_client vault new_id today token answer p) db s =
    create_client-IsSound vault new_id today token answer p db s
step-IsSound (updates_client answer client_id p) db s =
    update_client-IsSound answer client_id p db s
step-IsSound (deletes_client answer client_id) db s = delete_client-IsSound answer client_id db s
step-IsSound (purges_client answer client_id) db s = purge_client-IsSound answer client_id db s
step-IsSound (rotates_token vault token answer client_id) db s =
    rotate_client_token-IsSound vault token answer client_id db s
step-IsSound (changes_clients action answer client_ids) db s =
    batch_update_clients-IsSound action answer client_ids db s

-- No history of admin requests, however their commits end, leaves a key, a log or an idempotency
-- record that names a client that is gone, or a log that names a key that is gone.
pub run-IsSound : (ops : List Operation) (db : Db) → IsSound db → IsSound (run ops db)
unfolding run
run-IsSound [] db s = s
run-IsSound (op ∷ ops) db s = run-IsSound ops (step op db) (step-IsSound op db s)
