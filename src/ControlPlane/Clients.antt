-- ===== src/ControlPlane/Clients.antt =====
-- app/api/control_plane.py and app/core/batch_clients.py: the admin routes that change clients.
use firecrawl_manger.Prelude.{
  ℕ, ◌+◌, String, Bool, true, false, not, ◌||◌, Option, none, some, List, [], ◌∷◌, ◌++◌, filter,
  any, ◌==◌, nat_equality, string_equality, map, length, is_some, if◌then◌else◌,
}
use firecrawl_manger.Errors.{
  Result, ok, err, FcamError, error, validation_error, database_unavailable,
}
use firecrawl_manger.Models.{ApiKey, Client, RequestLog}
use firecrawl_manger.ResourceBinding.{Answer}
use firecrawl_manger.KeyPool.{option_beq}
use firecrawl_manger.ControlPlane.{Db, audit, commit, missing, find_client, set_client}
use firecrawl_manger.ControlPlane.Keys.{Vault, no_master_key, unless_taken, or_else}

-- `class CreateClientRequest`
pub record CreateClientRequest : Type 0 where
  pub name : String
  pub daily_quota : Option ℕ
  pub rate_limit_per_min : ℕ
  pub max_concurrent : ℕ
  pub is_active : Bool

abbrev pub duplicate_client : FcamError
duplicate_client = error 400 validation_error "Client already exists"

abbrev pub is_taken : Client → List Client → Bool
is_taken client clients =
    any (λ c. c.name == client.name || c.token_hash == client.token_hash) clients

abbrev pub new_client : Vault → ℕ → ℕ → String → CreateClientRequest → Client
new_client vault new_id today token p = record {
  id = new_id;
  name = p.name;
  token_hash = vault.hash token;
  is_active = p.is_active;
  daily_quota = p.daily_quota;
  daily_usage = 0;
  quota_reset_at = some today;
  rate_limit_per_min = p.rate_limit_per_min;
  max_concurrent = p.max_concurrent;
  last_used_at = none;
  status = if p.is_active then "active" else "disabled";
}

-- `create_client`, with the random token that it makes.
unfoldable pub create_client :
    Vault → ℕ → ℕ → String → Answer → CreateClientRequest → Db → Result (Unit {0}) × Db
unfolding commit
create_client vault new_id today token answer p db =
    if not vault.has_master_key
    then (err no_master_key, db)
    else let client : Client = new_client vault new_id today token p in
      commit duplicate_client (unless_taken (is_taken client db.clients) answer) db
        (audit "client.create" (some new_id) (record db { clients = db.clients ++ (client ∷ []) }))

-- `UpdateClientRequest`, less the fields that are not set. A quota may be set to nothing.
pub record UpdateClientRequest : Type 0 where
  pub daily_quota : Option (Option ℕ)
  pub rate_limit_per_min : Option ℕ
  pub max_concurrent : Option ℕ
  pub is_active : Option Bool

abbrev pub with_activity : Option Bool → Client → Client
with_activity none client = client
with_activity (some desired) client = record client {
  is_active = desired;
  status = if desired then "active" else "disabled";
}

abbrev pub updated_client : UpdateClientRequest → Client → Client
updated_client p client = with_activity p.is_active (record client {
  daily_quota = or_else p.daily_quota client.daily_quota;
  rate_limit_per_min = or_else p.rate_limit_per_min client.rate_limit_per_min;
  max_concurrent = or_else p.max_concurrent client.max_concurrent;
})

-- A change to the row of a client, with its audit entry.
abbrev pub change_client : String → Answer → Client → Db → Result (Unit {0}) × Db
change_client action answer client db =
    commit database_unavailable answer db
      (audit action (some client.id) (record db { clients = set_client client db.clients }))

-- `update_client`
unfoldable pub update_client : Answer → ℕ → UpdateClientRequest → Db → Result (Unit {0}) × Db
unfolding commit
update_client answer client_id p db = elim (find_client client_id db.clients) [
  | none ↦ (err missing, db)
  | some client ↦
      if client.status == "deleted"
      then (err missing, db)
      else change_client "client.update" answer (updated_client p client) db
]

abbrev pub deleted_client : Client → Client
deleted_client client = record client { is_active = false; status = "deleted" }

-- `delete_client`
unfoldable pub delete_client : Answer → ℕ → Db → Result (Unit {0}) × Db
unfolding commit
delete_client answer client_id db = elim (find_client client_id db.clients) [
  | none ↦ (err missing, db)
  | some client ↦ change_client "client.delete" answer (deleted_client client) db
]

abbrev pub leave_client : ℕ → ApiKey → ApiKey
leave_client id key =
    if option_beq key.client_id (some id) then record key { client_id = none } else key

abbrev pub unlink_client : ℕ → RequestLog → RequestLog
unlink_client id log =
    if option_beq log.client_id (some id) then record log { client_id = none } else log

-- `purge_client`
unfoldable pub purge_client : Answer → ℕ → Db → Result (Unit {0}) × Db
unfolding commit
purge_client answer client_id db = elim (find_client client_id db.clients) [
  | none ↦ (err missing, db)
  | some client ↦ commit database_unavailable answer db (
      audit "client.purge" (some client_id) (record db {
        keys = map (leave_client client_id) db.keys;
        clients = filter (λ c. not (c.id == client_id)) db.clients;
        logs = map (unlink_client client_id) db.logs;
        records = filter (λ r. not (r.client_id == client_id)) db.records;
      }))
]

-- `rotate_client_token`, with the random token that it makes.
unfoldable pub rotate_client_token : Vault → String → Answer → ℕ → Db → Result (Unit {0}) × Db
unfolding commit
rotate_client_token vault token answer client_id db =
    if not vault.has_master_key
    then (err no_master_key, db)
    else (elim (find_client client_id db.clients) [
      | none ↦ (err missing, db)
      | some client ↦
          change_client "client.rotate" answer (record client { token_hash = vault.hash token }) db
    ])

-- `class BatchAction`
pub data BatchAction : Type 0 where
  enable disable delete : BatchAction

-- `apply_batch_action_to_client`
unfoldable pub apply_batch_action_to_client : BatchAction → Client → Client
apply_batch_action_to_client enable client = record client { is_active = true; status = "active" }
apply_batch_action_to_client disable client = record client {
  is_active = false;
  status = "disabled";
}
apply_batch_action_to_client delete client = deleted_client client

-- `deduplicate_client_ids`: the first of each id stays.
unfoldable pub deduplicate_client_ids : List ℕ → List ℕ
deduplicate_client_ids [] = []
deduplicate_client_ids (id ∷ ids) = id ∷ filter (λ i. not (i == id)) (deduplicate_client_ids ids)

abbrev pub action_name : BatchAction → String
action_name enable = "client.batch.enable"
action_name disable = "client.batch.disable"
action_name delete = "client.batch.delete"

-- `class BatchClientResponse`: the failed ids have no client.
pub record BatchClientResponse : Type 0 where
  pub success_count : ℕ
  pub failed_count : ℕ
  pub failed_ids : List ℕ

-- The loop: the rows are changed one after the other.
unfoldable pub batch_rounds : BatchAction → List ℕ → ℕ → List ℕ → Db → BatchClientResponse × Db
unfolding apply_batch_action_to_client
batch_rounds action [] good bad db =
    (record { success_count = good; failed_count = length bad; failed_ids = bad }, db)
batch_rounds action (id ∷ ids) good bad db = elim (find_client id db.clients) [
  | none ↦ batch_rounds action ids good bad db
  | some client ↦ batch_rounds action ids (good + 1) bad (
      audit (action_name action) (some id) (record db {
        clients = set_client (apply_batch_action_to_client action client) db.clients;
      }))
]

-- `batch_update_clients`
unfoldable pub batch_update_clients :
    BatchAction → Answer → List ℕ → Db → Result BatchClientResponse × Db
unfolding deduplicate_client_ids batch_rounds commit
batch_update_clients action answer client_ids db =
    let ids : List ℕ = deduplicate_client_ids client_ids in
    let bad : List ℕ = filter (λ id. not (is_some (find_client id db.clients))) ids in
    let (response, changed) = batch_rounds action ids 0 bad db in
    let (committed, db') = commit database_unavailable answer db changed in
    (elim committed [ ok _ ↦ ok response | err e ↦ err e ], db')
