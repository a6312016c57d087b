-- ===== src/ControlPlane/KeyBatch.antt =====
-- app/api/control_plane.py: `batch_keys`, less the test of the keys.
use firecrawl_manger.Prelude.{
  ℕ, String, Bool, not, ◌&&◌, ◌||◌, Option, none, some, List, [], ◌∷◌, is_some, nat_equality,
  string_equality, if◌then◌else◌,
}
use firecrawl_manger.Errors.{Result, ok, err, FcamError, error, internal_error}
use firecrawl_manger.Models.{ApiKey, active, cooling, failed}
use firecrawl_manger.ResourceBinding.{Answer, accepts, violated, fails}
use firecrawl_manger.Forwarder.{set_key}
use firecrawl_manger.Forwarder.Keys.{find_key}
use firecrawl_manger.ControlPlane.{Db, audit, commit, missing}
use firecrawl_manger.ControlPlane.Keys.{or_else, is_status, with_limits, switched_off}

-- `patch.model_dump(exclude_unset=True)` of `class BatchKeyPatch`, where a name may be set to nothing.
pub record BatchKeyPatch : Type 0 where
  pub name : Option (Option String)
  pub plan_type : Option String
  pub daily_quota : Option ℕ
  pub max_concurrent : Option ℕ
  pub rate_limit_per_min : Option ℕ
  pub is_active : Option Bool

-- `class BatchKeysRequest`, less the test.
pub record BatchKeysRequest : Type 0 where
  pub ids : List ℕ
  pub patch : BatchKeyPatch
  pub reset_cooldown : Bool
  pub soft_delete : Bool

abbrev pub rested : ApiKey → ApiKey
rested key = record key {
  cooldown_until = none;
  status =
      if (is_status key.status cooling || is_status key.status failed) && key.is_active
      then active
      else key.status;
}

abbrev pub applied_to : BatchKeysRequest → ApiKey → ApiKey
applied_to p key =
    let k1 : ApiKey = if p.reset_cooldown then rested key else key in
    let k2 : ApiKey = record k1 {
      name = or_else p.patch.name k1.name;
      plan_type = or_else p.patch.plan_type k1.plan_type;
    } in
    let k3 : ApiKey =
      with_limits p.patch.daily_quota p.patch.max_concurrent p.patch.rate_limit_per_min
        p.patch.is_active k2 in
    if p.soft_delete then switched_off k3 else k3

abbrev pub changes : BatchKeysRequest → Bool
changes p =
    p.reset_cooldown
    || is_some p.patch.name
    || is_some p.patch.plan_type
    || is_some p.patch.daily_quota
    || is_some p.patch.max_concurrent
    || is_some p.patch.rate_limit_per_min
    || is_some p.patch.is_active
    || p.soft_delete

-- One round of the loop of `batch_keys`; `INTERNAL_ERROR` is the error of a commit that fails.
unfoldable pub batch_one : BatchKeysRequest → Answer → ℕ → Db → Result (Unit {0}) × Db
unfolding commit
batch_one p answer key_id db = elim (find_key key_id db.keys) [
  | none ↦ (err missing, db)
  | some key ↦
      if not (changes p)
      then (ok tt, db)
      else commit batch_error (as_failure answer) db (
          audit "key.batch" (some key_id) (record db { keys = set_key (applied_to p key) db.keys }))
]
  where
    batch_error : FcamError
    batch_error = error 500 internal_error "Internal error"

    as_failure : Answer → Answer
    as_failure accepts = accepts
    as_failure violated = violated
    as_failure fails = violated

-- `batch_keys` without a test: the results in the order of the ids, and how many of them are good.
unfoldable pub batch_each :
    BatchKeysRequest → (ℕ → Answer) → List ℕ → Db → List (ℕ × Result (Unit {0})) × Db
unfolding batch_one
batch_each p answers [] db = ([], db)
batch_each p answers (id ∷ ids) db =
    let (result, db1) = batch_one p (answers id) id db in
    let (results, db2) = batch_each p answers ids db1 in ((id, result) ∷ results, db2)

unfoldable pub batch_keys : BatchKeysRequest → (ℕ → Answer) → Db → List (ℕ × Result (Unit {0})) × Db
unfolding batch_each
batch_keys p answers db = batch_each p answers p.ids db
