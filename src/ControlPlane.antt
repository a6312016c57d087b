-- ===== src/ControlPlane.antt =====
-- app/api/control_plane.py: the tables that the admin routes work on, and how a change is committed.
-- A query that fails outside a `try` ends a request with its exception before anything is written; this
-- is left out.
pub mod Keys
pub mod KeyBatch
pub mod Clients
pub mod Sound
pub mod Runs
pub mod ClientRuns
pub mod History
pub mod Batch
pub mod Ids
pub mod Effects
pub mod Logs
pub mod Import
mod Tests
use firecrawl_manger.Prelude.{
  ℕ, String, Bool, true, false, Option, none, some, List, ◌∷◌, find, is_some, ◌==◌, nat_equality,
  map, if◌then◌else◌,
}
use firecrawl_manger.Errors.{Result, ok, err, FcamError, error, database_unavailable, not_found}
use firecrawl_manger.Models.{ApiKey, Client, RequestLog, IdempotencyRecord}
use firecrawl_manger.ResourceBinding.{Answer, accepts, violated, fails}

-- What is written to `audit_logs`: the action, and the id of its object where it has one.
abbrev pub Audit : Type 0
Audit = String × Option ℕ

pub record Db : Type 0 where
  pub keys : List ApiKey
  pub clients : List Client
  pub logs : List RequestLog
  pub records : List IdempotencyRecord
  pub audits : List Audit

abbrev pub find_client : ℕ → List Client → Option Client
find_client id clients = find (λ c. c.id == id) clients

-- `_audit`
abbrev pub audit : String → Option ℕ → Db → Db
audit action id db = record db { audits = (action, id) ∷ db.audits }

-- `except IntegrityError: …` and `except Exception: …` around a commit: after a rollback the tables
-- are as before.
unfoldable pub commit : FcamError → Answer → Db → Db → Result (Unit {0}) × Db
commit duplicate accepts old new = (ok tt, new)
commit duplicate violated old new = (err duplicate, old)
commit duplicate fails old new = (err database_unavailable, old)

-- Attributes of the row of a client are written.
abbrev pub set_client : Client → List Client → List Client
set_client client = map (λ c. if c.id == client.id then client else c)

abbrev pub missing : FcamError
missing = error 404 not_found "Not found"

-- Whether a request may use a client's id: 0 means that the key belongs to nobody.
abbrev pub assigned : Option ℕ → Option ℕ
assigned none = none
assigned (some id) = if id == 0 then none else some id

abbrev pub is_known : Option ℕ → List Client → Bool
is_known none clients = true
is_known (some id) clients = is_some (find_client id clients)
