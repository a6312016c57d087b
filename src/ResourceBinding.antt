-- ===== src/ResourceBinding.antt =====
-- app/core/resource_binding.py: which key of a client a resource of the upstream was made with, so
-- that later requests about the resource use the same key.
pub mod Laws
pub mod Lookup
mod Tests
use firecrawl_manger.Prelude.{
  ℕ, ◌+◌, ◌*◌, Bool, true, false, not, ◌&&◌, ◌||◌, Option, none, some, List, [], ◌∷◌, ◌++◌, map,
  filter, find, take, ltb, ◌==◌, nat_equality, if◌then◌else◌,
}
use firecrawl_manger.Prelude.Text.{Text, text_equality, strip}
use firecrawl_manger.Models.{UpstreamResourceBinding}

abbrev pub Bindings : Type 0
Bindings = List UpstreamResourceBinding

-- How the database answers a commit: it goes through, a constraint is violated, or it fails.
pub data Answer : Type 0 where
  accepts violated fails : Answer

-- The ways a call ends: `None` or a key is returned, or the exception of a query is raised.
pub data Ended {ℓ} (A : Type ℓ) : Type ℓ where
  returned : A → Ended A
  raised : Ended A

-- What a binding is found by: the columns of the unique constraint.
pub record Resource : Type 0 where
  pub client_id : ℕ
  pub resource_type : Text
  pub resource_id : Text

-- The values that the code stores and looks for: the columns hold 32 and 128 characters.
unfoldable pub stored_as : ℕ → Text → Text → Resource
stored_as client_id resource_type rid = record {
  client_id = client_id;
  resource_type = take 32 resource_type;
  resource_id = take 128 rid;
}

abbrev pub is_for : Resource → UpstreamResourceBinding → Bool
is_for r b =
    b.client_id == r.client_id
    && b.resource_type == r.resource_type
    && b.resource_id == r.resource_id

-- The query of both functions, whose `one_or_none` meets at most one row.
abbrev pub find_binding : Resource → Bindings → Option UpstreamResourceBinding
find_binding r table = find (is_for r) table

abbrev pub expiry : ℕ → Option ℕ → Option ℕ
expiry now none = none
expiry now (some ttl_seconds) =
    if ttl_seconds == 0 then none else some (now + ttl_seconds * 1_000_000)

-- `existing_expires_at is None or existing_expires_at < expires_at`
abbrev is_longer : Option ℕ → ℕ → Bool
is_longer none expires_at = true
is_longer (some existing) expires_at = ltb existing expires_at

abbrev set_expiry : Resource → ℕ → Bindings → Bindings
set_expiry r expires_at table =
    map (λ b. if is_for r b then record b { expires_at = some expires_at } else b) table

-- The row is there already: a longer lifetime is kept, for the same key only.
unfoldable pub renew :
    Resource → ℕ → Option ℕ → Bool → UpstreamResourceBinding → Bindings → Bindings
renew r api_key_id none commit_ok existing table = table
renew r api_key_id (some expires_at) commit_ok existing table =
    if existing.api_key_id == api_key_id && is_longer existing.expires_at expires_at && commit_ok
    then set_expiry r expires_at table
    else table

-- The answers that a call meets: to the insert, to the query after a violation, and to the commit of
-- the new lifetime.
pub record Session : Type 0 where
  pub now : ℕ
  pub insert : Answer
  pub query_ok : Bool
  pub commit_ok : Bool

-- `except IntegrityError: …`
unfoldable pub on_violation :
    Session → Resource → ℕ → Option ℕ → Bindings → Ended (Unit {0}) × Bindings
unfolding renew
on_violation s r api_key_id expires_at table = if not s.query_ok then (raised, table) else (
  returned tt,
  elim (find_binding r table) [
    | none ↦ table
    | some existing ↦ renew r api_key_id expires_at s.commit_ok existing table
  ],
)

-- The insert. The unique constraint refuses a second row for a resource.
unfoldable pub insert_binding :
    Session → Resource → ℕ → Option ℕ → Bindings → Ended (Unit {0}) × Bindings
unfolding on_violation
insert_binding s r api_key_id expires_at table = elim s.insert [
  | fails ↦ (returned tt, table)
  | violated ↦ on_violation s r api_key_id expires_at table
  | accepts ↦ elim (find_binding r table) [
    | some _ ↦ on_violation s r api_key_id expires_at table
    | none ↦ (
      returned tt,
      table
          ++ (record {
            client_id = r.client_id;
            api_key_id = api_key_id;
            resource_type = r.resource_type;
            resource_id = r.resource_id;
            created_at = s.now;
            expires_at = expires_at;
          }
              ∷ []),
    )
  ]
]

-- `bind_resource`
unfoldable pub bind_resource :
    Session → ℕ → ℕ → Text → Text → Option ℕ → Bindings → Ended (Unit {0}) × Bindings
unfolding insert_binding stored_as
bind_resource s client_id api_key_id resource_type resource_id ttl_seconds table =
    let rid : Text = strip resource_id in
    if rid == []
    then (returned tt, table)
    else insert_binding s (stored_as client_id resource_type rid) api_key_id
        (expiry s.now ttl_seconds) table

abbrev pub is_expired : ℕ → Option ℕ → Bool
is_expired now none = false
is_expired now (some expires_at) = ltb expires_at now

-- The row that was found: one whose time is over is deleted.
unfoldable pub use_binding :
    Session → Resource → Option UpstreamResourceBinding → Bindings → Option ℕ × Bindings
use_binding s r none table = (none, table)
use_binding s r (some found) table =
    if is_expired s.now found.expires_at
    then (none, if s.commit_ok then filter (λ b. not (is_for r b)) table else table)
    else (some found.api_key_id, table)

-- `lookup_bound_key_id`
unfoldable pub lookup_bound_key_id : Session → ℕ → Text → Text → Bindings → Option ℕ × Bindings
unfolding use_binding stored_as
lookup_bound_key_id s client_id resource_type resource_id table =
    let rid : Text = strip resource_id in
    if rid == [] || not s.query_ok
    then (none, table)
    else let r : Resource = stored_as client_id resource_type rid in
      use_binding s r (find_binding r table) table
