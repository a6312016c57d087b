-- ===== src/ResourceBinding/Lookup.antt =====
-- Looking up a binding of app/core/resource_binding.py that was just made.
use firecrawl_manger.Prelude.{
  ℕ, ◌≡◌, ◌≢◌, refl, true, false, Option, none, some, [], ◌∷◌, ◌++◌, arith, nat_equality, ==-refl,
  ◌==◌,
}
use firecrawl_manger.Prelude.Text.{Text, text_equality, strip}
use firecrawl_manger.Models.{UpstreamResourceBinding}
use firecrawl_manger.ResourceBinding.{
  Bindings, Resource, Session, accepts, stored_as, is_for, find_binding, expiry, is_expired,
  insert_binding, bind_resource, lookup_bound_key_id,
}

append-found :
    (q : Resource) (new : UpstreamResourceBinding) (table : Bindings)
    → find_binding q table ≡ none
    → is_for q new ≡ true
    → find_binding q (table ++ (new ∷ [])) ≡ some new
append-found q new [] h here = rw here refl
append-found q new (c ∷ table) h here = ground (arith, append-found q new table)

new_row : Session → Resource → ℕ → Option ℕ → UpstreamResourceBinding
new_row s r key expires_at = record {
  client_id = r.client_id;
  api_key_id = key;
  resource_type = r.resource_type;
  resource_id = r.resource_id;
  created_at = s.now;
  expires_at = expires_at;
}

is_for-new_row :
    (s : Session) (r : Resource) (key : ℕ) (expires_at : Option ℕ)
    → is_for r (new_row s r key expires_at) ≡ true
unfolding new_row
is_for-new_row s r key expires_at =
    rw (==-refl r.client_id, ==-refl r.resource_type, ==-refl r.resource_id) refl

insert_binding-free :
    (s : Session) (r : Resource) (key : ℕ) (expires_at : Option ℕ) (table : Bindings)
    → find_binding r table ≡ none
    → s.insert ≡ accepts
    → (insert_binding s r key expires_at table).1 ≡ table ++ (new_row s r key expires_at ∷ [])
unfolding insert_binding new_row
insert_binding-free s r key expires_at table free accepted = ground arith

lookup-found :
    (later : Session) (client_id : ℕ) (resource_type padded : Text) (b : UpstreamResourceBinding)
    (table : Bindings)
    → (strip padded == []) ≡ false
    → later.query_ok ≡ true
    → find_binding (stored_as client_id resource_type (strip padded)) table ≡ some b
    → is_expired later.now b.expires_at ≡ false
    → lookup_bound_key_id later client_id resource_type padded table ≡ (some b.api_key_id, table)
unfolding lookup_bound_key_id
lookup-found later client_id resource_type padded b table named asked found lasts =
    rw (named, asked, found, lasts) refl

not_blank : (t : Text) → t ≢ [] → (t == []) ≡ false
not_blank [] named = absurd (named refl)
not_blank (c ∷ t) named = refl

-- A resource that was free and is bound is looked up under the key it was made with, by the same
-- client, until its lifetime is over; blanks around its id do not matter.
pub lookup-bind :
    (s later : Session) (client_id key : ℕ) (resource_type resource_id padded : Text)
    (ttl_seconds : Option ℕ) (table : Bindings)
    → strip resource_id ≢ []
    → strip padded ≡ strip resource_id
    → find_binding (stored_as client_id resource_type (strip resource_id)) table ≡ none
    → s.insert ≡ accepts
    → later.query_ok ≡ true
    → is_expired later.now (expiry s.now ttl_seconds) ≡ false
    → let table' = (bind_resource s client_id key resource_type resource_id ttl_seconds table).1 in
      lookup_bound_key_id later client_id resource_type padded table' ≡ (some key, table')
unfolding bind_resource new_row
lookup-bind s later client_id key resource_type resource_id padded ttl_seconds table named same free
      accepted asked lasts =
    let r : Resource = stored_as client_id resource_type (strip resource_id) in
    let row : UpstreamResourceBinding = new_row s r key (expiry s.now ttl_seconds) in
    let bound = insert_binding-free s r key (expiry s.now ttl_seconds) table free accepted in
    let present : (strip resource_id == []) ≡ false = not_blank (strip resource_id) named in
    rw (present, bound)
      (lookup-found later client_id resource_type padded row (table ++ (row ∷ [])) (rw same present)
        asked
        (rw same
          (append-found r row table free (is_for-new_row s r key (expiry s.now ttl_seconds))))
        lasts)
