-- ===== src/ControlPlane/Effects.antt =====
-- What the admin requests of app/api/control_plane.py mean for the requests that are forwarded later.
use firecrawl_manger.Prelude.{
  ℕ, ◌≡◌, ◌<◌, refl, ap, ◌∙◌, true, some, List, [], ◌∷◌, arith, inl, inr, Bool-cases, ◌==◌,
  nat_equality, find-map,
}
use mathlib.Core.Option as Option
use firecrawl_manger.Errors.{ok}
use firecrawl_manger.Models.{ApiKey, active, quota_exceeded}
use firecrawl_manger.ResourceBinding.{accepts}
use firecrawl_manger.KeyPool.{Env, available, skip_disabled, visit, is_disabled}
use firecrawl_manger.KeyPool.Verdict.{visit_available_iff}
use firecrawl_manger.Forwarder.Keys.{find_key, find_key-set_key}
use firecrawl_manger.ControlPlane.{Db, commit}
use firecrawl_manger.ControlPlane.Keys.{delete_key, switched_off, reset_keys_quota, reset_quota}

pub find_key-id :
    (id : ℕ) (key : ApiKey) (keys : List ApiKey) → find_key id keys ≡ some key → key.id ≡ id
find_key-id id key [] h = absurd (ground arith)
find_key-id id key (c ∷ keys) h = elim (Bool-cases (c.id == id)) [
  | inl same ↦ ground (arith, rw same at h)
  | inr other ↦ find_key-id id key keys (rw other at h)
]

-- A key that an admin deletes is skipped by every later selection.
pub delete_key-visit :
    (key_id : ℕ) (key : ApiKey) (db : Db) (env : Env)
    → find_key key_id db.keys ≡ some key
    → (off : ApiKey) × (find_key key_id (delete_key accepts key_id db).1.keys ≡ some off)
      × ((visit env off).0 ≡ ok skip_disabled)
unfolding delete_key commit visit is_disabled
delete_key-visit key_id key db env there = (
  switched_off key,
  rw (delete_key, there)
      (find_key-set_key key_id (switched_off key) key db.keys (find_key-id key_id key db.keys there)
        there),
  refl,
)

-- A reset of the quotas puts each key back to work that is enabled, has a quota, and that nothing but
-- its quota kept back: it is selected at once, on the day of the reset.
pub reset_keys_quota-visit :
    (key_id : ℕ) (key : ApiKey) (db : Db) (env : Env) (quota : ℕ)
    → find_key key_id db.keys ≡ some key
    → key.is_active ≡ true
    → key.status ≡ quota_exceeded
    → key.daily_quota ≡ some quota
    → 0 < quota
    → (back : ApiKey) × (find_key key_id (reset_keys_quota env.today accepts db).1.keys ≡ some back)
      × ((visit env back).0 ≡ ok available)
unfolding reset_keys_quota commit
reset_keys_quota-visit key_id key db env quota there on worn limited room =
    let again : (reset_quota env.today key).status ≡ active = rw (worn, on) refl in
    (
      reset_quota env.today key,
      find-map (λ k. k.id == key_id) (reset_quota env.today) (λ k. refl) db.keys
          ∙ ap (Option.map (reset_quota env.today)) there,
      (visit_available_iff env (reset_quota env.today key)).1 (
        on,
        λ e. ground (arith, again, e),
        (λ e. absurd (ground (arith, again, e)), λ e. absurd (ground (arith, again, e))),
        λ q e. (λ same. ground (arith, limited, e, room), λ other. absurd (other refl)),
      ),
    )
