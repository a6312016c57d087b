-- ===== src/Credits/Providers.antt =====
-- Keys of other providers in a pass of app/core/credit_refresh.py.
use firecrawl_manger.Prelude.{
  ℕ, ◌⊎◌, ◌≤◌, none, any, filter, Bool, ◌&&◌, if-elim, ◌≡◌, refl, subst, true, some, arith,
  Bool-cases, inl, inr, ◌==◌, nat_equality, if◌then◌else◌, map, List, [], ◌∷◌,
}
use firecrawl_manger.Errors.{ok}
use firecrawl_manger.Models.{ApiKey, failed, active, cooling}
use firecrawl_manger.KeyPool.{Env, visit, skip_disabled}
use firecrawl_manger.Forwarder.{set_key}
use firecrawl_manger.Forwarder.Keys.{find_key, find_key-set_key}
use firecrawl_manger.Credits.{CreditMonitoring, due_keys, is_fetched, is_due}
use firecrawl_manger.Credits.Fetch.{
  CreditCall, DbSession, CreditBody, response, fetch_credit_from_firecrawl, off,
}
use firecrawl_manger.Credits.Refresh.{Pass, delayed, after_fetch, refresh_key, due_ids}

find_key-update :
    (id : ℕ) (change : ApiKey → ApiKey) (key : ApiKey) (keys : List ApiKey)
    → ((k : ApiKey) → (change k).id ≡ k.id)
    → find_key id keys ≡ some key
    → find_key id (map (λ k. if k.id == id then change k else k) keys) ≡ some (change key)
find_key-update id change key [] same h = absurd (ground arith)
find_key-update id change key (k ∷ keys) same h = elim (Bool-cases (k.id == id)) [
  | inl own ↦ ground (arith, same k)
  | inr other ↦ rw (other, other) (find_key-update id change key keys same (rw other at h))
]

due_ids-found :
    (now id : ℕ) (key : ApiKey) (keys : List ApiKey)
    → find_key id keys ≡ some key
    → key.is_active ≡ true
    → is_fetched key.status ≡ true
    → is_due now key.next_refresh_at ≡ true
    → any (λ i. i == id) (due_ids now keys) ≡ true
unfolding due_keys
due_ids-found now id key [] h on fetched due = absurd (ground arith)
due_ids-found now id key (k ∷ keys) h on fetched due =
    let wanted : ApiKey → Bool =
      λ r. r.is_active && is_fetched r.status && is_due now r.next_refresh_at in
    if-elim (λ l. any (λ i. i == id) (map (λ r. r.id) l) ≡ true) (wanted k) (k ∷ filter wanted keys)
      (filter wanted keys)
      (λ kept. elim (Bool-cases (k.id == id)) [
        | inl own ↦ rw own refl
        | inr other ↦ rw other (due_ids-found now id key keys (rw other at h) on fetched due)
      ])
      (λ out. elim (Bool-cases (k.id == id)) [
        | inl own ↦ absurd (ground (arith, rw own at h))
        | inr other ↦ due_ids-found now id key keys (rw other at h) on fetched due
      ])

-- The next time of the key has come, or it has none.
abbrev pub IsDue : ℕ → ApiKey → Type 0
IsDue now key =
    (key.next_refresh_at ≡ none) ⊎ ((t : ℕ) × (key.next_refresh_at ≡ some t) × (t ≤ now))

IsDue-is_due : (now : ℕ) (key : ApiKey) → IsDue now key → is_due now key.next_refresh_at ≡ true
IsDue-is_due now key (inl never) = rw never refl
IsDue-is_due now key (inr (t, e, past)) = rw e (ground arith)

-- An active key whose next time has come is among those that a pass fetches, whatever its provider is,
-- and if Firecrawl refuses it with 401, it is switched off and never chosen again.
pub refresh_key-visit :
    (c : CreditMonitoring) (next_month : ℕ → ℕ) (p : Pass) (id : ℕ) (key : ApiKey) (s : DbSession)
    (body : CreditBody) (env : Env)
    → find_key id s.rows.keys ≡ some key
    → key.id ≡ id
    → key.is_active ≡ true
    → (key.status ≡ active) ⊎ (key.status ≡ cooling)
    → IsDue p.now key
    → (p.call id).decrypted ≡ true
    → (p.call id).reply ≡ response 401 body
    → (p.call id).commit_ok ≡ true
    → (any (λ i. i == id) (due_ids p.now s.rows.keys) ≡ true)
      × ((row : ApiKey) × (find_key id (refresh_key c next_month p id s).rows.keys ≡ some row)
          × (row.provider ≡ key.provider)
          × ((visit env row).0 ≡ ok skip_disabled))
unfolding refresh_key fetch_credit_from_firecrawl visit
refresh_key-visit c next_month p id key s body env here own on status due readable reply done =
    let row : ApiKey = delayed c p.now (off failed key) in
    let f : CreditCall = p.call id in
    let refused : CreditCall = record f {
      decrypted = true;
      reply = response 401 body;
      commit_ok = true;
    } in
    let same : refused ≡ f = ground (arith, readable, reply, done) in
    (
      due_ids-found p.now id key s.rows.keys here on (fetched status) (IsDue-is_due p.now key due),
      (
        row,
        rw (here, refresh_key)
            (subst
              (λ g.
                find_key id
                  (after_fetch c next_month p id
                    (fetch_credit_from_firecrawl c next_month g key s)).rows.keys
                ≡ some row)
              same
              (find_key-update id (delayed c p.now) (off failed key)
                (set_key (off failed key) s.rows.keys) (λ k. refl)
                (find_key-set_key id (off failed key) key s.rows.keys own here))),
        refl,
        refl,
      ),
    )
  where
    fetched : (key.status ≡ active) ⊎ (key.status ≡ cooling) → is_fetched key.status ≡ true
    fetched (inl e) = rw e refl
    fetched (inr e) = rw e refl
