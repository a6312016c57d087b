-- ===== src/Credits/Manuals.antt =====
-- What the admin routes of app/api/control_plane.py that fetch credits answer.
use firecrawl_manger.Prelude.{
  ℕ, ◌+◌, ◌-◌, ◌<◌, ◌≡◌, refl, sym, subst, ap, ◌∙◌, Bool, true, false, not, ◌&&◌, some, List, [],
  ◌∷◌, arith, if-elim, length, lt→ltb, nat_equality, string_equality,
}
use firecrawl_manger.Models.{ApiKey}
use firecrawl_manger.Forwarder.Keys.{find_key}
use firecrawl_manger.Credits.{CreditSnapshot}
use firecrawl_manger.Credits.Fetch.{
  CreditCall, Tables, DbSession, Fetched, returns, raises, unexpected, fetch_credit_from_firecrawl,
}
use firecrawl_manger.Credits.Records.{Recorded, Stored, fetch_credit_records}
use firecrawl_manger.Credits.Manual.{
  Setup, min_interval, is_too_soon, is_firecrawl, too_frequent, refresh_found,
  refresh_key_credits_api, Progress, add_fetched, refresh_one, refresh_each, asked_keys,
  no_progress, refresh_all_credits_api,
}

-- Once the credits of a key were fetched by hand, a request for them that comes before the interval is
-- over is refused with 429 and changes nothing.
pub refresh_key_credits_again :
    (u u' : Setup) (f f' : CreditCall) (key : ApiKey) (s s' : DbSession) (snapshot : CreditSnapshot)
    → u.has_master_key ≡ true
    → u'.has_master_key ≡ true
    → find_key key.id s.rows.keys ≡ some key
    → is_firecrawl key ≡ true
    → is_too_soon u (s.rows.checks key.id) ≡ false
    → fetch_credit_from_firecrawl u.monitoring u.next_month f key s ≡ (returns snapshot, s')
    → u'.now - f.now < min_interval u'
    → (refresh_key_credits_api u f key.id s ≡ (returns snapshot, s'))
      × (refresh_key_credits_api u' f' key.id s' ≡ (raises too_frequent, s'))
unfolding refresh_key_credits_api
refresh_key_credits_again u u' f f' key s s' snapshot m m' here provider rested fetched soon =
    let stored : Stored u.monitoring u.next_month f key s s' snapshot =
      subst (Recorded u.monitoring u.next_month f key s) fetched
        (fetch_credit_records u.monitoring u.next_month f key s here) in
    let row : find_key key.id s'.rows.keys ≡ some _ =
      ap (λ (t : Tables). find_key key.id t.keys) stored.current ∙ stored.row in
    let checked : s'.rows.checks key.id ≡ some (snapshot.id, f.now) =
      ap (λ (t : Tables). t.checks key.id) stored.current ∙ stored.checked in
    let first : Fetched × DbSession → Type 0 = λ r. r ≡ (returns snapshot, s') in
    let second : Fetched × DbSession → Type 0 = λ r. r ≡ (raises too_frequent, s') in
    (
      if-elim first (not u.has_master_key) _ _ (λ off. cc)
          λ _.
            subst (λ o. first (refresh_found u f s o)) (sym here)
              (if-elim first (not (is_firecrawl key)) _ _ (λ other. cc)
                λ _.
                  if-elim first (is_too_soon u (s.rows.checks key.id)) _ _ (λ early. cc)
                    (λ _. fetched)),
      if-elim second (not u'.has_master_key) _ _ (λ off. cc)
          λ _.
            subst (λ o. second (refresh_found u' f' s' o)) (sym row)
              (if-elim second (not (is_firecrawl key)) _ _ (λ other. cc)
                λ _.
                  if-elim second (is_too_soon u' (s'.rows.checks key.id)) _ _ (λ early. refl)
                    λ late. cc (sym (ap (is_too_soon u') checked ∙ lt→ltb _ _ soon) ∙ late)),
    )

add_fetched_counts :
    (id : ℕ) (g : Progress) (r : Fetched × DbSession)
    → (add_fetched id g r).success + (add_fetched id g r).failed ≡ 1 + (g.success + g.failed)
add_fetched_counts id g (returns snapshot, s) = omega arith
add_fetched_counts id g (raises e, s) = omega arith
add_fetched_counts id g (unexpected, s) = omega arith

refresh_one_counts :
    (u : Setup) (calls : ℕ → CreditCall) (force : Bool) (key : ApiKey) (g : Progress)
    → let g' = refresh_one u calls force key g in
      g'.success + g'.failed ≡ 1 + (g.success + g.failed)
unfolding refresh_one
refresh_one_counts u calls force key g =
    if-elim (λ (g' : Progress). g'.success + g'.failed ≡ 1 + (g.success + g.failed))
      (not force && is_too_soon u (g.session.rows.checks key.id)) _ _ (λ soon. omega arith)
      (λ rested. add_fetched_counts key.id g _)

refresh_each_counts :
    (u : Setup) (calls : ℕ → CreditCall) (force : Bool) (keys : List ApiKey) (g : Progress)
    → let g' = refresh_each u calls force keys g in
      g'.success + g'.failed ≡ length keys + (g.success + g.failed)
unfolding refresh_each
refresh_each_counts u calls force [] g = omega arith
refresh_each_counts u calls force (key ∷ keys) g = omega (
  arith,
  refresh_each_counts u calls force keys (refresh_one u calls force key g),
  refresh_one_counts u calls force key g,
)

-- An admitted request to refresh all keys is answered, with as many successes and failures together as
-- there are active keys of Firecrawl that were asked for.
pub refresh_all_counts :
    (u : Setup) (calls : ℕ → CreditCall) (key_ids : List ℕ) (force : Bool) (s : DbSession)
    → u.has_master_key ≡ true
    → (g : Progress) × (refresh_all_credits_api u calls key_ids force s
        ≡ some (length (asked_keys key_ids s.rows.keys), g))
      × (g.success + g.failed ≡ length (asked_keys key_ids s.rows.keys))
unfolding refresh_all_credits_api
refresh_all_counts u calls key_ids force s m =
    let keys = asked_keys key_ids s.rows.keys in
    let g : Progress = refresh_each u calls force keys (no_progress s) in
    (
      g,
      if-elim (λ r. r ≡ some (length keys, g)) (not u.has_master_key) _ _ (λ off. cc) (λ _. refl),
      omega (arith, refresh_each_counts u calls force keys (no_progress s)),
    )
