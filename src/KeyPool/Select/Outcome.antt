-- ===== src/KeyPool/Select/Outcome.antt =====
-- What `KeyPool.select` of app/core/key_pool.py returns, as a whole.
use firecrawl_manger.Prelude.{
  ℕ, suc, ◌+◌, ◌%◌, ◌≤◌, ◌<◌, ◌≡◌, ◌≢◌, refl, Bool, true, false, none, some, List, [], ◌∷◌, length,
  get_elem?, any, arith, string_equality, ==-refl, zero,
}
use firecrawl_manger.Prelude.Dict.{insert, get}
use firecrawl_manger.Errors.{
  ok, err, FcamError, database_unavailable, all_keys_disabled, all_keys_quota_exceeded,
  all_keys_cooling, no_key_available,
}
use firecrawl_manger.Models.{ApiKey}
use firecrawl_manger.KeyPool.{
  Env, Scope, scope_equality, Indices, Visit, available, skip_disabled, skip_quota, skip_cooling,
  visit,
}
use firecrawl_manger.KeyPool.Verdict.{IsChosen, IsReady, visit_available, visit_available_iff}
use firecrawl_manger.KeyPool.Select.{
  Ending, exhausted, Tally, no_tally, scan, finish_select, exhausted_error, select_from,
}
use firecrawl_manger.KeyPool.Select.Tallies.{exhausted_error_cases}
use firecrawl_manger.KeyPool.Select.Loop.{
  Found, FirstAt, SkipsAt, row, scan_finds, scan_exhausts, tally_of,
}

-- Where the round robin of a scope stands, over the rows `keys`.
abbrev pub start_of : Scope → Indices → List ApiKey → ℕ
start_of scope indices keys = get indices scope 0 % length keys

any_get :
    (p : ApiKey → Bool) (keys : List ApiKey) (i : ℕ) (key : ApiKey)
    → get_elem? keys i ≡ some key
    → p key ≡ true
    → any p keys ≡ true
any_get p [] i key e h = cc
any_get p (k ∷ ks) zero key e h = ground arith
any_get p (k ∷ ks) (suc i) key e h = ground (arith, any_get p ks i key e h)

select_from-scan :
    (env : Env) (scope : Scope) (indices : Indices) (keys : List ApiKey)
    → any (λ key. key.is_active) keys ≡ true
    → select_from env scope indices keys
      ≡ finish_select env scope indices
          (scan env (length keys) (start_of scope indices keys) 0 no_tally keys)
unfolding select_from
select_from-scan env scope indices [] h = cc
select_from-scan env scope indices (k ∷ ks) h = rw h

-- What the call makes of a loop that ended with a key.
module _ (env : Env) (scope : Scope) (indices : Indices) (keys : List ApiKey) (start o : ℕ)
    (key : ApiKey) (r : Ending × List ApiKey) (f : Found env keys start o key r) where
  finish_commits :
      env.commit_ok ≡ true
      → finish_select env scope indices r ≡ (
        ok (record {
          index = row keys start o;
          api_key = (visit env key).1;
          today = env.today;
          now = env.now;
        }),
        insert scope (row keys start o + 1) indices,
        r.1,
      )
  unfolding finish_select
  finish_commits h = rw (f.ended, finish_select, f.written) (simp h)

  finish_fails :
      env.commit_ok ≡ false
      → finish_select env scope indices r ≡ (err database_unavailable, indices, env.stored)
  unfolding finish_select
  finish_fails h = rw (f.ended, finish_select, f.written) (simp h)

-- And of a loop that chose nothing.
finish_exhausted :
    (env : Env) (scope : Scope) (indices : Indices) (r : Ending × List ApiKey) (t : Tally) (n : ℕ)
    → r.0 ≡ exhausted t
    → length r.1 ≡ n
    → finish_select env scope indices r ≡ (err (exhausted_error n scope.client t), indices, r.1)
unfolding finish_select
finish_exhausted env scope indices r t n ended size = rw (ended, finish_select, size)

found_active :
    (env : Env) (keys : List ApiKey) (start o : ℕ) (key : ApiKey)
    → FirstAt env keys start o key
    → any (λ k. k.is_active) keys ≡ true
found_active env keys start o key f =
    any_get (λ k. k.is_active) keys (row keys start o) key f.here
      ((visit_available_iff env key).0 f.ready).0

first-Found :
    (env : Env) (keys : List ApiKey) (start o : ℕ) (key : ApiKey)
    → FirstAt env keys start o key
    → Found env keys start o key (scan env (length keys) start 0 no_tally keys)
first-Found env keys start o key f =
    scan_finds env (length keys) start 0 o no_tally keys key (omega arith) (omega arith) f.in_range
      f.here f.ready (λ p low high. f.earlier p high)

-- The call selects the first ready key at or after the scope's index, in the cyclic order of the ids,
-- and hands it out refreshed: enabled, with no cooldown left and room in today's quota. The next call
-- of the scope starts behind it, and those of other scopes where they stood.
pub select_from_selects :
    (env : Env) (scope other : Scope) (indices : Indices) (keys : List ApiKey) (o : ℕ)
    (key : ApiKey)
    → env.commit_ok ≡ true
    → FirstAt env keys (start_of scope indices keys) o key
    → let (result, indices', keys') = select_from env scope indices keys in
      let at = row keys (start_of scope indices keys) o in
      let key' = (visit env key).1 in
      (result ≡ ok (record { index = at; api_key = key'; today = env.today; now = env.now }))
      × IsReady env key
      × IsChosen env key key'
      × (get_elem? keys' at ≡ some key')
      × (length keys' ≡ length keys)
      × (indices' scope ≡ some (at + 1))
      × (other ≢ scope → indices' other ≡ indices other)
select_from_selects env scope other indices keys o key committed f =
    let start = start_of scope indices keys in
    let found = first-Found env keys start o key f in
    rw
      (
        select_from-scan env scope indices keys (found_active env keys start o key f),
        finish_commits env scope indices keys start o key _ found committed,
      )
      (
        refl,
        (visit_available_iff env key).0 f.ready,
        visit_available env key f.ready,
        found.written,
        found.size,
        rw (==-refl scope),
        λ ne. ground (arith, scope_equality.test_iff other scope),
      )

-- When the commit of the selected key fails the caller gets a 503, the round robin does not move, and
-- the session shows the stored rows.
pub select_from_rolls_back :
    (env : Env) (scope : Scope) (indices : Indices) (keys : List ApiKey) (o : ℕ) (key : ApiKey)
    → env.commit_ok ≡ false
    → FirstAt env keys (start_of scope indices keys) o key
    → select_from env scope indices keys ≡ (err database_unavailable, indices, env.stored)
select_from_rolls_back env scope indices keys o key failed f =
    let start = start_of scope indices keys in
    rw
      (
        select_from-scan env scope indices keys (found_active env keys start o key f),
        finish_fails env scope indices keys start o key _ (first-Found env keys start o key f)
            failed,
      )
      refl

-- Every key is passed over, with the verdict `v p` in the round `p`.
abbrev pub AllSkipped : Env → List ApiKey → ℕ → (ℕ → Visit) → Type 0
AllSkipped env keys start v = (p : ℕ) → p < length keys → SkipsAt env keys start p (v p)

-- What an error says, where some key is active and every one is passed over, `n` in all: all
-- disabled; else the quota of every other one is used up, and the wait is for midnight; else every
-- other one is cooling, and the wait is the shortest; else some of both.
abbrev pub Explains : Env → (ℕ → Visit) → ℕ → FcamError → Type 0
Explains env v n e =
    (((p : ℕ) → p < n → v p ≡ skip_disabled) → e.code ≡ all_keys_disabled)
    × (((p : ℕ) → p < n → (r : ℕ) → v p ≢ skip_cooling r)
        → (p : ℕ) → p < n
        → v p ≡ skip_quota
        → (e.code ≡ all_keys_quota_exceeded) × (e.retry_after ≡ some env.until_midnight))
    × (((p : ℕ) → p < n → v p ≢ skip_quota)
        → (p r : ℕ) → p < n
        → v p ≡ skip_cooling r
        → (e.code ≡ all_keys_cooling)
          × ((m : ℕ) × (e.retry_after ≡ some m)
              × (m ≤ r)
              × ((q : ℕ) × (q < n) × (v q ≡ skip_cooling m))))
    × ((p q r : ℕ)
        → p < n
        → q < n
        → v p ≡ skip_quota
        → v q ≡ skip_cooling r
        → (e.code ≡ no_key_available) × (e.retry_after ≡ none))

-- With some key active but none ready, the call raises an error and no round robin moves. Its code says
-- for which reasons the keys were passed over. Disabled keys aside, its wait is the one until midnight
-- where the quota of every key is used up, the shortest of theirs where every key is cooling, and
-- there is none where some keys are the one and some the other.
pub select_from-Explains :
    (env : Env) (scope : Scope) (indices : Indices) (keys : List ApiKey) (v : ℕ → Visit)
    → any (λ key. key.is_active) keys ≡ true
    → AllSkipped env keys (start_of scope indices keys) v
    → let (result, indices', keys') = select_from env scope indices keys in
      (e : FcamError) × (result ≡ err e)
      × Explains env v (length keys) e
      × (indices' ≡ indices)
      × (length keys' ≡ length keys)
select_from-Explains env scope indices keys v active skipped =
    let start = start_of scope indices keys in
    let n = length keys in
    let (ended, size) =
      scan_exhausts env v n start 0 no_tally keys (omega arith)
        (λ p low high. skipped p (omega arith)) in
    let pass : (p : ℕ) → 0 ≤ p → p < 0 + n → v p ≢ available =
      λ p low high. (skipped p (omega arith)).skips in
    let (a, b, c, d) = exhausted_error_cases env v n scope.client pass in
    let outcome = finish_exhausted env scope indices _ _ n ended size in
    rw (select_from-scan env scope indices keys active, outcome)
      (
        exhausted_error n scope.client (tally_of env v n 0 no_tally),
        refl,
        (
          λ h. a (λ p low high. h p (omega arith)),
          λ h p l e. b (λ p low high. h p (omega arith)) p l e,
          λ h p r l e. c (λ p low high. h p (omega arith)) p r l e,
          d,
        ),
        refl,
        size,
      )
