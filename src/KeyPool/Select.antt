-- ===== src/KeyPool/Select.antt =====
-- app/core/key_pool.py: the loop of `KeyPool.select`, the errors that it ends in, and the call as a
-- whole. The rows are listed in the order of their ids, as the query orders them.
pub mod Loop
pub mod Outcome
pub mod Tallies
mod Waits
use firecrawl_manger.Prelude.{
  ℕ, zero, suc, ◌+◌, ◌%◌, min, String, Bool, true, false, ◌&&◌, Option, none, some, List, [], ◌∷◌,
  map, length, get_elem?, set, any, filter, find, ltb, ◌==◌, nat_equality, string_equality,
  if◌then◌else◌,
}
use firecrawl_manger.Prelude.Dict.{insert, get}
use firecrawl_manger.Errors.{
  Result, ok, err, Code, FcamError, error, database_unavailable, no_key_configured,
  all_keys_disabled, all_keys_quota_exceeded, all_keys_cooling, no_key_available,
}
use firecrawl_manger.Models.{ApiKey}
use firecrawl_manger.KeyPool.{
  Env, Scope, scope_equality, Indices, option_beq, Visit, skip_disabled, skip_cooling, skip_quota,
  available, visit,
}

-- The counters of the loop.
pub record Tally : Type 0 where
  pub disabled_seen : ℕ
  pub cooling_seen : ℕ
  pub quota_seen : ℕ
  pub cooling_retry_after : Option ℕ
  pub quota_retry_after : Option ℕ

abbrev pub no_tally : Tally
no_tally = record {
  disabled_seen = 0;
  cooling_seen = 0;
  quota_seen = 0;
  cooling_retry_after = none;
  quota_retry_after = none;
}

abbrev pub min_after : Option ℕ → ℕ → ℕ
min_after none remaining = remaining
min_after (some r) remaining = min r remaining

unfoldable pub count_visit : Env → Visit → Tally → Tally
count_visit env skip_disabled t = record t { disabled_seen = t.disabled_seen + 1 }
count_visit env skip_quota t = record t {
  quota_seen = t.quota_seen + 1;
  quota_retry_after = some env.until_midnight;
}
count_visit env available t = t
count_visit env (skip_cooling remaining) t = record t {
  cooling_seen = t.cooling_seen + 1;
  cooling_retry_after = some (min_after t.cooling_retry_after remaining);
}

-- How the loop ends: at the key of an index, with no key left, or by an error of the store.
pub data Ending : Type 0 where
  chosen : ℕ → Ending
  exhausted : Tally → Ending
  raised : FcamError → Ending

-- What a round makes of the verdict, and of the rounds after it.
abbrev pub next_round :
    Env
    → ℕ
    → Tally
    → Result Visit
    → (Tally → Ending × List ApiKey)
    → List ApiKey
    → Ending × List ApiKey
next_round env idx tally (err e) rest keys = (raised e, keys)
next_round env idx tally (ok available) rest keys = (chosen idx, keys)
next_round env idx tally (ok skip_disabled) rest keys = rest (count_visit env skip_disabled tally)
next_round env idx tally (ok skip_quota) rest keys = rest (count_visit env skip_quota tally)
next_round env idx tally (ok (skip_cooling r)) rest keys =
    rest (count_visit env (skip_cooling r) tally)

-- `for offset in range(len(keys))`, with `rounds` of the offsets left. (An index is always in range.)
unfoldable pub scan : Env → ℕ → ℕ → ℕ → Tally → List ApiKey → Ending × List ApiKey
unfolding visit count_visit
scan env zero start offset tally keys = (exhausted tally, keys)
scan env (suc rounds) start offset tally keys =
    let idx : ℕ = (start + offset) % length keys in
    elim (get_elem? keys idx) [
      | none ↦ (exhausted tally, keys)
      | some key ↦
          let (v, key') = visit env key in
          let keys' = set keys idx key' in
          next_round env idx tally v (λ t. scan env rounds start (offset + 1) t keys') keys'
    ]

abbrev scoped : Option ℕ → String → String → String
scoped none global for_client = global
scoped (some client_id) global for_client = for_client

abbrev limited : Code → String → Option ℕ → FcamError
limited code message retry_after = record {
  status_code = 429;
  code = code;
  message = message;
  retry_after = retry_after;
}

-- The error that `select` raises after a loop that chose nothing, over `n` keys.
unfoldable pub exhausted_error : ℕ → Option ℕ → Tally → FcamError
exhausted_error n client_id t =
    if t.disabled_seen == n
    then error 503 all_keys_disabled "All keys disabled"
    else if ltb 0 t.quota_seen && t.quota_seen + t.disabled_seen == n
    then limited all_keys_quota_exceeded "All keys quota exceeded" t.quota_retry_after
    else if ltb 0 t.cooling_seen && t.cooling_seen + t.disabled_seen == n
    then limited all_keys_cooling "All keys cooling" t.cooling_retry_after
    else error 503 no_key_available
        (scoped client_id "No key available" "No key available for client")

-- `SelectedKey`: the index of the key in the query's result, with the key.
pub record SelectedKey : Type 0 where
  pub index : ℕ
  pub api_key : ApiKey
  pub today : ℕ
  pub now : ℕ

-- After the loop: the commit and the new index, or the error. With a failed commit the session shows
-- the stored rows again; an exhausted loop commits nothing, and leaves its changes in the session.
unfoldable pub finish_select :
    Env → Scope → Indices → Ending × List ApiKey → Result SelectedKey × Indices × List ApiKey
unfolding exhausted_error
finish_select env scope indices (raised e, keys) = (err e, indices, keys)
finish_select env scope indices (exhausted tally, keys) =
    (err (exhausted_error (length keys) scope.client tally), indices, keys)
finish_select env scope indices (chosen idx, keys) =
    if env.commit_ok
    then (elim (get_elem? keys idx) [
      | none ↦ (err database_unavailable, indices, keys)
      | some key ↦ (
        ok (record { index = idx; api_key = key; today = env.today; now = env.now }),
        insert scope (idx + 1) indices,
        keys,
      )
    ])
    else (err database_unavailable, indices, env.stored)

-- `KeyPool.select`, from the rows that its query returns.
unfoldable pub select_from :
    Env → Scope → Indices → List ApiKey → Result SelectedKey × Indices × List ApiKey
unfolding scan finish_select
select_from env scope indices [] = (
  err (
      error 503 no_key_configured
        (scoped scope.client "No key configured" "No key configured for client")),
  indices,
  [],
)
select_from env scope indices (k ∷ ks) =
    let keys = k ∷ ks in
    if any (λ key. key.is_active) keys
    then finish_select env scope indices
        (scan env (length keys) (get indices scope 0 % length keys) 0 no_tally keys)
    else (
      err (
          error 503 all_keys_disabled
            (scoped scope.client "All keys disabled" "All keys disabled for client")),
      indices,
      keys,
    )

-- The conditions of the query.
abbrev pub in_scope : Scope → ApiKey → Bool
in_scope scope key =
    key.provider == scope.provider
    && elim scope.client [ none ↦ true | some c ↦ option_beq key.client_id (some c) ]

-- The rows of the table after the objects of the query's result were changed.
abbrev pub write_back : List ApiKey → List ApiKey → List ApiKey
write_back keys table =
    map (λ r. elim (find (λ k. k.id == r.id) keys) [ none ↦ r | some k ↦ k ]) table

-- `KeyPool.select`
unfoldable pub select :
    Env → Scope → Indices → List ApiKey → Result SelectedKey × Indices × List ApiKey
unfolding select_from
select env scope indices table =
    if env.query_ok
    then (let (result, indices', keys) =
          select_from env scope indices (filter (in_scope scope) table) in
        (result, indices', write_back keys table))
    else (err database_unavailable, indices, table)
