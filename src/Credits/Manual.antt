-- ===== src/Credits/Manual.antt =====
-- app/api/control_plane.py: the admin routes that fetch credits, `refresh_key_credits_api` and
-- `refresh_all_credits_api`. Times are microseconds.
use firecrawl_manger.Prelude.{
  ℕ, ◌+◌, ◌*◌, ◌-◌, Bool, true, false, not, ◌&&◌, Option, none, some, List, [], ◌∷◌, filter, any,
  length, ltb, ◌==◌, nat_equality, string_equality, if◌then◌else◌,
}
use firecrawl_manger.Errors.{
  FcamError, error, key_not_found, unsupported_provider_operation, refresh_too_frequent,
}
use firecrawl_manger.Models.{ApiKey}
use firecrawl_manger.Forwarder.Keys.{find_key}
use firecrawl_manger.ControlPlane.Keys.{no_master_key}
use firecrawl_manger.Credits.{CreditMonitoring}
use firecrawl_manger.Credits.Fetch.{
  CreditCall, DbSession, Fetched, returns, raises, unexpected, fetch_credit_from_firecrawl,
}

-- What the routes take from the configuration and the secrets: the time of the request as well.
pub record Setup : Type 0 where
  pub has_master_key : Bool
  pub monitoring : CreditMonitoring
  pub min_manual_refresh_interval_seconds : ℕ
  pub next_month : ℕ → ℕ
  pub now : ℕ

-- `min_interval`
abbrev pub min_interval : Setup → ℕ
min_interval u =
    (if u.min_manual_refresh_interval_seconds == 0
      then 300
      else u.min_manual_refresh_interval_seconds)
    * 1_000_000

abbrev pub is_too_soon : Setup → Option (ℕ × ℕ) → Bool
is_too_soon u none = false
is_too_soon u (some (snapshot_id, last)) = ltb (u.now - last) (min_interval u)

abbrev pub too_frequent : FcamError
too_frequent = error 429 refresh_too_frequent "Please wait before refreshing again"

abbrev pub is_firecrawl : ApiKey → Bool
is_firecrawl key = key.provider == "firecrawl"

abbrev pub refresh_found : Setup → CreditCall → DbSession → Option ApiKey → Fetched × DbSession
refresh_found u f s none = (raises (error 404 key_not_found "API Key not found"), s)
refresh_found u f s (some key) =
    if not (is_firecrawl key)
    then (raises (error 400 unsupported_provider_operation "Credit refresh is not supported"), s)
    else if is_too_soon u (s.rows.checks key.id)
    then (raises too_frequent, s)
    else fetch_credit_from_firecrawl u.monitoring u.next_month f key s

-- `refresh_key_credits_api`
unfoldable pub refresh_key_credits_api : Setup → CreditCall → ℕ → DbSession → Fetched × DbSession
refresh_key_credits_api u f key_id s =
    if not u.has_master_key
    then (raises no_master_key, s)
    else refresh_found u f s (find_key key_id s.rows.keys)

-- An entry of `results`: the key, and whether its credits were fetched.
abbrev pub Entry : Type 0
Entry = ℕ × Bool

-- The variables of the loop, with the session and the keys that were called.
pub record Progress : Type 0 where
  pub session : DbSession
  pub success : ℕ
  pub failed : ℕ
  pub results : List Entry
  pub called : List ℕ

abbrev pub add_fetched : ℕ → Progress → Fetched × DbSession → Progress
add_fetched id g (returns snapshot, s) = record g {
  session = s;
  success = g.success + 1;
  results = (id, true) ∷ g.results;
  called = id ∷ g.called;
}
add_fetched id g (raises e, s) = record g {
  session = s;
  failed = g.failed + 1;
  results = (id, false) ∷ g.results;
  called = id ∷ g.called;
}
add_fetched id g (unexpected, s) = record g {
  session = s;
  failed = g.failed + 1;
  results = (id, false) ∷ g.results;
  called = id ∷ g.called;
}

abbrev pub add_refused : ℕ → Progress → Progress
add_refused id g = record g { failed = g.failed + 1; results = (id, false) ∷ g.results }

-- The body of the loop. The row of a key is read from the session.
unfoldable pub refresh_one : Setup → (ℕ → CreditCall) → Bool → ApiKey → Progress → Progress
refresh_one u calls force key g =
    if not force && is_too_soon u (g.session.rows.checks key.id)
    then add_refused key.id g
    else add_fetched key.id g
        (fetch_credit_from_firecrawl u.monitoring u.next_month (calls key.id) key g.session)

unfoldable pub refresh_each : Setup → (ℕ → CreditCall) → Bool → List ApiKey → Progress → Progress
refresh_each u calls force [] g = g
refresh_each u calls force (key ∷ keys) g =
    refresh_each u calls force keys (refresh_one u calls force key g)

-- The ids that are asked for, where none is 0; all keys, if there are none.
abbrev pub is_chosen : List ℕ → ℕ → Bool
is_chosen [] id = true
is_chosen (asked ∷ ids) id = any (λ i. i == id) (asked ∷ ids)

abbrev pub asked_keys : List ℕ → List ApiKey → List ApiKey
asked_keys key_ids keys =
    filter
      (λ k. k.is_active && is_firecrawl k && is_chosen (filter (λ i. not (i == 0)) key_ids) k.id)
      keys

abbrev pub no_progress : DbSession → Progress
no_progress s = record { session = s; success = 0; failed = 0; results = []; called = [] }

-- `refresh_all_credits_api`, where none is the error for a master key that is missing. The results
-- are the latest first.
unfoldable pub refresh_all_credits_api :
    Setup → (ℕ → CreditCall) → List ℕ → Bool → DbSession → Option (ℕ × Progress)
refresh_all_credits_api u calls key_ids force s =
    if not u.has_master_key
    then none
    else some (
      length (asked_keys key_ids s.rows.keys),
      refresh_each u calls force (asked_keys key_ids s.rows.keys) (no_progress s),
    )
