-- ===== src/Credits/Report.antt =====
-- app/core/credit_aggregator.py: `get_key_credits`, without times and the columns of the snapshot that
-- are passed on.
use firecrawl_manger.Prelude.{
  ℕ, ◌≡◌, refl, Bool, false, not, Option, none, some, List, [], ◌∷◌, inl, inr, Bool-cases,
  Option-cases, filter, find, ltb, ◌==◌, nat_equality, if◌then◌else◌,
}
use firecrawl_manger.Models.{ApiKey}
use firecrawl_manger.Forwarder.Keys.{find_key}
use firecrawl_manger.Credits.{CreditSnapshot}
use firecrawl_manger.Credits.Fetch.{Tables}
use firecrawl_manger.Credits.Aggregate.{or_zero, first_snapshot, total_of}

-- The answer, where `latest` is the latest snapshot.
pub record KeyReport : Type 0 where
  pub api_key_id : ℕ
  pub remaining_credits : Option ℕ
  pub plan_credits : Option ℕ
  pub total_credits : Option ℕ
  pub is_estimated : Bool
  pub latest : Option CreditSnapshot

abbrev later : CreditSnapshot → Option CreditSnapshot → CreditSnapshot
later s none = s
later s (some t) = if ltb s.snapshot_at t.snapshot_at then t else s

abbrev pub newest : List CreditSnapshot → Option CreditSnapshot
newest [] = none
newest (s ∷ snapshots) = some (later s (newest snapshots))

abbrev pub or_newest : ℕ → List CreditSnapshot → Option CreditSnapshot → Option CreditSnapshot
or_newest id snapshots none = newest (filter (λ s. s.api_key_id == id) snapshots)
or_newest id snapshots (some s) = some s

abbrev pub noted : List CreditSnapshot → Option (ℕ × ℕ) → Option CreditSnapshot
noted snapshots none = none
noted snapshots (some (snapshot_id, at)) =
    if snapshot_id == 0 then none else find (λ s. s.id == snapshot_id) snapshots

abbrev pub latest_snapshot : Tables → ℕ → Option CreditSnapshot
latest_snapshot t id = or_newest id t.snapshots (noted t.snapshots (t.checks id))

abbrev pub differs : Option ℕ → Option CreditSnapshot → Bool
differs (some remaining) (some s) = not (remaining == s.remaining_credits)
differs _ _ = false

-- The plan's credits, else those of the first snapshot, else those that remain, if any.
unfoldable pub reported_total : List CreditSnapshot → ApiKey → Option ℕ
reported_total snapshots key =
    if ltb 0 (or_zero key.cached_plan_credits)
    then key.cached_plan_credits
    else elim (first_snapshot key.id snapshots) [
      | none ↦ key.cached_remaining_credits
      | some s ↦ some s.remaining_credits
    ]

-- `get_key_credits`, where none is the error for a key that is not there.
unfoldable pub get_key_credits : Tables → ℕ → Option KeyReport
get_key_credits t key_id = elim (find_key key_id t.keys) [
  | none ↦ none
  | some key ↦ some (record {
    api_key_id = key.id;
    remaining_credits = key.cached_remaining_credits;
    plan_credits = key.cached_plan_credits;
    total_credits = reported_total t.snapshots key;
    is_estimated = differs key.cached_remaining_credits (latest_snapshot t key.id);
    latest = latest_snapshot t key.id;
  })
]

-- The two ways to count the credits of a key come to the same: what `get_key_credits` reports for a key
-- is what `aggregate_client_credits` adds for it, where it reports a number, and it adds 0 otherwise.
pub reported_total-total_of :
    (snapshots : List CreditSnapshot) (key : ApiKey)
    → or_zero (reported_total snapshots key) ≡ total_of snapshots key
unfolding reported_total total_of
reported_total-total_of snapshots key =
    elim (Bool-cases (ltb 0 (or_zero key.cached_plan_credits))) [
      | inl paid ↦ rw paid refl
      | inr free ↦ elim (Option-cases (first_snapshot key.id snapshots)) [
        | inl none' ↦ rw (free, none') refl
        | inr (s, first) ↦ rw (free, first) refl
      ]
    ]
