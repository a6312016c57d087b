-- ===== src/Credits/Aggregate.antt =====
-- app/core/credit_aggregator.py: the credits of a client's keys, without percentages and times. The
-- rows are in the order of their ids.
use firecrawl_manger.Prelude.{
  ℕ, ◌+◌, Bool, false, ◌&&◌, Option, none, some, List, [], ◌∷◌, ◌++◌, filter, ltb, ◌==◌,
  nat_equality, if◌then◌else◌,
}
use firecrawl_manger.Models.{ApiKey, Client}
use firecrawl_manger.ControlPlane.{find_client}
use firecrawl_manger.Credits.{CreditSnapshot}

-- An entry of `key_details`.
pub record KeyCredits : Type 0 where
  pub api_key_id : ℕ
  pub remaining_credits : ℕ
  pub plan_credits : ℕ
  pub total_credits : ℕ

-- The answer of `aggregate_client_credits`.
pub record ClientCredits : Type 0 where
  pub total_remaining_credits : ℕ
  pub total_plan_credits : ℕ
  pub total_credits : ℕ
  pub keys : List KeyCredits

abbrev pub or_zero : Option ℕ → ℕ
or_zero none = 0
or_zero (some n) = n

abbrev earlier : CreditSnapshot → Option CreditSnapshot → CreditSnapshot
earlier s none = s
earlier s (some t) = if ltb t.snapshot_at s.snapshot_at then t else s

abbrev pub earliest : List CreditSnapshot → Option CreditSnapshot
earliest [] = none
earliest (s ∷ snapshots) = some (earlier s (earliest snapshots))

-- The first snapshot of a key that was fetched.
abbrev pub first_snapshot : ℕ → List CreditSnapshot → Option CreditSnapshot
first_snapshot id snapshots =
    earliest (filter (λ s. s.api_key_id == id && s.fetch_success) snapshots)

-- The plan's credits, else those of the first snapshot, else those that remain.
unfoldable pub total_of : List CreditSnapshot → ApiKey → ℕ
total_of snapshots key =
    if ltb 0 (or_zero key.cached_plan_credits)
    then or_zero key.cached_plan_credits
    else elim (first_snapshot key.id snapshots) [
      | none ↦ or_zero key.cached_remaining_credits
      | some s ↦ s.remaining_credits
    ]

abbrev pub key_credits : List CreditSnapshot → ApiKey → KeyCredits
key_credits snapshots key = record {
  api_key_id = key.id;
  remaining_credits = or_zero key.cached_remaining_credits;
  plan_credits = or_zero key.cached_plan_credits;
  total_credits = total_of snapshots key;
}

-- The end of the loop's body.
abbrev pub add_key : ClientCredits → KeyCredits → ClientCredits
add_key a k = record {
  total_remaining_credits = a.total_remaining_credits + k.remaining_credits;
  total_plan_credits = a.total_plan_credits + k.plan_credits;
  total_credits = a.total_credits + k.total_credits;
  keys = a.keys ++ k ∷ [];
}

unfoldable pub add_keys : List CreditSnapshot → ClientCredits → List ApiKey → ClientCredits
add_keys snapshots a [] = a
add_keys snapshots a (key ∷ keys) = add_keys snapshots (add_key a (key_credits snapshots key)) keys

abbrev pub no_credits : ClientCredits
no_credits = record {
  total_remaining_credits = 0;
  total_plan_credits = 0;
  total_credits = 0;
  keys = [];
}

abbrev pub is_key_of : ℕ → Option ℕ → Bool
is_key_of client_id none = false
is_key_of client_id (some id) = id == client_id

-- The keys that count.
abbrev pub counted_keys : ℕ → List ApiKey → List ApiKey
counted_keys client_id keys = filter (λ k. is_key_of client_id k.client_id && k.is_active) keys

-- The rest of `aggregate_client_credits`, once the client was looked for.
abbrev pub report_for : ℕ → List ApiKey → List CreditSnapshot → Option Client → Option ClientCredits
report_for client_id keys snapshots none = none
report_for client_id keys snapshots (some client) =
    some (add_keys snapshots no_credits (counted_keys client_id keys))

-- `aggregate_client_credits`, where none is the error for a client that is not there.
unfoldable pub aggregate_client_credits :
    ℕ → List Client → List ApiKey → List CreditSnapshot → Option ClientCredits
aggregate_client_credits client_id clients keys snapshots =
    report_for client_id keys snapshots (find_client client_id clients)
