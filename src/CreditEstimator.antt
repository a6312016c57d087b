-- ===== src/CreditEstimator.antt =====
-- app/core/credit_estimator.py: what a request is expected to cost, and the cached credits of a key.
pub mod Laws
mod Tests
use firecrawl_manger.Prelude.{
  ℕ, ◌+◌, ◌*◌, max, Bool, true, false, ◌&&◌, ◌||◌, Option, none, some, List, [], ◌∷◌, String, ltb,
  leb, ◌==◌, length, take, get_elem?, nat_equality, if◌then◌else◌,
}
use firecrawl_manger.Prelude.Int.{ℤ, pos, clamp, ◌+ℤ◌}
use firecrawl_manger.Prelude.Text.{Text, text, text_equality, before, occurs_in, split, join}
use firecrawl_manger.Models.{ApiKey}

-- `CREDIT_COST_MAP`
abbrev pub credit_cost_map : List (Text × ℕ)
credit_cost_map =
    (text "/v1/scrape", 1)
    ∷ (text "/v1/crawl", 5)
    ∷ (text "/v1/search", 1)
    ∷ (text "/v1/map", 1)
    ∷ (text "/v2/scrape", 1)
    ∷ (text "/v2/crawl", 5)
    ∷ (text "/v2/map", 1)
    ∷ (text "/v2/extract", 2)
    ∷ (text "/v2/batch/scrape", 1)
    ∷ []

-- `CREDIT_COST_MAP.get(endpoint)`
abbrev pub lookup_cost : Text → List (Text × ℕ) → Option ℕ
lookup_cost endpoint [] = none
lookup_cost endpoint ((name, cost) ∷ costs) =
    if name == endpoint then some cost else lookup_cost endpoint costs

abbrev pub or_one : Option ℕ → ℕ
or_one none = 1
or_one (some n) = n

-- A response body that is a non-empty JSON object: what `int(…)` gives of `data.total` and of
-- `data.count`, with `none` where the entry is missing or is no number. A number below 0 counts as 0,
-- since only its maximum with 1 is used.
pub record ResponseData : Type 0 where
  pub total : Option ℕ
  pub count : Option ℕ

-- `estimate_credit_cost`
unfoldable pub estimate_credit_cost : Text → Option ResponseData → ℕ
estimate_credit_cost endpoint response_data =
    let base_cost : ℕ = or_one (lookup_cost endpoint credit_cost_map) in
    elim response_data [
      | none ↦ base_cost
      | some d ↦
          if occurs_in (text "/crawl") endpoint
          then max base_cost (max (or_one d.total) 1)
          else if occurs_in (text "/batch/") endpoint
          then max (base_cost * max (or_one d.count) 1) 1
          else base_cost
    ]

abbrev third_is : Text → List Text → Bool
third_is word parts = elim (get_elem? parts 2) [ none ↦ false | some w ↦ w == word ]

-- `normalize_endpoint`
unfoldable pub normalize_endpoint : Text → Text
normalize_endpoint path =
    let path_no_query : Text = before b'?' path in
    if path_no_query == [] || path_no_query == text "/"
    then path_no_query
    else let parts : List Text = split b'/' path_no_query in
      if leb 4 (length parts) && third_is (text "crawl") parts
      then join b'/' (take 3 parts)
      else if leb 5 (length parts) && third_is (text "batch") parts
      then join b'/' (take 4 parts)
      else path_no_query

-- `update_local_credits` with the answer of `db.commit()` and the value that the key shows after a
-- rollback.
unfoldable pub update_local_credits : ℤ → Bool → Option ℕ → ApiKey → ApiKey
update_local_credits delta commit_ok stored key = elim key.cached_remaining_credits [
  | none ↦ key
  | some old ↦
      let new : ℕ = clamp (pos old +ℤ delta) in
      if new == old
      then key
      else record key { cached_remaining_credits = if commit_ok then some new else stored }
]
