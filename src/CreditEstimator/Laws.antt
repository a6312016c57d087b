-- ===== src/CreditEstimator/Laws.antt =====
-- Laws of the cost estimate of app/core/credit_estimator.py.
use firecrawl_manger.Prelude.{
  ℕ, ◌-◌, ◌*◌, ◌≤◌, ◌<◌, ◌≡◌, refl, max, Bool, true, false, Option, none, some, List, [], ◌∷◌, ◌++◌,
  arith, All, if◌then◌else◌,
}
use firecrawl_manger.Prelude.Int.{sub_ℕ}
use firecrawl_manger.Prelude.Text.{Text, text, before, split, split-ne-nil, occurs_in}
use firecrawl_manger.Models.{ApiKey}
use firecrawl_manger.CreditEstimator.{
  estimate_credit_cost, ResponseData, normalize_endpoint, update_local_credits, lookup_cost,
  credit_cost_map, or_one,
}

lookup_cost_pos :
    (endpoint : Text) (costs : List (Text × ℕ))
    → All (λ e. 1 ≤ e.1) costs
    → 1 ≤ or_one (lookup_cost endpoint costs)
lookup_cost_pos endpoint [] h = omega arith
lookup_cost_pos endpoint ((name, cost) ∷ costs) h =
    ground (arith, lookup_cost_pos endpoint costs h.1)

bounds :
    (base : ℕ) (d : ResponseData)
    → 1 ≤ base
    → (crawl batch : Bool)
    → let cost : ℕ =
        if crawl
        then max base (max (or_one d.total) 1)
        else if batch
        then max (base * max (or_one d.count) 1) 1
        else base in
      (1 ≤ base) × (1 ≤ cost) × (crawl ≡ true → (base ≤ cost) × (or_one d.total ≤ cost))
bounds base d h crawl batch = (h, ground arith, λ e. rw e (omega arith, omega arith))

-- Every request is expected to cost at least one credit, whatever the upstream answers, and a crawl
-- at least what the table says of its endpoint and at least the pages that the answer reports.
pub estimate_bounds :
    (endpoint : Text) (d : ResponseData)
    → (1 ≤ estimate_credit_cost endpoint none)
      × (1 ≤ estimate_credit_cost endpoint (some d))
      × (occurs_in (text "/crawl") endpoint ≡ true
          → (estimate_credit_cost endpoint none ≤ estimate_credit_cost endpoint (some d))
            × (or_one d.total ≤ estimate_credit_cost endpoint (some d)))
unfolding estimate_credit_cost
estimate_bounds endpoint d =
    bounds (or_one (lookup_cost endpoint credit_cost_map)) d
      (lookup_cost_pos endpoint credit_cost_map (omega arith)) (occurs_in (text "/crawl") endpoint)
      (occurs_in (text "/batch/") endpoint)

before-query : (c : ℕ) (p q : Text) → before c (p ++ (c ∷ q)) ≡ before c p
before-query c [] q = ground arith
before-query c (b ∷ p) q = ground (arith, before-query c p q)

-- A query string does not change the endpoint that a request is charged to.
pub normalize_endpoint-query :
    (path query : Text) → normalize_endpoint (path ++ (b'?' ∷ query)) ≡ normalize_endpoint path
unfolding normalize_endpoint
normalize_endpoint-query path query = rw before-query refl

-- The status requests of a crawl or of a batch are charged to the endpoint that started it.
pub normalize_endpoint-job :
    (id : Text)
    → (normalize_endpoint (text "/v1/crawl/" ++ id) ≡ text "/v1/crawl")
      × (normalize_endpoint (text "/v2/crawl/" ++ id) ≡ text "/v2/crawl")
      × (normalize_endpoint (text "/v2/batch/scrape/" ++ id) ≡ text "/v2/batch/scrape")
unfolding normalize_endpoint split
normalize_endpoint-job id =
    let (w, ws, e) = split-ne-nil b'/' (before b'?' id) in
    (rw e (ground arith), rw e (ground arith), rw e (ground arith))

-- Spending takes the cost off the cached credits and stops at 0; without a cache nothing is touched,
-- and after a failed commit the key shows what was stored.
pub update_local_credits_spends :
    (cost old : ℕ) (stored : Option ℕ) (key : ApiKey)
    → (key.cached_remaining_credits ≡ none
        → (commit_ok : Bool) → update_local_credits (sub_ℕ 0 cost) commit_ok stored key ≡ key)
      × (key.cached_remaining_credits ≡ some old
          → (update_local_credits (sub_ℕ 0 cost) true stored key).cached_remaining_credits
            ≡ some (old - cost))
      × (key.cached_remaining_credits ≡ some old
          → 0 < cost
          → 0 < old
          → (update_local_credits (sub_ℕ 0 cost) false stored key).cached_remaining_credits
            ≡ stored)
unfolding update_local_credits
update_local_credits_spends cost old stored key =
    (λ h commit_ok. ground arith, λ h. ground arith, λ h p q. ground arith)
