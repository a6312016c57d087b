-- ===== src/RateLimit/Tests.antt =====
-- Runs of the token buckets of app/core/rate_limit.py, and the theorems at concrete calls.
use firecrawl_manger.Prelude.{
  ℕ, String, List, [], ◌∷◌, ◌+◌, ◌*◌, ◌≡◌, ◌≤◌, refl, some, arith, string_equality, leb,
}
use firecrawl_manger.Prelude.Dict.{empty}
use firecrawl_manger.RateLimit.{Bucket, allow, take_token, second, token}
use firecrawl_manger.RateLimit.History.{Call, granted, granted_bound}
use firecrawl_manger.RateLimit.Redis.{Round, fallback_round}
use firecrawl_manger.RateLimit.Redis.Agrees.{fallback_round-take_token, scaled}

abbrev call : String → ℕ → Call
call key now = record { key = key; rate = 2; now = now }

-- Two calls a minute: of three in one second the third has to wait, and half a minute later one more
-- is allowed.
abbrev calls : List Call
calls =
    call "7" 0
    ∷ call "7" second
    ∷ call "9" second
    ∷ call "7" (2 * second)
    ∷ call "7" (32 * second)
    ∷ []

calls-granted : granted "7" calls empty ≡ 3
unfolding granted allow take_token
calls-granted = refl

granted_bound_example : granted "7" calls empty * token ≤ 2 * token + 32 * second * 2
granted_bound_example =
    granted_bound "7" 2 0 calls (omega arith) (ground (arith, string_equality.test_iff "7" "9"))

abbrev spent_bucket : Bucket
spent_bucket = record { tokens = second; last_refill = 0 }

fallback_round-take_token_example :
    (take_token 2 (5 * 1_000_000) (scaled (record { tokens = 70_000; last_refill = 0 }))).1
    ≡ scaled (fallback_round 2 5 (some 70_000) (some 0)).1
fallback_round-take_token_example =
    (fallback_round-take_token 2 5 (record { tokens = 70_000; last_refill = 0 }) (omega arith)).1

-- The first round loses the race, the second commits.
abbrev rounds : ℕ → Round
rounds i = record { raw_tokens = some 70_000; raw_last = some 0; commits = leb 1 i }
