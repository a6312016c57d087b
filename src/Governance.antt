-- ===== src/Governance.antt =====
-- app/api/deps.py: how a request is authenticated, and the gates of its client that it passes before
-- it is handled.
pub mod Laws
pub mod Access
mod Tests
use firecrawl_manger.Prelude.{
  ℕ, String, Bool, true, false, not, ◌&&◌, Option, none, some, [], leb, ◌==◌, nat_equality,
  if◌then◌else◌,
}
use firecrawl_manger.Prelude.Text.{Text, text, text_equality, strip, split_once, lower}
use firecrawl_manger.Errors.{
  Result, ok, err, FcamError, error, database_unavailable, client_concurrency_limited,
  client_rate_limited, client_quota_exceeded, client_unauthorized, client_disabled, not_ready,
  state_unavailable,
}
use firecrawl_manger.Models.{Client}
use firecrawl_manger.Concurrency.{Lease, States, try_acquire, release}
use firecrawl_manger.RateLimit.{Buckets, allow}
use firecrawl_manger.KeyPool.{option_beq}

abbrev non_empty : Text → Option Text
non_empty t = if t == [] then none else some t

-- `_bearer_token`, of a header that is there.
unfoldable pub bearer_token : Text → Option Text
unfolding split_once strip
bearer_token authorization = elim (split_once b' ' authorization) [
  | none ↦ none
  | some (scheme, credentials) ↦
      if lower scheme == text "bearer" then non_empty (strip credentials) else none
]

abbrev unauthorized : FcamError
unauthorized = error 401 client_unauthorized "Missing or invalid client token"

-- The row that was found for the hash of a token.
abbrev pub found_client : Option Client → Result Client
found_client none = err unauthorized
found_client (some client) =
    if client.is_active then ok client else err (error 403 client_disabled "Client disabled")

-- `require_client`. `look_up` is the query for the hash of a token, with the keyed hash of the
-- library inside, and is an error where the database fails.
unfoldable pub require_client : Bool → Option Text → (Text → Result (Option Client)) → Result Client
unfolding bearer_token
require_client has_master_key authorization look_up =
    if not has_master_key
    then err (error 503 not_ready "Master key not configured")
    else (elim authorization [
      | none ↦ err unauthorized
      | some header ↦ elim (bearer_token header) [
        | none ↦ err unauthorized
        | some token ↦ elim (look_up token) [
          | err e ↦ err database_unavailable
          | ok row ↦ found_client row
        ]
      ]
    ])

-- What the gates meet outside: whether the rate limiter answers (the one in memory always does, the
-- one in Redis raises an error where it cannot), the monotonic clock, the day in the configured time zone (`none` where
-- the zone cannot be read), the seconds until midnight, and whether the commit goes through.
pub record Outside : Type 0 where
  pub limiter_answers : Bool
  pub monotonic : ℕ
  pub today : Option ℕ
  pub until_midnight : ℕ
  pub commit_ok : Bool

-- The semaphores and buckets of the clients, and the row of this one.
pub record Gates : Type 0 where
  pub states : States
  pub buckets : Buckets
  pub client : Client

abbrev pub leave : Lease → Gates → Gates
leave lease g = record g { states = (release lease g.states).1 }

abbrev limited : FcamError → Option ℕ → FcamError
limited e retry_after = record e { retry_after = retry_after }

-- `if client.quota_reset_at != today: …`
abbrev new_day : ℕ → Client → Client
new_day today client = record client { daily_usage = 0; quota_reset_at = some today }

-- `if client.daily_usage >= client.daily_quota: …`
unfoldable pub check_usage : Outside → ℕ → Lease → Gates → Result Lease × Gates
check_usage o quota lease g =
    if leb quota g.client.daily_usage
    then (
      err (
          limited (error 429 client_quota_exceeded "Client quota exceeded")
            (some o.until_midnight)),
      leave lease g,
    )
    else (ok lease, g)

-- The day of the quota is brought up to date first. If that commit fails, the row stays as it is.
unfoldable pub check_day : Outside → ℕ → ℕ → Lease → Gates → Result Lease × Gates
unfolding check_usage
check_day o today quota lease g =
    if option_beq g.client.quota_reset_at (some today)
    then check_usage o quota lease g
    else if o.commit_ok
    then check_usage o quota lease (record g { client = new_day today g.client })
    else (err database_unavailable, leave lease g)

-- `if config.quota.enable_quota_check and client.daily_quota is not None: …`
unfoldable pub check_client_quota : Bool → Outside → Lease → Gates → Result Lease × Gates
unfolding check_day
check_client_quota enabled o lease g = elim g.client.daily_quota [
  | none ↦ (ok lease, g)
  | some quota ↦ if not enabled then (ok lease, g) else (elim o.today [
    | none ↦ (err database_unavailable, leave lease g)
    | some today ↦ check_day o today quota lease g
  ])
]

-- With a lease: the rate limit, and then the quota.
unfoldable pub after_lease :
    Bool → Outside → String → Lease → Gates → (Bool × ℕ) × Buckets → Result Lease × Gates
unfolding check_client_quota
after_lease enabled o name lease g ((true, _), buckets) =
    check_client_quota enabled o lease (record g { buckets = buckets })
after_lease enabled o name lease g ((false, retry_after), buckets) = (
  err (limited (error 429 client_rate_limited "Client rate limited") (some retry_after)),
  leave lease (record g { buckets = buckets }),
)

-- An error of the rate limiter is not caught: the lease is not given back.
unfoldable pub with_slot :
    Bool → Outside → String → Gates → Option Lease × States → Result Lease × Gates
unfolding after_lease
with_slot enabled o name g (none, states) = (
  err (error 429 client_concurrency_limited "Client concurrency limited"),
  record g { states = states },
)
with_slot enabled o name g (some lease, states) =
    if not o.limiter_answers
    then (err state_unavailable, record g { states = states })
    else after_lease enabled o name lease (record g { states = states })
        (allow name g.client.rate_limit_per_min o.monotonic g.buckets)

-- `enforce_client_governance` up to its `yield`; `name` is `str(client.id)`. After the request comes
-- `leave` with the lease.
unfoldable pub enforce_client_governance : Bool → Outside → String → Gates → Result Lease × Gates
unfolding with_slot
enforce_client_governance enabled o name g =
    with_slot enabled o name g (try_acquire name g.client.max_concurrent g.states)
