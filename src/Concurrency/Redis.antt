-- ===== src/Concurrency/Redis.antt =====
-- app/core/concurrency.py, `RedisConcurrencyManager`: the leases of a key are a sorted set in Redis,
-- each with the time at which it ends. Redis runs the scripts of the source; the commands do what its
-- documentation says. Times are milliseconds.
pub mod Refines
pub mod Fallback
use firecrawl_manger.Prelude.{
  ℕ, zero, suc, ◌+◌, ◌*◌, ◌-◌, ◌/◌, max, String, Bool, true, false, not, Option, none, some, List,
  [], ◌∷◌, ◌++◌, filter, length, ltb, leb, ◌==◌, string_equality, nat_equality, if◌then◌else◌,
}
use firecrawl_manger.Errors.{Result, ok, err, FcamError, state_unavailable}

-- A member of the sorted set: the token of a lease, with its score.
abbrev pub Member : Type 0
Member = String × ℕ

-- The value of a Redis key, and the time at which Redis drops it.
pub record Zset : Type 0 where
  pub members : List Member
  pub expire_at : ℕ

-- What a command finds at the time `now`.
abbrev pub at_time : ℕ → Zset → List Member
at_time now z = if leb z.expire_at now then [] else z.members

-- `ZREMRANGEBYSCORE key -inf now`
abbrev pub remove_until : ℕ → List Member → List Member
remove_until now ms = filter (λ m. ltb now m.1) ms

-- `ZREM key token`
abbrev pub remove_token : String → List Member → List Member
remove_token token ms = filter (λ m. not (m.0 == token)) ms

-- `ZADD key score token`
abbrev pub zadd : String → ℕ → List Member → List Member
zadd token score ms = remove_token token ms ++ ((token, score) ∷ [])

-- `max(1, math.ceil(ttl / 1000))` seconds, in milliseconds.
abbrev pub expire_ms : ℕ → ℕ
expire_ms ttl = max 1 ((ttl + 999) / 1000) * 1000

-- `_ACQUIRE_LUA`
unfoldable pub acquire_script : ℕ → ℕ → ℕ → String → Zset → Bool × Zset
acquire_script now ttl maximum token z =
    let live : List Member = remove_until now (at_time now z) in
    if leb maximum (length live)
    then (false, record z { members = live })
    else (true, record { members = zadd token (now + ttl) live; expire_at = now + expire_ms ttl })

-- `_CURRENT_LUA`
unfoldable pub current_script : ℕ → Zset → ℕ × Zset
current_script now z =
    let live : List Member = remove_until now (at_time now z) in
    (length live, record z { members = live })

-- One round of the loop of `_acquire_fallback`: what the client sees after `WATCH`, and whether the
-- transaction goes through.
pub record WatchRound : Type 0 where
  pub seen : Zset
  pub commits : Bool

-- A round that does not return: the loop goes on.
unfoldable pub acquire_round : ℕ → ℕ → ℕ → String → WatchRound → Option (Bool × Zset)
acquire_round now ttl maximum token round =
    let live : List Member = remove_until now (at_time now round.seen) in
    if leb maximum (length live)
    then some (false, record round.seen { members = live })
    else if round.commits
    then some
        (true, record { members = zadd token (now + ttl) live; expire_at = now + expire_ms ttl })
    else none

-- The rounds that are left, from round `i` on.
unfoldable pub acquire_rounds : ℕ → ℕ → ℕ → ℕ → ℕ → String → (ℕ → WatchRound) → Result (Bool × Zset)
acquire_rounds zero i now ttl maximum token rounds = err state_unavailable
acquire_rounds (suc n) i now ttl maximum token rounds =
    elim (acquire_round now ttl maximum token (rounds i)) [
      | some answer ↦ ok answer
      | none ↦ acquire_rounds n (i + 1) now ttl maximum token rounds
    ]

-- `_acquire_fallback`
unfoldable pub acquire_fallback : ℕ → ℕ → ℕ → String → (ℕ → WatchRound) → Result (Bool × Zset)
unfolding acquire_rounds
acquire_fallback now ttl maximum token rounds = acquire_rounds 5 0 now ttl maximum token rounds

-- How `EVAL` ends: Redis ran the script on its key, does not know the command, or fails.
pub data Evaluated : Type 0 where
  ran : Zset → Evaluated
  unknown_command failed : Evaluated

-- `_release` of a lease: the exception of Redis is only logged.
unfoldable pub redis_release : ℕ → Bool → String → Zset → Zset
redis_release now answers token z =
    if answers then record z { members = remove_token token (at_time now z) } else z

-- `try_acquire`: the token of the lease, or no lease. A maximum that is not positive gives a lease
-- that releases nothing (`none`).
unfoldable pub redis_try_acquire :
    ℕ → ℕ → ℕ → String → Evaluated → (ℕ → WatchRound) → Result (Option (Option String))
unfolding acquire_script acquire_fallback
redis_try_acquire now ttl maximum token outcome rounds =
    if leb maximum 0 then ok (some none) else (elim outcome [
      | failed ↦ err state_unavailable
      | ran z ↦ ok (leased (acquire_script now ttl maximum token z).0)
      | unknown_command ↦ elim (acquire_fallback now ttl maximum token rounds) [
        | err e ↦ err e
        | ok (acquired, z) ↦ ok (leased acquired)
      ]
    ])
  where
    leased : Bool → Option (Option String)
    leased acquired = if acquired then some (some token) else none

-- `max(int(lease_ttl_ms), 1000)`
abbrev pub lease_ttl : ℕ → ℕ
lease_ttl lease_ttl_ms = max lease_ttl_ms 1000
