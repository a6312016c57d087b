-- ===== src/Cooldown.antt =====
-- app/core/cooldown.py: the cooldowns of keys in Redis. `_redis_key` writes an id into a key's name, so
-- that ids stand for the names here. Redis is an argument.
pub mod Laws
mod Tests
use firecrawl_manger.Prelude.{ℕ, ◌≡◌, ◌≢◌, Option, none, some, ◌==◌, nat_equality, if◌then◌else◌}
use firecrawl_manger.Prelude.Int.{ℤ, pos, negsuc}
use firecrawl_manger.Errors.{FcamError, Result, ok, err, state_unavailable}

-- The commands of the client, on the state of the server; none is an exception.
pub record RedisClient {ℓ} (S : Type ℓ) : Type ℓ where
  pub setex : ℕ → ℕ → S → Option S
  pub delete : ℕ → S → Option S
  pub ttl : ℕ → S → Option ℤ

abbrev pub or_unavailable {ℓ} : {A : Type ℓ} → Option A → Result A
or_unavailable none = err state_unavailable
or_unavailable (some a) = ok a

-- `max(int(cooldown_seconds), 0)`
abbrev pub at_least_0 : ℤ → ℕ
at_least_0 (pos n) = n
at_least_0 (negsuc n) = 0

-- `RedisCooldownStore.set_cooldown`
unfoldable pub set_cooldown {ℓ} : {S : Type ℓ} → RedisClient S → ℕ → ℤ → S → Result S
set_cooldown client key_id cooldown_seconds s =
    let seconds = at_least_0 cooldown_seconds in
    if seconds == 0
    then or_unavailable (client.delete key_id s)
    else or_unavailable (client.setex key_id seconds s)

-- A time to live that is positive.
abbrev pub positive_ttl : ℤ → Option ℕ
positive_ttl (pos n) = if n == 0 then none else some n
positive_ttl (negsuc n) = none

abbrev pub remaining_of : Option ℤ → Result (Option ℕ)
remaining_of none = err state_unavailable
remaining_of (some ttl) = ok (positive_ttl ttl)

-- `RedisCooldownStore.remaining_seconds`
unfoldable pub remaining_seconds {ℓ} : {S : Type ℓ} → RedisClient S → ℕ → S → Result (Option ℕ)
remaining_seconds client key_id s = remaining_of (client.ttl key_id s)
