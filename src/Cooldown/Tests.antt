-- ===== src/Cooldown/Tests.antt =====
-- The theorem on app/core/cooldown.py with a server that keeps its times to live in a function.
use firecrawl_manger.Prelude.{
  ℕ, ◌≡◌, ◌≢◌, refl, sym, ap, ◌∙◌, Option, none, some, true, false, ◌==◌, nat_equality,
  if◌then◌else◌, arith,
}
use firecrawl_manger.Prelude.Int.{ℤ, pos, negsuc}
use firecrawl_manger.Errors.{ok}
use firecrawl_manger.Cooldown.{RedisClient, set_cooldown, remaining_seconds}
use firecrawl_manger.Cooldown.Laws.{IsRedis, remaining_seconds-set_cooldown}

abbrev Server : Type 0
Server = ℕ → Option ℕ

abbrev put : ℕ → Option ℕ → Server → Server
put id entry s k = if k == id then entry else s k

abbrev time_to_live : Option ℕ → ℤ
time_to_live none = negsuc 1
time_to_live (some n) = pos n

abbrev server_client : RedisClient Server
server_client = record {
  setex = λ id n s. some (put id (some n) s);
  delete = λ id s. some (put id none s);
  ttl = λ id s. some (time_to_live (s id));
}

abbrev ttl_after : ℕ → Option Server → Option ℤ
ttl_after id none = none
ttl_after id (some s) = some (time_to_live (s id))

same : (id : ℕ) → (id == id) ≡ true
same id = ground arith

key_ne : (id other : ℕ) → other ≢ id → (other == id) ≡ false
key_ne id other h = ground arith

server_client-IsRedis : IsRedis server_client
server_client-IsRedis = record {
  ttl_set = λ id n s s' h. sym (ap (ttl_after id) h) ∙ rw (same id) refl;
  ttl_deleted = λ id s s' h. sym (ap (ttl_after id) h) ∙ rw (same id) refl;
  ttl_set_other = λ id other n s s' d h. sym (ap (ttl_after other) h) ∙ rw (key_ne id other d) refl;
  ttl_deleted_other =
      λ id other s s' d h. sym (ap (ttl_after other) h) ∙ rw (key_ne id other d) refl;
}

abbrev empty_server : Server
empty_server id = none

sixty : set_cooldown server_client 7 (pos 60) empty_server ≡ ok (put 7 (some 60) empty_server)
unfolding set_cooldown
sixty = refl

remaining_seconds-set_cooldown_example :
    (remaining_seconds server_client 7 (put 7 (some 60) empty_server) ≡ ok (some 60))
    × ((other : ℕ)
        → other ≢ 7
        → remaining_seconds server_client other (put 7 (some 60) empty_server)
          ≡ remaining_seconds server_client other empty_server)
remaining_seconds-set_cooldown_example =
    remaining_seconds-set_cooldown server_client server_client-IsRedis 7 (pos 60) empty_server
      (put 7 (some 60) empty_server) sixty
