-- ===== src/Concurrency/Redis/Refines.antt =====
-- The sorted sets of app/core/concurrency.py against a plain account of the leases.
use firecrawl_manger.Prelude.{
  ℕ, ◌+◌, ◌≤◌, ◌≡◌, refl, sym, ap, ap₂, subst, ◌∙◌, String, Bool, true, false, not, List, [], ◌∷◌,
  ◌++◌, arith, Bool-cases, inl, inr, length, All, All-imp, All-filter, All-append, filter-append,
  filter_comm, filter_absorbs, ltb, leb, ge→ltb, ◌==◌, string_equality, if◌then◌else◌,
}
use firecrawl_manger.Concurrency.Redis.{
  Member, Zset, at_time, remove_until, remove_token, zadd, expire_ms, acquire_script,
  current_script, redis_release,
}

-- A call on the semaphore of one key: an acquisition with a token, a release, or `current`.
pub data Call : Type 0 where
  acquire give_back : ℕ → String → Call
  look : ℕ → Call

abbrev pub time_of : Call → ℕ
time_of (acquire now token) = now
time_of (give_back now token) = now
time_of (look now) = now

-- The clock of the calls does not go back.
abbrev pub InOrder : ℕ → List Call → Type 0
InOrder t [] = Unit
InOrder t (c ∷ calls) = (t ≤ time_of c) × InOrder (time_of c) calls

abbrev pub as_number : Bool → ℕ
as_number true = 1
as_number false = 0

module _ (ttl maximum : ℕ) where
  -- The account: every lease that was granted and not given back, with its end. A lease is granted
  -- while fewer than `maximum` of them have not ended. Nothing is ever tidied up.
  unfoldable pub account : List Member → Call → ℕ × List Member
  account leases (acquire now token) =
      if leb maximum (length (remove_until now leases))
      then (0, leases)
      else (1, zadd token (now + ttl) leases)
  account leases (give_back now token) = (0, remove_token token leases)
  account leases (look now) = (length (remove_until now leases), leases)

  -- The answer of Redis to a call, and its key afterwards.
  unfoldable pub redis : Zset → Call → ℕ × Zset
  unfolding acquire_script current_script redis_release
  redis z (acquire now token) =
      let (acquired, z') = acquire_script now ttl maximum token z in (as_number acquired, z')
  redis z (give_back now token) = (0, redis_release now true token z)
  redis z (look now) = current_script now z

  unfoldable pub account_run : List Member → List Call → List ℕ
  unfolding account
  account_run leases [] = []
  account_run leases (c ∷ calls) =
      let (answer, leases') = account leases c in answer ∷ account_run leases' calls

  unfoldable pub redis_run : Zset → List Call → List ℕ
  unfolding redis
  redis_run z [] = []
  redis_run z (c ∷ calls) = let (answer, z') = redis z c in answer ∷ redis_run z' calls

  -- No member outlives its key, and none was made to end later than now plus the lifetime.
  abbrev pub IsKept : ℕ → Zset → Type 0
  IsKept t z = All (λ m. (m.1 ≤ z.expire_at) × (m.1 ≤ t + ttl)) z.members

  -- The leases that have not ended are the same.
  abbrev pub Agree : ℕ → Zset → List Member → Type 0
  Agree t z leases = IsKept t z × (remove_until t z.members ≡ remove_until t leases)

  until_later :
      (t now : ℕ) (ms : List Member)
      → t ≤ now
      → remove_until now (remove_until t ms) ≡ remove_until now ms
  until_later t now ms h =
      filter_absorbs (λ m. ltb now m.1) (λ m. ltb t m.1) ms (λ m e. ground arith)

  ended :
      (now e : ℕ) (P : Member → Type 0) (ms : List Member)
      → e ≤ now
      → All (λ m. (m.1 ≤ e) × P m) ms
      → remove_until now ms ≡ []
  ended now e P [] h k = refl
  ended now e P (m ∷ ms) h k = rw (ge→ltb now m.1 (omega (arith, k.0.0))) (ended now e P ms h k.1)

  live_found :
      (t now : ℕ) (z : Zset)
      → IsKept t z
      → remove_until now (at_time now z) ≡ remove_until now z.members
  live_found t now z kept = elim (Bool-cases (leb z.expire_at now)) [
    | inr there ↦ rw there refl
    | inl gone ↦
        rw gone (sym (ended now z.expire_at (λ m. m.1 ≤ t + ttl) z.members (ground arith) kept))
  ]

  agreed_at :
      (t now : ℕ) (z : Zset) (leases : List Member)
      → t ≤ now
      → Agree t z leases
      → remove_until now (at_time now z) ≡ remove_until now leases
  agreed_at t now z leases h (kept, same) =
      live_found t now z kept
      ∙ sym (until_later t now z.members h)
      ∙ ap (remove_until now) same
      ∙ until_later t now leases h

  kept_at :
      (t now : ℕ) (z : Zset)
      → t ≤ now
      → IsKept t z
      → All (λ m. (m.1 ≤ z.expire_at) × (m.1 ≤ now + ttl)) (at_time now z)
  kept_at t now z h kept = elim (Bool-cases (leb z.expire_at now)) [
    | inl gone ↦ rw gone tt
    | inr there ↦ rw there (
        All-imp (λ m. (m.1 ≤ z.expire_at) × (m.1 ≤ t + ttl))
          (λ m. (m.1 ≤ z.expire_at) × (m.1 ≤ now + ttl)) z.members
          (λ m k. (k.0, omega (arith, k.1))) kept)
  ]

  -- Tidying up changes neither the leases nor what is kept.
  tidied :
      (t now : ℕ) (z : Zset) (leases : List Member)
      → t ≤ now
      → Agree t z leases
      → Agree now (record z { members = remove_until now (at_time now z) }) leases
  tidied t now z leases h agree = (
    All-filter (λ m. (m.1 ≤ z.expire_at) × (m.1 ≤ now + ttl)) (λ m. ltb now m.1) (at_time now z)
        (kept_at t now z h agree.0),
    until_later now now (at_time now z) (omega arith) ∙ agreed_at t now z leases h agree,
  )

  token_until :
      (now : ℕ) (token : String) (xs ys : List Member)
      → remove_until now xs ≡ remove_until now ys
      → remove_until now (remove_token token xs) ≡ remove_until now (remove_token token ys)
  token_until now token xs ys same =
      filter_comm (λ m. ltb now m.1) (λ m. not (m.0 == token)) xs
      ∙ ap (remove_token token) same
      ∙ sym (filter_comm (λ m. ltb now m.1) (λ m. not (m.0 == token)) ys)

  zadd_until :
      (now : ℕ) (token : String) (score : ℕ) (xs ys : List Member)
      → remove_until now xs ≡ remove_until now ys
      → remove_until now (zadd token score xs) ≡ remove_until now (zadd token score ys)
  zadd_until now token score xs ys same =
      filter-append (λ m. ltb now m.1) (remove_token token xs) ((token, score) ∷ [])
      ∙ ap (λ l. l ++ remove_until now ((token, score) ∷ [])) (token_until now token xs ys same)
      ∙ sym (filter-append (λ m. ltb now m.1) (remove_token token ys) ((token, score) ∷ []))

  expire_covers : ttl ≤ expire_ms ttl
  expire_covers = omega arith

  redis_step :
      (t : ℕ) (z : Zset) (leases : List Member) (c : Call)
      → t ≤ time_of c
      → Agree t z leases
      → ((redis z c).0 ≡ (account leases c).0)
        × Agree (time_of c) (redis z c).1 (account leases c).1
  unfolding redis account
  redis_step t z leases (acquire now token) h agree =
      elim (Bool-cases (leb maximum (length (remove_until now leases)))) [
        | inl full ↦ rw (full, acquire_script, same, full) (refl, (kept, idle))
        | inr free ↦
            rw (free, acquire_script, same, free)
              (
                refl,
                (
                  All-append (λ m. (m.1 ≤ now + expire_ms ttl) × (m.1 ≤ now + ttl))
                      (remove_token token (remove_until now leases)) ((token, now + ttl) ∷ [])
                      (All-filter (λ m. (m.1 ≤ now + expire_ms ttl) × (m.1 ≤ now + ttl))
                        (λ m. not (m.0 == token)) (remove_until now leases)
                        (All-imp (λ m. (m.1 ≤ z.expire_at) × (m.1 ≤ now + ttl))
                          (λ m. (m.1 ≤ now + expire_ms ttl) × (m.1 ≤ now + ttl))
                          (remove_until now leases)
                          (λ m k. (omega (arith, k.1, expire_covers), k.1)) kept))
                      ((omega (arith, expire_covers), omega arith), tt),
                  zadd_until now token (now + ttl) (remove_until now leases) leases idle,
                ),
              )
      ]
    where
      same : remove_until now (at_time now z) ≡ remove_until now leases
      same = agreed_at t now z leases h agree

      idle : remove_until now (remove_until now leases) ≡ remove_until now leases
      idle = until_later now now leases (omega arith)

      kept : All (λ m. (m.1 ≤ z.expire_at) × (m.1 ≤ now + ttl)) (remove_until now leases)
      kept = subst (All (λ m. (m.1 ≤ z.expire_at) × (m.1 ≤ now + ttl))) same (
          All-filter (λ m. (m.1 ≤ z.expire_at) × (m.1 ≤ now + ttl)) (λ m. ltb now m.1)
            (at_time now z) (kept_at t now z h agree.0))
  redis_step t z leases (give_back now token) h agree = (
    refl,
    (
      All-filter (λ m. (m.1 ≤ z.expire_at) × (m.1 ≤ now + ttl)) (λ m. not (m.0 == token))
          (at_time now z) (kept_at t now z h agree.0),
      token_until now token (at_time now z) leases (agreed_at t now z leases h agree),
    ),
  )
  redis_step t z leases (look now) h agree =
      (ap length (agreed_at t now z leases h agree), tidied t now z leases h agree)

  run_agrees :
      (calls : List Call) (t : ℕ) (z : Zset) (leases : List Member)
      → InOrder t calls
      → Agree t z leases
      → redis_run z calls ≡ account_run leases calls
  unfolding redis_run account_run
  run_agrees [] t z leases order agree = refl
  run_agrees (c ∷ calls) t z leases (now, order) agree =
      let (answer, agree') = redis_step t z leases c now agree in
      ap₂ ◌∷◌ answer (run_agrees calls (time_of c) (redis z c).1 (account leases c).1 order agree')

-- The semaphore in Redis answers every history of calls, made in the order of their times, as the
-- plain account does that keeps each lease until it is given back and counts those that have not
-- ended: tidying up and the expiry of the whole key lose no lease, and none is granted too much.
pub redis_run_refines :
    (ttl maximum : ℕ) (calls : List Call)
    → InOrder 0 calls
    → redis_run ttl maximum (record { members = []; expire_at = 0 }) calls
      ≡ account_run ttl maximum [] calls
redis_run_refines ttl maximum calls order =
    run_agrees ttl maximum calls 0 (record { members = []; expire_at = 0 }) [] order (tt, refl)
