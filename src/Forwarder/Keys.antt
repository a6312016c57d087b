-- ===== src/Forwarder/Keys.antt =====
-- What app/core/forwarder.py writes to a key, as `KeyPool.select` of app/core/key_pool.py sees it later.
use firecrawl_manger.Prelude.{
  ℕ, ◌+◌, ◌-◌, ◌≤◌, ◌<◌, ◌≡◌, ◌≢◌, refl, true, false, some, none, List, ◌∙◌, max, ge→ltb, ap, [],
  ◌∷◌, length, arith, All, find, Option, ◌==◌, nat_equality,
}
use firecrawl_manger.Errors.{ok, err, database_unavailable}
use firecrawl_manger.Models.{ApiKey, failed, cooling, disabled, decrypt_failed}
use firecrawl_manger.KeyPool.{Env, available, skip_disabled, is_disabled, visit, option_beq_iff}
use firecrawl_manger.KeyPool.Verdict.{visit_available_iff}
use firecrawl_manger.Forwarder.{
  Settings, Try, World, microseconds, set_key, disable_key, disable_key_decrypt_failed,
  mark_cooling, record_failure, count_failure, consume_quota_on_success, use_key,
}

-- The row of a key.
abbrev pub find_key : ℕ → List ApiKey → Option ApiKey
find_key id keys = find (λ r. r.id == id) keys

pub find_key-set_key :
    (id : ℕ) (key row : ApiKey) (keys : List ApiKey)
    → key.id ≡ id
    → find_key id keys ≡ some row
    → find_key id (set_key key keys) ≡ some key
find_key-set_key id key row [] e h = ground arith
find_key-set_key id key row (k ∷ keys) e h = ground (arith, find_key-set_key id key row keys)

-- A key that the upstream limited is not chosen again before its cooldown is over, less the part of a
-- second that the rest of the cooldown is rounded down by.
pub mark_cooling-visit :
    (t : Try) (key row : ApiKey) (seconds : ℕ) (w : World) (env : Env)
    → is_disabled key ≡ false
    → t.commit_ok ≡ true
    → find_key key.id w.keys ≡ some row
    → (cooled : ApiKey) × (find_key key.id (mark_cooling t key seconds w).keys ≡ some cooled)
      × ((visit env cooled).0 ≡ ok available → t.now + microseconds seconds < env.now + 1_000_000)
unfolding mark_cooling visit
mark_cooling-visit t key row seconds w env live done here =
    let cooled : ApiKey = record key {
      status = cooling;
      cooldown_until = some (t.now + microseconds seconds);
    } in
    (
      cooled,
      rw (live, done) (find_key-set_key key.id cooled row w.keys refl here),
      λ ready. ground (
        arith,
        (visit_available_iff env cooled).0 ready,
        option_beq_iff key.quota_reset_at (some env.today),
      ),
    )

-- A key that the upstream refused (401 or 403), or that cannot be decrypted, is never chosen again.
pub disable_key-visit :
    (t : Try) (key row : ApiKey) (w : World) (env : Env)
    → t.commit_ok ≡ true
    → find_key key.id w.keys ≡ some row
    → (off off' : ApiKey) × (find_key key.id (disable_key t key w).keys ≡ some off)
      × ((visit env off).0 ≡ ok skip_disabled)
      × (find_key key.id (disable_key_decrypt_failed t key w).keys ≡ some off')
      × ((visit env off').0 ≡ ok skip_disabled)
unfolding disable_key disable_key_decrypt_failed visit
disable_key-visit t key row w env done here =
    let off : ApiKey = record key { status = disabled; is_active = false } in
    let off' : ApiKey = record key { status = decrypt_failed; is_active = false } in
    (
      off,
      off',
      rw done (find_key-set_key key.id off row w.keys refl here),
      refl,
      rw done (find_key-set_key key.id off' row w.keys refl here),
      refl,
    )

use_key_frame :
    (t : Try) (key : ApiKey)
    → ((use_key t.now key).id ≡ key.id)
      × ((use_key t.now key).daily_usage ≡ key.daily_usage + 1)
      × ((use_key t.now key).daily_quota ≡ key.daily_quota)
      × ((use_key t.now key).quota_reset_at ≡ key.quota_reset_at)
use_key_frame t key = (ground arith, ground arith, ground arith, ground arith)

-- An answer is counted against the quota of its key exactly when the commit goes through, and is an
-- error otherwise; a key that reaches its quota is not chosen again on the day of that quota.
pub consume_quota-visit :
    (t : Try) (key row : ApiKey) (w : World) (env : Env) (quota : ℕ)
    → find_key key.id w.keys ≡ some row
    → (t.commit_ok ≡ false
        → ((consume_quota_on_success t key w).0 ≡ err database_unavailable)
          × ((consume_quota_on_success t key w).1.keys ≡ t.stored))
      × (t.commit_ok ≡ true
          → ((consume_quota_on_success t key w).0 ≡ ok tt)
            × ((used : ApiKey) × (find_key key.id (consume_quota_on_success t key w).1.keys
                  ≡ some used)
                × (used.daily_usage ≡ key.daily_usage + 1)
                × (key.daily_quota ≡ some quota
                    → key.quota_reset_at ≡ some env.today
                    → quota ≤ key.daily_usage + 1
                    → (visit env used).0 ≢ ok available)))
unfolding consume_quota_on_success
consume_quota-visit t key row w env quota here = (
  λ failed. (rw failed refl, rw failed refl),
  λ done. (
    rw done refl,
    (
      use_key t.now key,
      rw done (find_key-set_key key.id (use_key t.now key) row w.keys (use_key_frame t key).0 here),
      (use_key_frame t key).1,
      λ e today reached ready.
          let room = (visit_available_iff env (use_key t.now key)).0 ready in
          omega (
            arith,
            (use_key_frame t key).1,
            reached,
            (room.3 quota ((use_key_frame t key).2 ∙ e)).0 ((use_key_frame t key).3 ∙ today),
          ),
    ),
  ),
)

abbrev pub record_failures : Settings → ApiKey → List Try → World → World
record_failures s key [] w = w
record_failures s key (t ∷ tries) w = record_failures s key tries (record_failure s t key w)

-- The first of the failures was at `start`.
abbrev pub InWindow : Settings → ℕ → Try → Type 0
InWindow s start t = t.now - start ≤ microseconds s.failure_window_seconds

one_failure :
    (s : Settings) (t : Try) (key : ApiKey) (w : World) (count start : ℕ)
    → is_disabled key ≡ false
    → count_failure s t.now (w.failures key.id) ≡ (count, start)
    → ((record_failure s t key w).failures key.id ≡ some (count, start))
      × (count < s.failure_threshold → (record_failure s t key w).keys ≡ w.keys)
unfolding record_failure
one_failure s t key w count start live e =
    rw (live, e) (ground (arith, nat_equality.test_iff key.id key.id), ground arith)

next_count :
    (s : Settings) (count start : ℕ) (t : Try)
    → InWindow s start t
    → count_failure s t.now (some (count, start)) ≡ (count + 1, start)
unfolding count_failure
next_count s count start t inside = ground arith

more_failures :
    (s : Settings) (key : ApiKey) (tries : List Try) (w : World) (count start : ℕ)
    → is_disabled key ≡ false
    → w.failures key.id ≡ some (count, start)
    → All (InWindow s start) tries
    → ((record_failures s key tries w).failures key.id ≡ some (count + length tries, start))
      × (count + length tries < s.failure_threshold → (record_failures s key tries w).keys ≡ w.keys)
more_failures s key [] w count start live known inside =
    (known ∙ ap (λ n. some (n, start)) (omega arith), λ h. refl)
more_failures s key (t ∷ tries) w count start live known (now, later) =
    let (counted, kept) =
      one_failure s t key w (count + 1) start live
        (ap (count_failure s t.now) known ∙ next_count s count start t now) in
    let (total, kept') =
      more_failures s key tries (record_failure s t key w) (count + 1) start live counted later in
    (total ∙ ap (λ n. some (n, start)) (omega arith), λ h. kept' (omega arith) ∙ kept (omega arith))

-- The cooldown that a failing key gets.
abbrev pub failed_cooldown : Settings → ℕ
failed_cooldown s = microseconds (max s.failed_cooldown_seconds 1)

abbrev pub FailsUntil : Settings → Try → ApiKey → World → Env → Type 0
FailsUntil s t key w env =
    (failing : ApiKey) × (find_key key.id w.keys ≡ some failing)
    × (failing.status ≡ failed)
    × ((visit env failing).0 ≡ ok available → t.now + failed_cooldown s < env.now + 1_000_000)

last_failure :
    (s : Settings) (t : Try) (key row : ApiKey) (w : World) (env : Env) (count start : ℕ)
    → is_disabled key ≡ false
    → t.commit_ok ≡ true
    → count_failure s t.now (w.failures key.id) ≡ (count, start)
    → s.failure_threshold ≤ count
    → find_key key.id w.keys ≡ some row
    → FailsUntil s t key (record_failure s t key w) env
unfolding record_failure visit
last_failure s t key row w env count start live done counted reached here =
    let failing : ApiKey = record key {
      status = failed;
      cooldown_until = some (t.now + failed_cooldown s);
    } in
    (
      failing,
      rw (live, counted, ge→ltb count s.failure_threshold reached, done)
          (find_key-set_key key.id failing row w.keys refl here),
      refl,
      λ ready. ground (
        arith,
        (visit_available_iff env failing).0 ready,
        option_beq_iff key.quota_reset_at (some env.today),
      ),
    )

-- Failures of a key inside one window leave its row alone until their number reaches the threshold;
-- the failure that reaches it makes the key fail, and it is not chosen before its cooldown is over,
-- less the part of a second that is rounded down.
pub record_failures-visit :
    (s : Settings) (key row : ApiKey) (first last : Try) (tries : List Try) (w : World) (env : Env)
    → is_disabled key ≡ false
    → w.failures key.id ≡ none
    → All (InWindow s first.now) tries
    → InWindow s first.now last
    → find_key key.id w.keys ≡ some row
    → let w' = record_failure s last key (record_failures s key (first ∷ tries) w) in
      (length tries + 2 < s.failure_threshold → w'.keys ≡ w.keys)
      × (length tries + 2 ≡ s.failure_threshold
          → last.commit_ok ≡ true
          → FailsUntil s last key w' env)
unfolding count_failure
record_failures-visit s key row first last tries w env live fresh inside inside' here =
    let (counted, kept) =
      one_failure s first key w 1 first.now live (ap (count_failure s first.now) fresh) in
    let (total, kept') =
      more_failures s key tries (record_failure s first key w) 1 first.now live counted inside in
    let next =
      ap (count_failure s last.now) total
      ∙ next_count s (1 + length tries) first.now last inside' in
    let before = record_failures s key (first ∷ tries) w in
    let same : 1 + length tries < s.failure_threshold → before.keys ≡ w.keys =
      λ h. kept' h ∙ kept (omega arith) in
    (
      λ below.
          (one_failure s last key before (1 + length tries + 1) first.now live next).1 (omega arith)
          ∙ same (omega arith),
      λ reached done.
          last_failure s last key row before env (1 + length tries + 1) first.now live done next
            (omega arith) (ap (find_key key.id) (same (omega arith)) ∙ here),
    )
