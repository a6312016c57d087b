-- ===== src/KeyPool/Select/Loop.antt =====
-- The round robin loop of app/core/key_pool.py: which key it stops at.
use native.Mathlib.Nat.{mul-le-mul_left, div-add-mod, mod-lt}
use native.Mathlib.Decide.{dec_le, ℕ_discrete}
use firecrawl_manger.Prelude.{
  ℕ, zero, suc, ◌+◌, ◌*◌, ◌/◌, ◌%◌, ◌≤◌, ◌<◌, ◌≡◌, ◌≢◌, refl, ◌∙◌, ◌⊎◌, inl, inr, some, List,
  length, get_elem?, set, length-set, get_elem?-set_self, get_elem?-set_ne, arith,
}
use firecrawl_manger.Errors.{Result, ok}
use firecrawl_manger.Models.{ApiKey}
use firecrawl_manger.KeyPool.{Env, Visit, available, skip_disabled, skip_quota, skip_cooling, visit}
use firecrawl_manger.KeyPool.Select.{
  Tally, Ending, chosen, exhausted, scan, next_round, count_visit,
}

-- The row that the loop looks at in the round `p`.
abbrev pub row : List ApiKey → ℕ → ℕ → ℕ
row keys start p = (start + p) % length keys

-- In the round `p` the loop passes the key that stands there over, with a verdict.
pub record SkipsAt (env : Env) (keys : List ApiKey) (start p : ℕ) (verdict : Visit) : Type 0 where
  pub key : ApiKey
  pub here : get_elem? keys (row keys start p) ≡ some key
  pub visited : (visit env key).0 ≡ ok verdict
  pub skips : verdict ≢ available

-- The round `o` is the first in which the loop meets a key that is available, `key`.
pub record FirstAt (env : Env) (keys : List ApiKey) (start o : ℕ) (key : ApiKey) : Type 0 where
  pub in_range : o < length keys
  pub here : get_elem? keys (row keys start o) ≡ some key
  pub ready : (visit env key).0 ≡ ok available
  pub earlier : (p : ℕ) → p < o → (w : Visit) × SkipsAt env keys start p w

-- Different rounds look at different rows.
rows_differ : (n start p q : ℕ) → p < q → q < n → (start + p) % n ≢ (start + q) % n
rows_differ n start p q h k e =
    absurd (omega (arith, div-add-mod (start + p) n, div-add-mod (start + q) n, apart (dec_le b a)))
  where
    a : ℕ
    a = (start + p) / n

    b : ℕ
    b = (start + q) / n

    apart : Dec (b ≤ a) → (n * b ≤ n * a) ⊎ (n * a + n ≤ n * b)
    apart (yes le) = inl (mul-le-mul_left n le)
    apart (no gt) = inr (omega (arith, mul-le-mul_left {m = suc a} {n = b} n (omega arith)))

skips_after_set :
    (env : Env) (keys : List ApiKey) (start q p : ℕ) (w : Visit) (k : ApiKey)
    → q < p
    → p < length keys
    → SkipsAt env keys start p w
    → SkipsAt env (set keys (row keys start q) k) start p w
skips_after_set env keys start q p w k h l s = record {
  key = s.key;
  here = rw length-set (
      get_elem?-set_ne keys (row keys start q) (row keys start p) k
        (rows_differ (length keys) start q p h l)
      ∙ s.here);
  visited = s.visited;
  skips = s.skips;
}

-- Where a loop that was handed `keys` ended with the key of the round `o`.
pub record Found (env : Env) (keys : List ApiKey) (start o : ℕ) (key : ApiKey)
    (r : Ending × List ApiKey) : Type 0 where
  pub ended : r.0 ≡ chosen (row keys start o)
  pub written : get_elem? r.1 (row keys start o) ≡ some (visit env key).1
  pub size : length r.1 ≡ length keys

Found-after_set :
    (env : Env) (keys : List ApiKey) (start o i : ℕ) (key k : ApiKey) (r : Ending × List ApiKey)
    → Found env (set keys i k) start o key r
    → Found env keys start o key r
Found-after_set env keys start o i key k r f = record {
  ended = rw (← length-set keys i k) f.ended;
  written = rw (← length-set keys i k) f.written;
  size = f.size ∙ length-set keys i k;
}

-- A round that passes its key over counts it, and leaves the outcome to the later rounds.
next_round_skips :
    (env : Env) (idx : ℕ) (tally : Tally) (v : Visit) (rest : Tally → Ending × List ApiKey)
    (keys : List ApiKey)
    → v ≢ available
    → next_round env idx tally (ok v) rest keys ≡ rest (count_visit env v tally)
next_round_skips env idx tally skip_disabled rest keys s = refl
next_round_skips env idx tally skip_quota rest keys s = refl
next_round_skips env idx tally available rest keys s = absurd (s refl)
next_round_skips env idx tally (skip_cooling r) rest keys s = refl

-- One round, at a key that is there.
pub scan_step :
    (env : Env) (rounds start offset : ℕ) (tally : Tally) (keys : List ApiKey) (key : ApiKey)
    (v : Result Visit)
    → get_elem? keys (row keys start offset) ≡ some key
    → (visit env key).0 ≡ v
    → let keys' = set keys (row keys start offset) (visit env key).1 in
      scan env (suc rounds) start offset tally keys
      ≡ next_round env
          (row keys start offset)
          tally
          v
          (λ t. scan env rounds start (offset + 1) t keys')
          keys'
unfolding scan
scan_step env rounds start offset tally keys key v here e = rw (here, e, scan)

pub scan_finds :
    (env : Env) (rounds start offset o : ℕ) (tally : Tally) (keys : List ApiKey) (key : ApiKey)
    → offset ≤ o
    → o < offset + rounds
    → o < length keys
    → get_elem? keys (row keys start o) ≡ some key
    → (visit env key).0 ≡ ok available
    → ((p : ℕ) → offset ≤ p → p < o → (w : Visit) × SkipsAt env keys start p w)
    → Found env keys start o key (scan env rounds start offset tally keys)
scan_finds env zero start offset o tally keys key h l n here ready skips = absurd (omega arith)
scan_finds env (suc rounds) start offset o tally keys key h l n here ready skips =
    elim (ℕ_discrete offset o) [
      | yes e ↦
          rw (e, scan_step env rounds start o tally keys key (ok available) here ready)
            (record {
              ended = refl;
              written =
                  get_elem?-set_self keys (row keys start o) (visit env key).1
                    (mod-lt (start + o) (omega arith));
              size = length-set keys _ _;
            })
      | no ne ↦
          let (w, s) = skips offset (omega arith) (omega arith) in
          rw (scan_step env rounds start offset tally keys s.key (ok w) s.here s.visited) (
            rw (next_round_skips env _ tally w _ _ s.skips) (
              Found-after_set env keys start o (row keys start offset) key (visit env s.key).1 _ (
                scan_finds env rounds start (offset + 1) o (count_visit env w tally)
                  (set keys (row keys start offset) (visit env s.key).1) key (omega arith)
                  (omega arith) (rw length-set n)
                  (rw length-set (
                    get_elem?-set_ne keys _ _ _
                      (rows_differ (length keys) start offset o (omega arith) n)
                    ∙ here))
                  ready
                  (λ p low high.
                    let (wp, sp) = skips p (omega arith) high in
                    (
                      wp,
                      skips_after_set env keys start offset p wp _ (omega arith) (omega arith) sp,
                    )))))
    ]

-- The counters after the rounds from `offset` on, where `v` are the verdicts.
unfoldable pub tally_of : Env → (ℕ → Visit) → ℕ → ℕ → Tally → Tally
tally_of env v zero offset tally = tally
tally_of env v (suc rounds) offset tally =
    tally_of env v rounds (offset + 1) (count_visit env (v offset) tally)

-- Every key is passed over: the loop ends with nothing chosen and every verdict counted once.
pub scan_exhausts :
    (env : Env) (v : ℕ → Visit) (rounds start offset : ℕ) (tally : Tally) (keys : List ApiKey)
    → offset + rounds ≤ length keys
    → ((p : ℕ) → offset ≤ p → p < offset + rounds → SkipsAt env keys start p (v p))
    → let (ending, keys') = scan env rounds start offset tally keys in
      (ending ≡ exhausted (tally_of env v rounds offset tally)) × (length keys' ≡ length keys)
unfolding scan tally_of
scan_exhausts env v zero start offset tally keys n skips = (refl, refl)
scan_exhausts env v (suc rounds) start offset tally keys n skips =
    let s : SkipsAt env keys start offset (v offset) = skips offset (omega arith) (omega arith) in
    let k : ApiKey = (visit env s.key).1 in
    let keys' : List ApiKey = set keys (row keys start offset) k in
    let (ended, size) =
      scan_exhausts env v rounds start (offset + 1) (count_visit env (v offset) tally) keys'
        (rw length-set (omega arith))
        (λ p low high.
          skips_after_set env keys start offset p (v p) k (omega arith) (omega arith)
            (skips p (omega arith) (omega arith))) in
    rw
      (
        scan_step env rounds start offset tally keys s.key (ok (v offset)) s.here s.visited,
        next_round_skips env (row keys start offset) tally (v offset)
            (λ t. scan env rounds start (offset + 1) t keys') keys' s.skips,
      )
      (ended, size ∙ length-set keys (row keys start offset) k)
