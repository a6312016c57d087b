-- ===== src/Forwarder/KeyTest/Laws.antt =====
-- What a test of a key in app/core/forwarder.py comes to.
use firecrawl_manger.Prelude.{
  ℕ, ◌≡◌, ◌↔◌, refl, true, false, none, some, inl, inr, arith, Bool-cases, leb, ◌==◌, ◌||◌,
  nat_equality, ap,
}
use firecrawl_manger.Errors.{ok}
use firecrawl_manger.Models.{ApiKey, active}
use firecrawl_manger.KeyPool.{Env, available, is_disabled, visit}
use firecrawl_manger.KeyPool.Verdict.{HasQuota, visit_available_iff}
use firecrawl_manger.Forwarder.{Settings, Try, World, Response, mark_active, set_key}
use firecrawl_manger.Forwarder.Pinned.{session_key}
use firecrawl_manger.Forwarder.Keys.{find_key, find_key-set_key}
use firecrawl_manger.Forwarder.KeyTest.{conclude, conclude_exa, is_success}

-- The two providers judge an answer alike: the tests that `_test_key_exa` makes one after the other
-- come to the same as the cases of `test_key`, for a key that is the session's.
pub conclude_exa-conclude :
    (s : Settings) (t : Try) (key : ApiKey) (resp : Response) (w : World)
    → session_key key w ≡ key
    → conclude_exa s t key resp w ≡ conclude s t key resp w
unfolding conclude_exa conclude
conclude_exa-conclude s t key resp w same = elim (Bool-cases (is_success resp.status_code)) [
  | inl success ↦ rw success refl
  | inr e0 ↦ elim (Bool-cases (resp.status_code == 429)) [
    | inl limited ↦
        rw (e0, limited, other_429 resp.status_code limited, below_429 resp.status_code limited)
          refl
    | inr e1 ↦ elim (Bool-cases (resp.status_code == 401 || resp.status_code == 403)) [
      | inl off ↦ rw (e0, e1, off, same, below_401 resp.status_code off) refl
      | inr e2 ↦ elim (Bool-cases (leb 500 resp.status_code)) [
        | inl broken ↦ rw (e0, e1, e2, broken, same) refl
        | inr e3 ↦ rw (e0, e1, e2, e3) refl
      ]
    ]
  ]
]
  where
    other_429 : (n : ℕ) → (n == 429) ≡ true → (n == 401 || n == 403) ≡ false
    other_429 n h = ground arith

    below_429 : (n : ℕ) → (n == 429) ≡ true → leb 500 n ≡ false
    below_429 n h = ground arith

    below_401 : (n : ℕ) → (n == 401 || n == 403) ≡ true → leb 500 n ≡ false
    below_401 n h = ground arith

session_key-found :
    (key row : ApiKey) (w : World) → find_key key.id w.keys ≡ some row → session_key key w ≡ row
session_key-found key row w e = rw (session_key, e) refl

enabled : (key : ApiKey) → is_disabled key ≡ false → key.is_active ≡ true
unfolding is_disabled
enabled key h = ground arith

-- A test that is answered by a 2xx, and whose commit goes through, puts a key that is not disabled
-- back to work: whatever it was, it is active, its cooldown is gone, and it is selected whenever its
-- quota leaves room.
pub conclude-visit :
    (s : Settings) (t : Try) (key row : ApiKey) (resp : Response) (w : World) (env : Env)
    → is_success resp.status_code ≡ true
    → is_disabled key ≡ false
    → t.commit_ok ≡ true
    → find_key key.id w.keys ≡ some row
    → let (result, w') = conclude s t key resp w in
      (result.passed ≡ true)
      × (result.observed_status ≡ active)
      × ((revived : ApiKey) × (find_key key.id w'.keys ≡ some revived)
          × (revived.is_active ≡ true)
          × (revived.status ≡ active)
          × (revived.cooldown_until ≡ none)
          × (((visit env revived).0 ≡ ok available) ↔ HasQuota env revived))
unfolding conclude mark_active is_disabled
conclude-visit s t key row resp w env success live done here =
    let revived : ApiKey = record key { status = active; cooldown_until = none } in
    let back = find_key-set_key key.id revived row w.keys refl here in
    rw (success, live, done)
      (
        refl,
        ap (λ k. k.status)
            (session_key-found key revived (record w { keys = set_key revived w.keys }) back),
        (
          revived,
          back,
          enabled key live,
          refl,
          refl,
          (
            λ h. ((visit_available_iff env revived).0 h).3,
            λ room.
                (visit_available_iff env revived).1 (
                  enabled key live,
                  λ e. ground arith,
                  (λ e. ground arith, λ e. ground arith),
                  room,
                ),
          ),
        ),
      )
