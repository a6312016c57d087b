-- ===== src/Credits/Passes.antt =====
-- What a pass of app/core/credit_refresh.py leaves to be done.
use firecrawl_manger.Prelude.{
  Option-cases, ℕ, zero, suc, ◌+◌, ◌-◌, ◌≤◌, ◌<◌, ◌≡◌, refl, sym, subst, ap, Bool, true, false,
  ◌||◌, none, some, List, [], ◌∷◌, ◌++◌, arith, inl, inr, Bool-cases, take, drop, take-append-drop,
  length, ◌==◌, nat_equality, if◌then◌else◌,
}
use firecrawl_manger.Prelude.Int.{ℤ, pos, negsuc}
use firecrawl_manger.ControlPlane.Effects.{find_key-id}
use firecrawl_manger.Models.{ApiKey, failed, decrypt_failed, cooling}
use firecrawl_manger.Errors.{database_unavailable}
use firecrawl_manger.Forwarder.Keys.{find_key}
use firecrawl_manger.Credits.{CreditMonitoring, due_keys}
use firecrawl_manger.Credits.Laws.{IsOrdered, next_positive}
use firecrawl_manger.Credits.Fetch.{
  CreditCall, Tables, DbSession, Fetched, CreditReply, CreditBody, timed_out, unreachable, response,
  not_json, not_an_object, unsuccessful, not_numbers, credits, unexpected, save, fail,
  store_credits, with_credits, off, on_body, on_reply, fetch_credit_from_firecrawl,
}
use firecrawl_manger.Credits.Refresh.{
  Pass, at_least_1, refreshed, delayed, after_fetch, refresh_key, refresh_keys, refresh_batches,
  refresh_once, refresh_due, due_ids, commit_batch,
}
use firecrawl_manger.Credits.Settled.{
  is_wanted, Settled, settle_map, settle_twice, due_ids-Settled, Settled-due_keys,
}

length-drop {ℓ} : {A : Type ℓ} (n : ℕ) (xs : List A) → length (drop n xs) ≡ length xs - n
length-drop zero xs = omega arith
length-drop (suc n) [] = omega arith
length-drop (suc n) (x ∷ xs) = omega (arith, length-drop n xs)

at_least_1-pos : (z : ℤ) → 1 ≤ at_least_1 z
at_least_1-pos (pos n) = omega arith
at_least_1-pos (negsuc n) = omega arith

save-keys :
    (done : Bool) (new : Tables) (s : DbSession)
    → new.keys ≡ s.rows.keys
    → s.committed ≡ s.rows
    → (save done new s).committed.keys ≡ s.rows.keys
save-keys true new s same saved = same
save-keys false new s same saved = ap (λ t. t.keys) saved

module _ (c : CreditMonitoring) (next_month : ℕ → ℕ) (p : Pass) (ordered : IsOrdered c)
    (month : (t : ℕ) → t < next_month t) (later : (id : ℕ) → p.now ≤ p.again id) where
  delayed_later : (k : ApiKey) → is_wanted p.now (delayed c p.now k) ≡ false
  delayed_later k = ground arith

  refreshed_later :
      (k : ApiKey) (id remaining plan : ℕ)
      → k.cached_remaining_credits ≡ some remaining
      → k.cached_plan_credits ≡ some plan
      → is_wanted p.now (refreshed c next_month (p.again id) k) ≡ false
  refreshed_later k id remaining plan has_remaining has_plan =
      let next = next_positive c next_month (p.again id) remaining plan ordered (month _) in
      let from = later id in rw (has_remaining, has_plan) (ground arith)

  module _ (id : ℕ) (todo : List ℕ) (f : CreditCall) (key : ApiKey) (s : DbSession)
      (same : key.id ≡ id) (done : f.commit_ok ≡ true)
      (settled : Settled p.now (id ∷ todo) s.rows.keys) where
    -- What a call leaves to be done, once its row has its next time.
    abbrev Leaves : Fetched × DbSession → Type 0
    Leaves r = Settled p.now todo (after_fetch c next_month p id r).rows.keys

    fail-Leaves : (key' : ApiKey) → key'.id ≡ id → Leaves (fail f key' database_unavailable s)
    fail-Leaves key' same' = rw done (
        settle_twice p.now id todo (delayed c p.now) key' s.rows.keys same' (delayed_later key')
          settled)

    unexpected-Leaves : Leaves (unexpected, s)
    unexpected-Leaves =
        settle_map p.now id todo (λ k. if k.id == id then delayed c p.now k else k) s.rows.keys
          (λ k own. rw own (delayed_later k)) (λ k other. rw other refl) settled

    -- The change of the row after a snapshot was returned.
    next_time : Bool → ApiKey → ApiKey
    next_time reread = if reread then refreshed c next_month (p.again id) else delayed c p.now

    next_time_later :
        (reread : Bool) (remaining plan : ℕ)
        → is_wanted p.now (next_time reread (with_credits c next_month f key remaining plan))
          ≡ false
    unfolding next_time
    next_time_later true remaining plan =
        refreshed_later (with_credits c next_month f key remaining plan) id remaining plan refl refl
    next_time_later false remaining plan =
        delayed_later (with_credits c next_month f key remaining plan)

    store-Leaves : (remaining plan : ℕ) → Leaves (store_credits c next_month f key remaining plan s)
    unfolding next_time
    store-Leaves remaining plan = elim (Bool-cases f.refresh_ok) [
      | inl reread ↦
          rw (done, reread)
            (settle_twice p.now id todo (next_time (p.rereads id))
              (with_credits c next_month f key remaining plan) s.rows.keys same
              (next_time_later (p.rereads id) remaining plan) settled)
      | inr unread ↦
          rw (done, unread)
            (settle_twice p.now id todo (delayed c p.now)
              (with_credits c next_month f key remaining plan) s.rows.keys same
              (delayed_later (with_credits c next_month f key remaining plan)) settled)
    ]

    on_body-Leaves : (body : CreditBody) → Leaves (on_body c next_month f key body s)
    on_body-Leaves not_json = fail-Leaves key same
    on_body-Leaves not_an_object = unexpected-Leaves
    on_body-Leaves unsuccessful = fail-Leaves key same
    on_body-Leaves not_numbers = unexpected-Leaves
    on_body-Leaves (credits remaining plan) = store-Leaves remaining plan

    on_reply-Leaves : (reply : CreditReply) → Leaves (on_reply c next_month f key reply s)
    on_reply-Leaves timed_out = fail-Leaves key same
    on_reply-Leaves unreachable = unexpected-Leaves
    on_reply-Leaves (response code body) = elim (Bool-cases (code == 200)) [
      | inl success ↦ rw success (on_body-Leaves body)
      | inr e0 ↦ elim (Bool-cases (code == 401 || code == 403)) [
        | inl refused ↦ rw (e0, refused) (fail-Leaves (off failed key) same)
        | inr e1 ↦ elim (Bool-cases (code == 429)) [
          | inl limited ↦
              rw (e0, e1, limited)
                (fail-Leaves (record key { status = cooling; cooldown_until = some f.now }) same)
          | inr e2 ↦ rw (e0, e1, e2) (fail-Leaves key same)
        ]
      ]
    ]

    fetch-Leaves : Leaves (fetch_credit_from_firecrawl c next_month f key s)
    unfolding fetch_credit_from_firecrawl
    fetch-Leaves = elim (Bool-cases f.decrypted) [
      | inl readable ↦ rw readable (on_reply-Leaves f.reply)
      | inr unreadable ↦ rw unreadable (fail-Leaves (off decrypt_failed key) same)
    ]

  find_key-none :
      (id : ℕ) (todo : List ℕ) (keys : List ApiKey)
      → find_key id keys ≡ none
      → Settled p.now (id ∷ todo) keys
      → Settled p.now todo keys
  find_key-none id todo [] h s = tt
  find_key-none id todo (k ∷ keys) h s = elim (Bool-cases (k.id == id)) [
    | inl own ↦ absurd (ground arith)
    | inr other ↦
        ((λ wanted. rw other at (s.0 wanted)), find_key-none id todo keys (rw other at h) s.1)
  ]

  module _ (calls_commit : (id : ℕ) → (p.call id).commit_ok ≡ true) where
    refresh_key-Settled :
        (id : ℕ) (todo : List ℕ) (s : DbSession)
        → Settled p.now (id ∷ todo) s.rows.keys
        → Settled p.now todo (refresh_key c next_month p id s).rows.keys
    unfolding refresh_key
    refresh_key-Settled id todo s h = elim (Option-cases (find_key id s.rows.keys)) [
      | inl gone ↦ rw (gone, refresh_key) (find_key-none id todo s.rows.keys gone h)
      | inr (key, here) ↦
          rw (here, refresh_key)
            (fetch-Leaves id todo (p.call id) key s (find_key-id id key s.rows.keys here)
              (calls_commit id) h)
    ]

    refresh_keys-Settled :
        (ids todo : List ℕ) (s : DbSession)
        → Settled p.now (ids ++ todo) s.rows.keys
        → Settled p.now todo (refresh_keys c next_month p ids s).rows.keys
    unfolding refresh_keys
    refresh_keys-Settled [] todo s h = h
    refresh_keys-Settled (id ∷ ids) todo s h =
        refresh_keys-Settled ids todo (refresh_key c next_month p id s)
          (refresh_key-Settled id (ids ++ todo) s h)

    module _ (batches_commit : (i : ℕ) → p.commits i ≡ true) where
      refresh_batches-Settled :
          (rounds i : ℕ) (ids : List ℕ) (s : DbSession)
          → length ids ≤ rounds
          → Settled p.now ids s.rows.keys
          → Settled p.now [] (refresh_batches c next_month p rounds i ids s).rows.keys
      unfolding refresh_batches
      refresh_batches-Settled zero i [] s enough h = h
      refresh_batches-Settled zero i (id ∷ ids) s enough h = absurd (omega arith)
      refresh_batches-Settled (suc rounds) i [] s enough h = h
      refresh_batches-Settled (suc rounds) i (id ∷ ids) s enough h =
          let size = at_least_1 c.batch_size in
          let batch = take size (id ∷ ids) in
          let rest = drop size (id ∷ ids) in
          refresh_batches-Settled rounds (i + 1) rest
            (commit_batch (p.commits i) (refresh_keys c next_month p batch s))
            (omega (arith, length-drop size (id ∷ ids), at_least_1-pos c.batch_size))
            (rw (batches_commit i) (
              refresh_keys-Settled batch rest s (
                subst (λ l. Settled p.now l s.rows.keys) (sym (take-append-drop size (id ∷ ids)))
                  h)))

      refresh_batches_saved :
          (rounds i : ℕ) (ids : List ℕ) (s : DbSession)
          → s.committed ≡ s.rows
          → let s' = refresh_batches c next_month p rounds i ids s in s'.committed ≡ s'.rows
      unfolding refresh_batches
      refresh_batches_saved zero i ids s h = h
      refresh_batches_saved (suc rounds) i [] s h = h
      refresh_batches_saved (suc rounds) i (id ∷ ids) s h =
          refresh_batches_saved rounds (i + 1) _ _ (rw (batches_commit i) refl)

      refresh_due-Settled :
          (ids : List ℕ) (s : DbSession)
          → s.committed ≡ s.rows
          → Settled p.now ids s.rows.keys
          → Settled p.now [] (refresh_due c next_month p ids s).committed.keys
      refresh_due-Settled [] s saved h = rw saved h
      refresh_due-Settled (id ∷ ids) s saved h =
          let rounds = length (id ∷ ids) in
          subst (λ keys. Settled p.now [] keys)
            (sym (
              save-keys p.cleans _ (refresh_batches c next_month p rounds 0 (id ∷ ids) s) refl
                (refresh_batches_saved rounds 0 (id ∷ ids) s saved)))
            (refresh_batches-Settled rounds 0 (id ∷ ids) s (omega arith) h)

      -- After a pass in which the commits of the calls and of the batches go through, whatever the
      -- upstream answers, no key is due at the time of the pass, provided that the intervals are in
      -- order and the clock does not run backwards.
      pub refresh_once_settles :
          (s : DbSession)
          → s.committed ≡ s.rows
          → due_keys p.now (refresh_once c next_month p s).committed.keys ≡ []
      unfolding refresh_once
      refresh_once_settles s saved = Settled-due_keys p.now _ (
          refresh_due-Settled (due_ids p.now s.rows.keys) s saved
            (due_ids-Settled p.now s.rows.keys))
