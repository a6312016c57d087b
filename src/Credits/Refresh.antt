-- ===== src/Credits/Refresh.antt =====
-- app/core/credit_refresh.py: `_refresh_once`, a pass over the keys that are due. The pauses between
-- batches are left out.
use firecrawl_manger.Prelude.{
  ℕ, zero, suc, ◌+◌, Bool, none, some, List, [], ◌∷◌, map, take, drop, length, max, ◌==◌,
  nat_equality, if◌then◌else◌,
}
use firecrawl_manger.Prelude.Int.{ℤ, pos, negsuc}
use firecrawl_manger.Models.{ApiKey}
use firecrawl_manger.Forwarder.Keys.{find_key}
use firecrawl_manger.Credits.{
  CreditMonitoring, minutes, calculate_next_refresh_time, due_keys, cleanup_old_snapshots,
}
use firecrawl_manger.Credits.Fetch.{
  CreditCall, DbSession, Fetched, returns, raises, unexpected, save, fetch_credit_from_firecrawl,
}

-- What a pass meets: its time, the call for each key, the time at which its next refresh time is
-- computed again, whether its row can be read again (`db.refresh(key)`), and whether the commit of a batch and that of the cleaning go through.
pub record Pass : Type 0 where
  pub now : ℕ
  pub call : ℕ → CreditCall
  pub again : ℕ → ℕ
  pub rereads : ℕ → Bool
  pub commits : ℕ → Bool
  pub cleanup_at : ℕ
  pub cleans : Bool

-- `max(int(…), 1)`
abbrev pub at_least_1 : ℤ → ℕ
at_least_1 (pos n) = max n 1
at_least_1 (negsuc n) = 1

-- A row is changed.
abbrev pub update_row : ℕ → (ApiKey → ApiKey) → DbSession → DbSession
update_row id change s = record s {
  rows = record s.rows { keys = map (λ k. if k.id == id then change k else k) s.rows.keys };
}

abbrev pub refreshed : CreditMonitoring → (ℕ → ℕ) → ℕ → ApiKey → ApiKey
refreshed c next_month now key = record key {
  next_refresh_at = some (
      calculate_next_refresh_time c next_month now key.cached_remaining_credits
        key.cached_plan_credits);
}

abbrev pub delayed : CreditMonitoring → ℕ → ApiKey → ApiKey
delayed c now key = record key {
  next_refresh_at = some (now + minutes (at_least_1 c.retry_delay_minutes));
}

abbrev pub after_fetch : CreditMonitoring → (ℕ → ℕ) → Pass → ℕ → Fetched × DbSession → DbSession
after_fetch c next_month p id (returns snapshot, s) =
    update_row id (if p.rereads id then refreshed c next_month (p.again id) else delayed c p.now) s
after_fetch c next_month p id (raises e, s) = update_row id (delayed c p.now) s
after_fetch c next_month p id (unexpected, s) = update_row id (delayed c p.now) s

-- The body of the loop over a batch.
unfoldable pub refresh_key : CreditMonitoring → (ℕ → ℕ) → Pass → ℕ → DbSession → DbSession
refresh_key c next_month p id s = elim (find_key id s.rows.keys) [
  | none ↦ s
  | some key ↦
      after_fetch c next_month p id (fetch_credit_from_firecrawl c next_month (p.call id) key s)
]

unfoldable pub refresh_keys : CreditMonitoring → (ℕ → ℕ) → Pass → List ℕ → DbSession → DbSession
refresh_keys c next_month p [] s = s
refresh_keys c next_month p (id ∷ ids) s =
    refresh_keys c next_month p ids (refresh_key c next_month p id s)

abbrev pub commit_batch : Bool → DbSession → DbSession
commit_batch commit_ok s = save commit_ok s.rows s

-- The loop over the batches, from batch `i` on; one round more than there are keys is enough.
unfoldable pub refresh_batches :
    CreditMonitoring → (ℕ → ℕ) → Pass → ℕ → ℕ → List ℕ → DbSession → DbSession
refresh_batches c next_month p zero i ids s = s
refresh_batches c next_month p (suc rounds) i [] s = s
refresh_batches c next_month p (suc rounds) i (id ∷ ids) s =
    let size = at_least_1 c.batch_size in
    let batch = take size (id ∷ ids) in
    refresh_batches c next_month p rounds (i + 1) (drop size (id ∷ ids))
      (commit_batch (p.commits i) (refresh_keys c next_month p batch s))

abbrev pub clean : CreditMonitoring → Pass → DbSession → DbSession
clean c p s =
    save p.cleans
      (record s.rows { snapshots = cleanup_old_snapshots c p.cleanup_at p.cleans s.rows.snapshots })
      s

abbrev pub due_ids : ℕ → List ApiKey → List ℕ
due_ids now keys = map (λ k. k.id) (due_keys now keys)

-- What `_refresh_once` does with the ids of the keys that are due.
abbrev pub refresh_due : CreditMonitoring → (ℕ → ℕ) → Pass → List ℕ → DbSession → DbSession
refresh_due c next_month p [] s = s
refresh_due c next_month p (id ∷ ids) s =
    clean c p (refresh_batches c next_month p (length (id ∷ ids)) 0 (id ∷ ids) s)

-- `_refresh_once`
unfoldable pub refresh_once : CreditMonitoring → (ℕ → ℕ) → Pass → DbSession → DbSession
refresh_once c next_month p s = refresh_due c next_month p (due_ids p.now s.rows.keys) s
