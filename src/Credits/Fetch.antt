-- ===== src/Credits/Fetch.antt =====
-- app/core/credit_fetcher.py: `fetch_credit_from_firecrawl` in a database session. The decryption, the
-- clock, the upstream and the commits are arguments.
use firecrawl_manger.Prelude.{
  ℕ, Bool, true, false, ◌&&◌, ◌||◌, Option, some, List, [], ◌∷◌, ◌++◌, ◌==◌, nat_equality,
  if◌then◌else◌,
}
use firecrawl_manger.Errors.{
  FcamError, error, database_unavailable, decryption_failed, timeout, upstream_error,
  invalid_api_key, rate_limited,
}
use firecrawl_manger.Models.{ApiKey, Status, decrypt_failed, failed, cooling}
use firecrawl_manger.Forwarder.{set_key}
use firecrawl_manger.Credits.{CreditMonitoring, CreditSnapshot, calculate_next_refresh_time}

-- The tables. `checks` has the columns `last_credit_snapshot_id` and `last_credit_check_at` of a key.
pub record Tables : Type 0 where
  pub keys : List ApiKey
  pub snapshots : List CreditSnapshot
  pub checks : ℕ → Option (ℕ × ℕ)

-- A session: what it sees, and what was last committed.
pub record DbSession : Type 0 where
  pub rows : Tables
  pub committed : Tables

-- `db.commit()`, or `db.rollback()` after it failed.
abbrev pub save : Bool → Tables → DbSession → DbSession
save true new s = record { rows = new; committed = new }
save false new s = record { rows = s.committed; committed = s.committed }

-- What `response.json()` is: credits are those of its `data`.
pub data CreditBody : Type 0 where
  not_json not_an_object unsuccessful not_numbers : CreditBody
  credits : ℕ → ℕ → CreditBody

pub data CreditReply : Type 0 where
  timed_out unreachable : CreditReply
  response : ℕ → CreditBody → CreditReply

-- What a call meets: `now` is the time of the request, `later` that of the next refresh time;
-- `refresh_ok` is whether the new snapshot can be read again after its commit.
pub record CreditCall : Type 0 where
  pub decrypted : Bool
  pub now : ℕ
  pub later : ℕ
  pub reply : CreditReply
  pub new_id : ℕ
  pub commit_ok : Bool
  pub refresh_ok : Bool

-- A snapshot, an `FcamError`, or another exception that the caller gets.
pub data Fetched : Type 0 where
  returns : CreditSnapshot → Fetched
  raises : FcamError → Fetched
  unexpected : Fetched

abbrev pub snapshot_of : CreditCall → ApiKey → Bool → ℕ → ℕ → CreditSnapshot
snapshot_of f key success remaining plan = record {
  id = f.new_id;
  api_key_id = key.id;
  remaining_credits = remaining;
  plan_credits = plan;
  fetch_success = success;
  snapshot_at = f.now;
}

-- A snapshot of a call that failed is added, the key is written, and the error is raised.
abbrev pub fail : CreditCall → ApiKey → FcamError → DbSession → Fetched × DbSession
fail f key e s = (
  raises e,
  save f.commit_ok
      (record s.rows {
        keys = set_key key s.rows.keys;
        snapshots = s.rows.snapshots ++ snapshot_of f key false 0 0 ∷ [];
      })
      s,
)

abbrev pub with_credits : CreditMonitoring → (ℕ → ℕ) → CreditCall → ApiKey → ℕ → ℕ → ApiKey
with_credits c next_month f key remaining plan = record key {
  cached_remaining_credits = some remaining;
  cached_plan_credits = some plan;
  next_refresh_at =
      some (calculate_next_refresh_time c next_month f.later (some remaining) (some plan));
}

abbrev pub note_check : ℕ → ℕ × ℕ → (ℕ → Option (ℕ × ℕ)) → ℕ → Option (ℕ × ℕ)
note_check id check checks k = if k == id then some check else checks k

-- The credits are written. `db.refresh(snapshot)` comes after the commit, which its failure does not
-- take back.
abbrev pub store_credits :
    CreditMonitoring → (ℕ → ℕ) → CreditCall → ApiKey → ℕ → ℕ → DbSession → Fetched × DbSession
store_credits c next_month f key remaining plan s = (
  (if f.commit_ok && f.refresh_ok
      then returns (snapshot_of f key true remaining plan)
      else raises database_unavailable),
  save f.commit_ok
      (record {
        keys = set_key (with_credits c next_month f key remaining plan) s.rows.keys;
        snapshots = s.rows.snapshots ++ snapshot_of f key true remaining plan ∷ [];
        checks = note_check key.id (f.new_id, f.now) s.rows.checks;
      })
      s,
)

-- The answer 200.
abbrev pub on_body :
    CreditMonitoring → (ℕ → ℕ) → CreditCall → ApiKey → CreditBody → DbSession → Fetched × DbSession
on_body c next_month f key not_json s =
    fail f key (error 502 upstream_error "Invalid upstream JSON") s
on_body c next_month f key not_an_object s = (unexpected, s)
on_body c next_month f key unsuccessful s =
    fail f key (error 502 upstream_error "Firecrawl credit usage failed") s
on_body c next_month f key not_numbers s = (unexpected, s)
on_body c next_month f key (credits remaining plan) s =
    store_credits c next_month f key remaining plan s

abbrev pub off : Status → ApiKey → ApiKey
off status key = record key { status = status; is_active = false }

-- The message of the last error also has the code.
abbrev pub on_reply :
    CreditMonitoring → (ℕ → ℕ) → CreditCall → ApiKey → CreditReply → DbSession → Fetched × DbSession
on_reply c next_month f key timed_out s =
    fail f key (error 504 timeout "Firecrawl API request timeout") s
on_reply c next_month f key unreachable s = (unexpected, s)
on_reply c next_month f key (response code body) s =
    if code == 200
    then on_body c next_month f key body s
    else if code == 401 || code == 403
    then fail f (off failed key) (error code invalid_api_key "API key is invalid or unauthorized") s
    else if code == 429
    then fail f (record key { status = cooling; cooldown_until = some f.now })
        (error 429 rate_limited "Firecrawl API rate limited") s
    else fail f key (error code upstream_error "Firecrawl API error") s

-- `fetch_credit_from_firecrawl`
unfoldable pub fetch_credit_from_firecrawl :
    CreditMonitoring → (ℕ → ℕ) → CreditCall → ApiKey → DbSession → Fetched × DbSession
fetch_credit_from_firecrawl c next_month f key s =
    if f.decrypted
    then on_reply c next_month f key f.reply s
    else fail f (off decrypt_failed key) (error 500 decryption_failed "Failed to decrypt API key") s
