-- ===== src/ControlPlane/Logs.antt =====
-- app/api/control_plane.py, `query_logs`: the pages of the request logs. The conditions on the columns
-- that hold texts and times, and the join with the keys, are left to the database.
pub mod Pages
use firecrawl_manger.Prelude.{
  ℕ, ◌+◌, Bool, true, false, not, ◌&&◌, ◌||◌, Option, none, some, List, [], ◌∷◌, filter, take,
  length, ltb, leb, ◌==◌, nat_equality, if◌then◌else◌,
}
use firecrawl_manger.Prelude.Int.{ℤ, pos, negsuc}
use firecrawl_manger.Errors.{Result, ok, err, error, validation_error}
use firecrawl_manger.Models.{RequestLog}
use firecrawl_manger.KeyPool.{option_beq}

-- `_limit`
unfoldable pub check_limit : ℤ → Result ℕ
check_limit (negsuc n) = err (error 400 validation_error "limit must be positive")
check_limit (pos limit) =
    if limit == 0
    then err (error 400 validation_error "limit must be positive")
    else if ltb 200 limit
    then err (error 400 validation_error "limit too large")
    else ok limit

pub data Level : Type 0 where
  info warn error_level : Level

-- `_request_log_level`
unfoldable pub request_log_level : Option ℕ → Option Bool → Level
request_log_level none success = error_level
request_log_level (some status_code) success =
    if is_true success && ltb status_code 400
    then info
    else if leb 400 status_code && ltb status_code 500
    then warn
    else error_level
  where
    is_true : Option Bool → Bool
    is_true (some true) = true
    is_true _ = false

-- `success IS TRUE`, and `coalesce(success, FALSE) IS FALSE`.
abbrev pub holds : Option Bool → Bool
holds (some true) = true
holds _ = false

-- The condition of the query on the level.
unfoldable pub has_level : Level → RequestLog → Bool
has_level level log = by_status level log.status_code
  where
    by_status : Level → Option ℕ → Bool
    by_status info none = false
    by_status warn none = false
    by_status error_level none = true
    by_status info (some status_code) = ltb status_code 400 && holds log.success
    by_status warn (some status_code) = leb 400 status_code && ltb status_code 500
    by_status error_level (some status_code) =
        leb 500 status_code || (ltb status_code 400 && not (holds log.success))

-- What a page is asked for, less the limit and the cursor.
pub record LogQuery : Type 0 where
  pub client_id : Option ℕ
  pub api_key_id : Option ℕ
  pub status_code : Option ℕ
  pub success : Option Bool
  pub level : Option Level
  pub other : RequestLog → Bool

abbrev pub is_asked {ℓ} : {A : Type ℓ} → Option A → (A → Bool) → Bool
is_asked none test = true
is_asked (some a) test = test a

abbrev bool_beq : Bool → Bool → Bool
bool_beq true b = b
bool_beq false b = not b

abbrev same_success : Bool → Option Bool → Bool
same_success b none = false
same_success b (some c) = bool_beq b c

unfoldable pub matches : LogQuery → RequestLog → Bool
unfolding has_level
matches q log =
    is_asked q.client_id (λ id. option_beq log.client_id (some id))
    && is_asked q.api_key_id (λ id. option_beq log.api_key_id (some id))
    && is_asked q.status_code (λ code. option_beq log.status_code (some code))
    && is_asked q.success (λ success. same_success success log.success)
    && is_asked q.level (λ level. has_level level log)
    && q.other log

-- `RequestLog.id < cursor`
abbrev pub is_before : Option ℕ → RequestLog → Bool
is_before none log = true
is_before (some cursor) log = ltb log.id cursor

pub record Page : Type 0 where
  pub items : List RequestLog
  pub next_cursor : Option ℕ
  pub has_more : Bool

-- `items[-1]["id"]`
unfoldable pub last_id : List RequestLog → Option ℕ
last_id [] = none
last_id (log ∷ []) = some log.id
last_id (log ∷ next ∷ logs) = last_id (next ∷ logs)

-- The page of the rows that were found, newest first.
unfoldable pub page_of : ℕ → List RequestLog → Page
unfolding last_id
page_of limit found =
    let rows : List RequestLog = take (limit + 1) found in
    let has_more : Bool = ltb limit (length rows) in
    let items : List RequestLog = take limit rows in
    record {
      items = items;
      next_cursor = if has_more then last_id items else none;
      has_more = has_more;
    }

-- `query_logs`; `table` holds the rows in the order of `ORDER BY id DESC`.
unfoldable pub query_logs : ℤ → Option ℕ → LogQuery → List RequestLog → Result Page
unfolding check_limit page_of matches
query_logs limit cursor q table = elim (check_limit limit) [
  | err e ↦ err e
  | ok n ↦ ok (page_of n (filter (is_before cursor) (filter (matches q) table)))
]
