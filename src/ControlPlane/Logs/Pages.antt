-- ===== src/ControlPlane/Logs/Pages.antt =====
-- The pages of `query_logs` of app/api/control_plane.py, and the levels that it shows and asks for.
use firecrawl_manger.Prelude.{
  ℕ, zero, suc, ◌+◌, ◌≤◌, ◌<◌, ◌≡◌, ◌↔◌, refl, ap, sym, ◌∙◌, Bool, true, false, Option, none, some,
  List, [], ◌∷◌, ◌++◌, arith, inl, inr, All, All-filter, filter, filter-All, filter_absorbs, take,
  drop, take-append-drop, length, ltb, lt→ltb, ge→ltb, Bool-cases, Option-cases, ◌==◌, nat_equality,
}
use firecrawl_manger.Prelude.Int.{pos}
use firecrawl_manger.Errors.{ok, err}
use firecrawl_manger.Models.{RequestLog}
use firecrawl_manger.ControlPlane.Logs.{
  Level, LogQuery, has_level, request_log_level, is_before, last_id, page_of, query_logs,
  check_limit, matches,
}

-- Newest first, with distinct ids.
abbrev pub IsDescending : List RequestLog → Type 0
IsDescending [] = Unit
IsDescending (log ∷ logs) = All (λ l. l.id < log.id) logs × IsDescending logs

filter-IsDescending :
    (p : RequestLog → Bool) (logs : List RequestLog)
    → IsDescending logs
    → IsDescending (filter p logs)
filter-IsDescending p [] h = tt
filter-IsDescending p (log ∷ logs) (here, h) = elim (Bool-cases (p log)) [
  | inl kept ↦ rw kept (All-filter (λ l. l.id < log.id) p logs here, filter-IsDescending p logs h)
  | inr out ↦ rw out (filter-IsDescending p logs h)
]

filter-is_before :
    (k : ℕ) (logs : List RequestLog)
    → All (λ l. l.id < k) logs
    → filter (is_before (some k)) logs ≡ logs
filter-is_before k [] h = refl
filter-is_before k (log ∷ logs) (here, h) =
    rw (lt→ltb log.id k here) (ap (λ l. log ∷ l) (filter-is_before k logs h))

take-all : (n : ℕ) (logs : List RequestLog) → length logs ≤ n → take n logs ≡ logs
take-all zero [] h = refl
take-all (suc n) [] h = refl
take-all zero (log ∷ logs) h = absurd (omega arith)
take-all (suc n) (log ∷ logs) h = ap (λ l. log ∷ l) (take-all n logs (omega arith))

take-take : (n : ℕ) (logs : List RequestLog) → take n (take (suc n) logs) ≡ take n logs
take-take zero logs = refl
take-take (suc n) [] = refl
take-take (suc n) (log ∷ logs) = ap (λ l. log ∷ l) (take-take n logs)

length-take : (n : ℕ) (logs : List RequestLog) → n ≤ length logs → length (take n logs) ≡ n
length-take zero logs h = refl
length-take (suc n) [] h = absurd (omega arith)
length-take (suc n) (log ∷ logs) h = ap suc (length-take n logs (omega arith))

-- The last row of a page cuts off what follows it.
record Cut (n : ℕ) (logs : List RequestLog) : Type 0 where
  cursor : ℕ
  found : last_id (take (suc n) logs) ≡ some cursor
  rest : filter (is_before (some cursor)) logs ≡ drop (suc n) logs
  below : (b : ℕ) → All (λ l. l.id < b) logs → cursor < b

cut : (n : ℕ) (logs : List RequestLog) → n < length logs → IsDescending logs → Cut n logs
unfolding last_id
cut n [] h d = absurd (omega arith)
cut zero (log ∷ logs) h (here, d) = record {
  cursor = log.id;
  found = refl;
  rest = rw (ge→ltb log.id log.id (omega arith)) (filter-is_before log.id logs here);
  below = λ b all. all.0;
}
cut (suc n) (log ∷ []) h d = absurd (omega arith)
cut (suc n) (log ∷ next ∷ logs) h (here, d) =
    let c = cut n (next ∷ logs) (omega arith) d in
    record {
      cursor = c.cursor;
      found = c.found;
      rest = rw (ge→ltb log.id c.cursor (omega (arith, c.below log.id here))) c.rest;
      below = λ b all. c.below b all.1;
    }

-- A page that is not the last: its rows, and a cursor that leaves the others.
record More (limit : ℕ) (found : List RequestLog) : Type 0 where
  cursor : ℕ
  next : (page_of limit found).next_cursor ≡ some cursor
  rows : (page_of limit found).items ≡ take limit found
  rest : filter (is_before (some cursor)) found ≡ drop limit found
  below : (b : ℕ) → All (λ l. l.id < b) found → cursor < b

more-rows : (n : ℕ) (found : List RequestLog) → take n (take (n + 1) found) ≡ take n found
more-rows n found = ap (λ m. take n (take m found)) (one n) ∙ take-take n found
  where
    one : (n : ℕ) → n + 1 ≡ suc n
    one n = omega arith

full-length :
    (n : ℕ) (found : List RequestLog)
    → n < length found
    → ltb n (length (take (n + 1) found)) ≡ true
full-length n found h =
    lt→ltb n (length (take (n + 1) found)) (omega (arith, length-take (n + 1) found (omega arith)))

page_of-More :
    (n : ℕ) (found : List RequestLog)
    → suc n < length found
    → IsDescending found
    → More (suc n) found
unfolding page_of
page_of-More n found h d =
    let c = cut n found (omega arith) d in
    record {
      cursor = c.cursor;
      next = rw (full-length (suc n) found h) (ap last_id (more-rows (suc n) found) ∙ c.found);
      rows = more-rows (suc n) found;
      rest = c.rest;
      below = c.below;
    }

-- The last page: all the rows, and no cursor.
page_of-last :
    (n : ℕ) (found : List RequestLog)
    → length found ≤ n
    → ((page_of n found).items ≡ found) × ((page_of n found).next_cursor ≡ none)
unfolding page_of
page_of-last n found h =
    let all : take (n + 1) found ≡ found = take-all (n + 1) found (omega arith) in
    (more-rows n found ∙ take-all n found h, rw (all, ge→ltb n (length found) h) refl)

-- A client that follows the cursors: the rows of its pages one after the other.
unfoldable pub follow : ℕ → ℕ → Option ℕ → LogQuery → List RequestLog → List RequestLog
unfolding query_logs
follow zero limit cursor q table = []
follow (suc n) limit cursor q table = elim (query_logs (pos limit) cursor q table) [
  | err e ↦ []
  | ok page ↦
      page.items
      ++ (elim page.next_cursor [ none ↦ [] | some next ↦ follow n limit (some next) q table ])
]

query_logs-page :
    (limit : ℕ) (cursor : Option ℕ) (q : LogQuery) (table : List RequestLog)
    → 0 < limit
    → limit ≤ 200
    → query_logs (pos limit) cursor q table
      ≡ ok (page_of limit (filter (is_before cursor) (filter (matches q) table)))
unfolding query_logs check_limit
query_logs-page limit cursor q table low high =
    let some_rows : (limit == 0) ≡ false = ground arith in
    rw (query_logs, some_rows, ge→ltb 200 limit high) refl

append-nil : (logs : List RequestLog) → logs ++ [] ≡ logs
append-nil [] = refl
append-nil (log ∷ logs) = ap (λ l. log ∷ l) (append-nil logs)

length-drop :
    (m : ℕ) (logs : List RequestLog)
    → suc m < length logs
    → length (drop (suc m) logs) < length logs
length-drop m [] h = absurd (omega arith)
length-drop zero (log ∷ logs) h = omega arith
length-drop (suc m) (log ∷ logs) h = omega (arith, length-drop m logs (omega arith))

-- The rows before the cursor of a page are those that follow the page.
rest-after :
    (cursor : Option ℕ) (k m : ℕ) (rows : List RequestLog)
    → filter (is_before (some k)) (filter (is_before cursor) rows)
      ≡ drop (suc m) (filter (is_before cursor) rows)
    → ((b : ℕ) → All (λ l. l.id < b) (filter (is_before cursor) rows) → k < b)
    → filter (is_before (some k)) rows ≡ drop (suc m) (filter (is_before cursor) rows)
rest-after none k m rows rest below =
    sym (filter_absorbs (is_before (some k)) (is_before none) rows (λ l e. refl)) ∙ rest
rest-after (some c) k m rows rest below =
    let smaller : k < c =
      below c (filter-All (λ l. l.id < c) (is_before (some c)) rows (λ l e. ground arith)) in
    sym (
      filter_absorbs (is_before (some k)) (is_before (some c)) rows
        (λ l e. ground (arith, smaller)))
    ∙ rest

follow-rows :
    (n m : ℕ) (cursor : Option ℕ) (q : LogQuery) (table : List RequestLog)
    → suc m ≤ 200
    → IsDescending table
    → length (filter (is_before cursor) (filter (matches q) table)) < n
    → follow n (suc m) cursor q table ≡ filter (is_before cursor) (filter (matches q) table)
unfolding follow
follow-rows zero m cursor q table high d size = absurd (omega arith)
follow-rows (suc n) m cursor q table high d size =
    let found = filter (is_before cursor) (filter (matches q) table) in
    let ordered =
      filter-IsDescending (is_before cursor) (filter (matches q) table)
        (filter-IsDescending (matches q) table d) in
    let page = query_logs-page (suc m) cursor q table (omega arith) high in
    elim (Bool-cases (ltb (suc m) (length found))) [
      | inr last ↦
          let (rows, end) = page_of-last (suc m) found (ground arith) in
          rw (follow, page, end, rows) (append-nil found)
      | inl more ↦
          let p = page_of-More m found (ground arith) ordered in
          let rest = rest-after cursor p.cursor m (filter (matches q) table) p.rest p.below in
          let smaller = length-drop m found (ground arith) in
          rw (follow, page, p.next, p.rows)
            (ap (λ l. take (suc m) found ++ l)
                (follow-rows n m (some p.cursor) q table high d (rw rest (omega (arith, smaller)))
                  ∙ rest)
              ∙ take-append-drop (suc m) found)
    ]

-- A client that asks for pages of any size that is allowed, and follows the cursors, gets each log that
-- its conditions name once, newest first, and comes to an end: one page more than there are logs is
-- always enough.
pub follow-all :
    (limit : ℕ) (q : LogQuery) (table : List RequestLog)
    → 0 < limit
    → limit ≤ 200
    → IsDescending table
    → follow (suc (length (filter (matches q) table))) limit none q table ≡ filter (matches q) table
follow-all zero q table low high d = absurd (omega arith)
follow-all (suc m) q table low high d =
    follow-rows (suc (length (filter (matches q) table))) m none q table high d
      (rw (unfiltered (filter (matches q) table)) (omega arith))
    ∙ unfiltered (filter (matches q) table)
  where
    unfiltered : (logs : List RequestLog) → filter (is_before none) logs ≡ logs
    unfiltered [] = refl
    unfiltered (log ∷ logs) = ap (λ l. log ∷ l) (unfiltered logs)

-- A log is asked for by the level that the pages show for it, and by no other.
pub has_level-request_log_level :
    (level : Level) (log : RequestLog)
    → (has_level level log ≡ true) ↔ (request_log_level log.status_code log.success ≡ level)
unfolding has_level request_log_level
has_level-request_log_level level log = elim (Option-cases log.status_code) [
  | inl missing ↦ rw missing (ground arith)
  | inr (code, there) ↦ elim (Option-cases log.success) [
    | inl open' ↦ rw (there, open') (ground arith)
    | inr (b, done) ↦ rw (there, done) (ground arith)
  ]
]
