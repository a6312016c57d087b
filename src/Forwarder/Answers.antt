-- ===== src/Forwarder/Answers.antt =====
-- One try of the loop of app/core/forwarder.py: what an answer of the upstream leads to.
use firecrawl_manger.Prelude.{
  ℕ, ◌+◌, ◌≤◌, ◌<◌, ◌≡◌, ◌⊎◌, inl, inr, false, some, List, ◌∷◌, length, arith, Bool-cases, leb, ap,
  ◌∙◌, ◌==◌, ◌||◌, nat_equality,
}
use firecrawl_manger.Errors.{Result, ok, err, FcamError}
use firecrawl_manger.Models.{ApiKey}
use firecrawl_manger.Forwarder.{Try, World, Response, UpstreamCall, calling, response, cooldown_of}
use firecrawl_manger.Forwarder.Answer.{
  ForwardResult, Next, Request, Vars, account, again, handle_failure, handle_response, raises,
  result_of, retry_or_return, returns, returns_or_raises,
}
use firecrawl_manger.Forwarder.Frame.{
  disable_key-Same, mark_cooling-Same, record_failure-Same, account-Same,
}

-- The answers that make the code try another key.
abbrev pub Retryable : ℕ → Type 0
Retryable status = (status ≡ 429) ⊎ (status ≡ 401) ⊎ (status ≡ 403) ⊎ (500 ≤ status)

-- The result is the response that the last call of the upstream brought, with the key that it names.
pub record IsLast (result : ForwardResult) (w : World) : Type 0 where
  pub id : ℕ
  pub earlier : List UpstreamCall
  pub calls : w.requests ≡ calling id (response result.upstream_response) ∷ earlier
  pub named : result.api_key_id ≡ some id
  pub status : result.upstream_status_code ≡ some result.upstream_response.status_code

-- How one try ends, after `n` calls that left the variables `v`: it makes at most one more call; it
-- goes on only if attempts are left, with the calls counted; what it returns is the answer to the
-- call it made, and a retryable one only on the last attempt.
abbrev pub Sound : Request → Vars → ℕ → Next → World → Type 0
Sound r v n (again v') w' =
    (v'.upstream_attempts < r.total_attempts)
    × (v'.upstream_attempts + n ≡ v.upstream_attempts + length w'.requests)
Sound r v n (returns result) w' =
    IsLast result w'
    × (length w'.requests ≡ n + 1)
    × (Retryable result.upstream_response.status_code → r.total_attempts ≡ v.upstream_attempts + 1)
Sound r v n (raises e) w' = length w'.requests ≤ n + 1

-- The variables and calls after an answer of the key `id`.
pub record Answered (r : Request) (v v1 : Vars) (resp : Response) (n id : ℕ) (w : World)
    : Type 0 where
  pub earlier : List UpstreamCall
  pub calls : w.requests ≡ calling id (response resp) ∷ earlier
  pub size : length earlier ≡ n
  pub named : v1.last_api_key_id ≡ some id
  pub status : v1.last_upstream_status ≡ some resp.status_code
  pub counted : v1.upstream_attempts ≡ v.upstream_attempts + 1
  pub left : v.upstream_attempts < r.total_attempts

Answered-after :
    (r : Request) (v v1 : Vars) (resp : Response) (n id : ℕ) (w w' : World)
    → w'.requests ≡ w.requests
    → Answered r v v1 resp n id w
    → Answered r v v1 resp n id w'
Answered-after r v v1 resp n id w w' e a = record {
  earlier = a.earlier;
  calls = e ∙ a.calls;
  size = a.size;
  named = a.named;
  status = a.status;
  counted = a.counted;
  left = a.left;
}

Answered-size :
    (r : Request) (v v1 : Vars) (resp : Response) (n id : ℕ) (w : World)
    → Answered r v v1 resp n id w
    → length w.requests ≡ n + 1
Answered-size r v v1 resp n id w a = omega (arith, ap length a.calls, a.size)

Answered-IsLast :
    (r : Request) (v v1 : Vars) (resp : Response) (n id k : ℕ) (w : World)
    → Answered r v v1 resp n id w
    → IsLast (result_of v1 resp k) w
Answered-IsLast r v v1 resp n id k w a = record {
  id = id;
  earlier = a.earlier;
  calls = a.calls;
  named = a.named;
  status = a.status;
}

retry_or_return-Sound :
    (r : Request) (v v1 : Vars) (resp : Response) (n id : ℕ) (w : World)
    → Answered r v v1 resp n id w
    → Sound r v n (retry_or_return r v1 resp) w
unfolding retry_or_return
retry_or_return-Sound r v v1 resp n id w a =
    elim (Bool-cases (leb r.total_attempts v1.upstream_attempts)) [
      | inl last ↦ rw last (
        Answered-IsLast r v (record v1 { retry_count = v1.retry_count + 1 }) resp n id _ w
            (record {
              earlier = a.earlier;
              calls = a.calls;
              size = a.size;
              named = a.named;
              status = a.status;
              counted = a.counted;
              left = a.left;
            }),
        Answered-size r v v1 resp n id w a,
        λ _. ground (arith, a.counted, a.left),
      )
      | inr more ↦
          rw more (ground arith, omega (arith, a.counted, Answered-size r v v1 resp n id w a))
    ]

-- An answer that is not retryable is returned, unless the accounting fails.
account-Sound :
    (r : Request) (t : Try) (key : ApiKey) (v v1 : Vars) (resp : Response) (n id : ℕ) (w : World)
    → Answered r v v1 resp n id w
    → ¬ Retryable resp.status_code
    → let (next, w') = returns_or_raises v1 resp (account r t key resp w) in Sound r v n next w'
account-Sound r t key v v1 resp n id w a final =
    by_outcome (account r t key resp w) (account-Same r t key resp w).0
  where
    by_outcome :
        (o : Result (Unit {0}) × World)
        → o.1.requests ≡ w.requests
        → let (next, w') = returns_or_raises v1 resp o in Sound r v n next w'
    by_outcome (ok _, w') e =
        let a' = Answered-after r v v1 resp n id w w' e a in
        (
          Answered-IsLast r v v1 resp n id v1.retry_count w' a',
          Answered-size r v v1 resp n id w' a',
          λ retry. absurd (final retry),
        )
    by_outcome (err f, w') e =
        omega (arith, Answered-size r v v1 resp n id w' (Answered-after r v v1 resp n id w w' e a))

not-Retryable :
    (status : ℕ)
    → (status == 429) ≡ false
    → (status == 401 || status == 403) ≡ false
    → leb 500 status ≡ false
    → ¬ Retryable status
not-Retryable status a b c h = ground arith

pub handle_response-Sound :
    (r : Request) (t : Try) (key : ApiKey) (v v1 : Vars) (resp : Response) (n id : ℕ) (w : World)
    → Answered r v v1 resp n id w
    → let (next, w') = handle_response r t key v1 resp w in Sound r v n next w'
unfolding handle_response
handle_response-Sound r t key v v1 resp n id w a = elim (Bool-cases (resp.status_code == 429)) [
  | inl limited ↦ rw limited (retried _ (mark_cooling-Same t key (cooldown_of r.settings resp) w).0)
  | inr e1 ↦ elim (Bool-cases (resp.status_code == 401 || resp.status_code == 403)) [
    | inl refused ↦ rw (e1, refused) (retried _ (disable_key-Same t key w).0)
    | inr e2 ↦ elim (Bool-cases (leb 500 resp.status_code)) [
      | inl broken ↦ rw (e1, e2, broken) (retried _ (record_failure-Same r.settings t key w).0)
      | inr e3 ↦
          rw (e1, e2, e3)
            (account-Sound r t key v v1 resp n id w a (not-Retryable resp.status_code e1 e2 e3))
    ]
  ]
]
  where
    retried : (w' : World) → w'.requests ≡ w.requests → Sound r v n (retry_or_return r v1 resp) w'
    retried w' e =
        retry_or_return-Sound r v v1 resp n id w' (Answered-after r v v1 resp n id w w' e a)

pub handle_failure-Sound :
    (r : Request) (t : Try) (key : ApiKey) (v : Vars) (e : FcamError) (n : ℕ) (w : World)
    → length w.requests ≡ n + 1
    → v.upstream_attempts < r.total_attempts
    → let (next, w') = handle_failure r t key v e w in Sound r v n next w'
unfolding handle_failure
handle_failure-Sound r t key v e n w size left =
    ground (arith, ap length (record_failure-Same r.settings t key w).0)
