-- ===== src/Forwarder/KeyTest.antt =====
-- app/core/forwarder.py, `Forwarder.test_key` and `_test_key_exa`: a key is tried at the upstream, and
-- its state follows the answer. The latency is not modelled.
pub mod Laws
use firecrawl_manger.Prelude.{
  ℕ, String, Bool, true, false, not, ◌&&◌, ◌||◌, Option, none, some, List, [], ◌∷◌, ltb, leb, ◌==◌,
  nat_equality, string_equality, if◌then◌else◌,
}
use firecrawl_manger.Prelude.Text.{Text, text, text_equality}
use firecrawl_manger.Errors.{Result, ok, err, FcamError, error, not_ready, validation_error}
use firecrawl_manger.Models.{ApiKey, Status}
use firecrawl_manger.Forwarder.{
  Settings, Try, World, Reply, Response, response, timeout, http_error, disable_key_decrypt_failed,
  disable_key, mark_active, mark_cooling, record_failure, cooldown_of,
}
use firecrawl_manger.Forwarder.Pinned.{session_key}
use firecrawl_manger.Forwarder.Providers.{Providers, provider_base_url, firecrawl}

-- `class KeyTestResult`
pub record KeyTestResult : Type 0 where
  pub passed : Bool
  pub upstream_status_code : Option ℕ
  pub observed_status : Status
  pub observed_cooldown_until : Option ℕ

-- The result, with what the key shows when it is made.
abbrev pub observe : Bool → Option ℕ → ApiKey → World → KeyTestResult × World
observe passed upstream_status_code key w =
    let shown : ApiKey = session_key key w in
    (
      record {
        passed = passed;
        upstream_status_code = upstream_status_code;
        observed_status = shown.status;
        observed_cooldown_until = shown.cooldown_until;
      },
      w,
    )

abbrev pub is_success : ℕ → Bool
is_success status_code = leb 200 status_code && ltb status_code 300

-- What `test_key` makes of an answer.
unfoldable pub conclude : Settings → Try → ApiKey → Response → World → KeyTestResult × World
conclude s t key resp w =
    let status_code = resp.status_code in
    if is_success status_code
    then observe true (some status_code) key (mark_active t key w)
    else if status_code == 429
    then observe false (some status_code) key (mark_cooling t key (cooldown_of s resp) w)
    else if status_code == 401 || status_code == 403
    then observe false (some status_code) key (disable_key t key w)
    else if leb 500 status_code
    then observe false (some status_code) key (record_failure s t key w)
    else observe false (some status_code) key w

-- `_test_key_exa` has the tests one after the other, on the object that the session shows.
abbrev pub when : Bool → (World → World) → World → World
when true change w = change w
when false change w = w

unfoldable pub conclude_exa : Settings → Try → ApiKey → Response → World → KeyTestResult × World
conclude_exa s t key resp w =
    let status_code = resp.status_code in
    if is_success status_code
    then observe true (some status_code) key (mark_active t key w)
    else let w1 : World = when (status_code == 429) (mark_cooling t key (cooldown_of s resp)) w in
      let w2 : World =
        when (status_code == 401 || status_code == 403) (λ v. disable_key t (session_key key v) v)
          w1 in
      let w3 : World =
        when (leb 500 status_code) (λ v. record_failure s t (session_key key v) v) w2 in
      observe false (some status_code) key w3

-- `for candidate_path in candidates`: the first answer that is not 404 or 405, or else the last.
unfoldable pub probe : (Text → Reply) → Text → List Text → Reply
probe post path [] = post path
probe post path (next ∷ more) =
    let later = probe post next more in
    elim (post path) [
      | timeout ↦ timeout
      | http_error ↦ http_error
      | response resp ↦
          if resp.status_code == 404 || resp.status_code == 405 then later else response resp
    ]

-- `candidates`, by the version in the configured url.
unfoldable pub probe_candidates : (Text → Reply) → Option Text → Reply
unfolding probe
probe_candidates post version =
    if (elim version [ none ↦ false | some v ↦ v == text "v1" ])
    then probe post (text "/v1/scrape") (text "/v2/scrape" ∷ [])
    else probe post (text "/v2/scrape") (text "/v1/scrape" ∷ [])

-- The reply to a test, or none.
unfoldable pub judge :
    (Settings → Try → ApiKey → Response → World → KeyTestResult × World)
    → Settings
    → Try
    → ApiKey
    → World
    → Reply
    → KeyTestResult × World
judge finish s t key w timeout = observe false none key (record_failure s t key w)
judge finish s t key w http_error = observe false none key (record_failure s t key w)
judge finish s t key w (response resp) = finish s t key resp w

-- The call of one provider: the ciphertext is decrypted before the url is looked up.
abbrev pub run_test :
    (Settings → Try → ApiKey → Response → World → KeyTestResult × World)
    → Settings
    → Try
    → ApiKey
    → Result Text
    → (String → Reply)
    → World
    → Result KeyTestResult × World
run_test finish s t key base_url reply w = elim (t.decrypt key.api_key_ciphertext) [
  | none ↦
      let (result, w') = observe false none key (disable_key_decrypt_failed t key w) in
      (ok result, w')
  | some plaintext ↦ elim base_url [
    | err e ↦ (err e, w)
    | ok _ ↦ let (result, w') = judge finish s t key w (reply plaintext) in (ok result, w')
  ]
]

-- `getattr(key, "provider", "firecrawl") or "firecrawl"`
abbrev pub tested_provider : ApiKey → String
tested_provider key = if key.provider == "" then firecrawl else key.provider

-- `test_key`; `post` is the upstream's reply to a path and a key.
unfoldable pub test_key :
    Providers
    → Option Text
    → Settings
    → Try
    → ApiKey
    → String
    → (Text → String → Reply)
    → World
    → Result KeyTestResult × World
unfolding conclude conclude_exa judge probe_candidates
test_key p version s t key mode post w =
    if not s.has_master_key
    then (err (error 503 not_ready "Master key not configured"), w)
    else if not (mode == "scrape")
    then (err (error 400 validation_error "Unsupported test mode"), w)
    else let url : Result Text = provider_base_url p (tested_provider key) in
      if tested_provider key == "exa"
      then run_test conclude_exa s t key url (post (text "/search")) w
      else run_test conclude s t key url
          (λ plaintext. probe_candidates (λ path. post path plaintext) version) w
