-- ===== src/Forwarder/Providers.antt =====
-- app/core/forwarder.py: where a provider is called, how the key is sent to it, and which headers pass
-- in either direction. `headers.get` of httpx and the two functions on urls are arguments.
pub mod Headers
use firecrawl_manger.Prelude.{
  ℕ, ◌+◌, String, Bool, true, false, not, ◌&&◌, ◌||◌, Option, none, some, List, [], ◌∷◌, ◌++◌, any,
  filter, max, length, take, drop, ◌-◌, leb, ◌==◌, string_equality, nat_equality, if◌then◌else◌,
}
use firecrawl_manger.Prelude.Int.{ℤ, clamp}
use firecrawl_manger.Prelude.Text.{Text, text, text_equality, lower, rstrip_char, ends_with}
use firecrawl_manger.Errors.{Result, ok, err, FcamError, error, provider_not_configured}

-- `config.providers.<name>`
pub record ProviderConfig : Type 0 where
  pub enabled : Bool
  pub base_url : Text
  pub timeout : ℕ
  pub max_retries : ℤ
  pub auth_mode : String

-- `config.firecrawl` and `getattr(config.providers, name, None)`, with the url of firecrawl as the
-- constructor of the forwarder leaves it.
pub record Providers : Type 0 where
  pub firecrawl_base_url : Text
  pub firecrawl_timeout : ℕ
  pub firecrawl_max_retries : ℤ
  pub configured : String → Option ProviderConfig

abbrev pub firecrawl : String
firecrawl = "firecrawl"

-- `_provider_base_url`
unfoldable pub provider_base_url : Providers → String → Result Text
provider_base_url p provider =
    let missing : FcamError =
      error 400 provider_not_configured "Provider is not configured or enabled" in
    if provider == firecrawl then ok p.firecrawl_base_url else (elim (p.configured provider) [
      | none ↦ err missing
      | some c ↦ if c.enabled then ok (rstrip_char b'/' c.base_url) else err missing
    ])

-- `_provider_timeout`
unfoldable pub provider_timeout : Providers → String → ℕ
provider_timeout p provider =
    if provider == firecrawl
    then p.firecrawl_timeout
    else (elim (p.configured provider) [ none ↦ p.firecrawl_timeout | some c ↦ c.timeout ])

-- `_provider_max_retries`
unfoldable pub provider_max_retries : Providers → String → ℤ
provider_max_retries p provider =
    if provider == firecrawl
    then p.firecrawl_max_retries
    else (elim (p.configured provider) [ none ↦ p.firecrawl_max_retries | some c ↦ c.max_retries ])

-- `max(self._provider_max_retries(provider), 0) + 1`
unfoldable pub attempts_for : Providers → String → ℕ
unfolding provider_max_retries
attempts_for p provider = clamp (provider_max_retries p provider) + 1

abbrev pub Header : Type 0
Header = Text × Text

abbrev bearer : Text → Header
bearer plaintext = (text "authorization", text "Bearer " ++ plaintext)

-- `_provider_auth_header`
unfoldable pub provider_auth_header : Providers → String → Text → Header
provider_auth_header p provider plaintext =
    if provider == firecrawl then bearer plaintext else (elim (p.configured provider) [
      | none ↦ bearer plaintext
      | some c ↦
          if c.auth_mode == "x-api-key" then (text "x-api-key", plaintext) else bearer plaintext
    ])

-- `_DROP_REQUEST_HEADERS`
abbrev pub drop_request_headers : List Text
drop_request_headers =
    text "authorization"
    ∷ text "x-api-key"
    ∷ text "host"
    ∷ text "connection"
    ∷ text "keep-alive"
    ∷ text "proxy-authenticate"
    ∷ text "proxy-authorization"
    ∷ text "te"
    ∷ text "trailers"
    ∷ text "transfer-encoding"
    ∷ text "upgrade"
    ∷ text "x-forwarded-for"
    ∷ text "x-forwarded-proto"
    ∷ text "x-forwarded-host"
    ∷ text "x-real-ip"
    ∷ []

-- `_DROP_RESPONSE_HEADERS`
abbrev pub drop_response_headers : List Text
drop_response_headers =
    text "connection"
    ∷ text "keep-alive"
    ∷ text "content-encoding"
    ∷ text "content-length"
    ∷ text "proxy-authenticate"
    ∷ text "proxy-authorization"
    ∷ text "te"
    ∷ text "trailers"
    ∷ text "transfer-encoding"
    ∷ text "upgrade"
    ∷ text "set-cookie"
    ∷ []

abbrev pub is_in : Text → List Text → Bool
is_in name names = any (λ n. n == name) names

-- `if accept: headers["accept"] = accept`
abbrev pub copied : (Text → Option Text) → Text → List Header
copied get name = elim (get name) [
  | none ↦ []
  | some value ↦ if value == [] then [] else (name, value) ∷ []
]

-- `_sanitized_request_headers`
unfoldable pub sanitized_request_headers : (Text → Option Text) → Text → List Header
sanitized_request_headers get request_id =
    (text "x-request-id", request_id)
    ∷ (copied get (text "accept")
        ++ (copied get (text "content-type") ++ copied get (text "user-agent")))

abbrev pub is_auth : Text → Bool
is_auth name = name == text "authorization" || name == text "x-api-key"

-- The headers of a call: those of the request, the key, and nothing that must not be passed on. The
-- names are distinct, so `update` adds one.
unfoldable pub upstream_headers : (Text → Option Text) → Text → Header → List Header
unfolding sanitized_request_headers
upstream_headers get request_id auth =
    filter (λ h. not (is_in (lower h.0) drop_request_headers && not (is_auth (lower h.0))))
      (sanitized_request_headers get request_id ++ (auth ∷ []))

-- The headers of `_to_fastapi_response`.
unfoldable pub response_headers : List Header → List Header
response_headers headers = filter (λ h. not (is_in (lower h.0) drop_response_headers)) headers

-- `urlsplit`, as far as the code reads it.
pub record Url : Type 0 where
  pub scheme : Text
  pub netloc : Text
  pub path : Text

abbrev without_version : Text → Text × Option Text
without_version path =
    if ends_with (text "/v1") path
    then (take (length path - 3) path, some (text "v1"))
    else if ends_with (text "/v2") path
    then (take (length path - 3) path, some (text "v2"))
    else (path, none)

-- `_strip_firecrawl_version_suffix`
unfoldable pub strip_firecrawl_version_suffix :
    (Text → Url) → (Url → Text) → Text → Text × Option Text
strip_firecrawl_version_suffix urlsplit urlunsplit base_url =
    let normalized : Text = rstrip_char b'/' base_url in
    let parts : Url = urlsplit normalized in
    if parts.scheme == [] || parts.netloc == []
    then (normalized, none)
    else let (path, version) = without_version (rstrip_char b'/' parts.path) in
      (rstrip_char b'/' (urlunsplit (record parts { path = path })), version)
