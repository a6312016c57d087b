-- ===== src/Middleware.antt =====
-- app/middleware.py: which requests are let through before a route sees them, and what a request is
-- called in the logs. `int` of a header is an argument.
pub mod Laws
mod Tests
use firecrawl_manger.Prelude.{
  ℕ, ◌-◌, String, Bool, true, false, not, ◌&&◌, ◌||◌, Option, none, some, List, [], ◌∷◌, ◌++◌, map,
  any, take, drop, length, ltb, leb, ◌==◌, string_equality, if◌then◌else◌,
}
use firecrawl_manger.Prelude.Int.{ℤ, pos, negsuc}
use firecrawl_manger.Prelude.Text.{
  Text, text, text_equality, starts_with, occurs_in, before, rstrip_char,
}
use firecrawl_manger.Errors.{
  FcamError, error, validation_error, request_too_large, path_not_allowed, unsupported_media_type,
}

-- `_is_valid_request_id`, the pattern `^[A-Za-z0-9_-]{8,64}$`.
unfoldable pub is_valid_request_id : Text → Bool
is_valid_request_id value =
    leb 8 (length value) && leb (length value) 64 && not (any (λ c. not (is_word c)) value)
  where
    is_word : ℕ → Bool
    is_word c =
        (leb 65 c && leb c 90)
        || (leb 97 c && leb c 122)
        || (leb 48 c && leb c 57)
        || (leb 95 c && leb c 95)
        || (leb 45 c && leb c 45)

abbrev lstrip_slash : Text → Text
lstrip_slash [] = []
lstrip_slash (c ∷ s) = let rest = lstrip_slash s in if leb 47 c && leb c 47 then rest else c ∷ s

-- `s.strip("/")`
abbrev pub strip_slash : Text → Text
strip_slash s = rstrip_char b'/' (lstrip_slash s)

abbrev pub api : Text
api = text "/api/"

abbrev pub v1 : Text
v1 = text "/v1/"

abbrev pub v2 : Text
v2 = text "/v2/"

abbrev pub exa : Text
exa = text "/exa/"

-- `api_prefix` of `RequestLimitsMiddleware.dispatch`
abbrev pub api_prefix : Text → Option Text
api_prefix path =
    if starts_with api path
    then some api
    else if starts_with v1 path
    then some v1
    else if starts_with v2 path
    then some v2
    else none

-- `path[len(prefix):].split("/", 1)[0]`
abbrev pub segment : Text → Text → Text
segment prefix path = before b'/' (drop (length prefix) path)

abbrev infer_suffix : Text → Text
infer_suffix suffix =
    let first : Text = before b'/' suffix in
    if first == text "crawl"
    then (if suffix == first then text "crawl" else text "crawl_status")
    else if first == []
    then text "unknown"
    else take 32 first

-- `_infer_api_endpoint`
unfoldable pub infer_api_endpoint : Text → Option Text
unfolding rstrip_char
infer_api_endpoint path = elim (api_prefix path) [
  | some prefix ↦
      let suffix : Text = strip_slash (drop (length prefix) path) in
      some (if suffix == [] then text "unknown" else infer_suffix suffix)
  | none ↦
      if not (starts_with exa path)
      then none
      else let suffix : Text = strip_slash (drop 5 path) in
        some (if suffix == [] then text "unknown" else text "exa_" ++ take 32 (before b'/' suffix))
]

-- `RequestLimitsMiddleware`
pub record Limits : Type 0 where
  pub max_body_bytes : ℕ
  pub allowed_api_paths : List Text
  pub allowed_exa_paths : List Text

-- `RequestLimitsMiddleware.__init__`
unfoldable pub limits : ℕ → List Text → List Text → Limits
unfolding rstrip_char
limits max_body_bytes allowed_api_paths allowed_exa_paths = record {
  max_body_bytes = max_body_bytes;
  allowed_api_paths = map strip_slash allowed_api_paths;
  allowed_exa_paths = map strip_slash allowed_exa_paths;
}

pub record Incoming : Type 0 where
  pub method : String
  pub path : Text
  pub content_length : Text
  pub content_type : Text
  pub body : List ℕ

abbrev pub is_listed : Text → List Text → Bool
is_listed name names = any (λ n. n == name) names

abbrev pub is_empty : List Text → Bool
is_empty [] = true
is_empty (_ ∷ _) = false

abbrev pub not_allowed : FcamError
not_allowed = error 404 path_not_allowed "Path not allowed"

abbrev pub too_large : FcamError
too_large = error 413 request_too_large "Request body too large"

abbrev pub is_path_allowed : Limits → Text → Bool
is_path_allowed l path = elim (api_prefix path) [
  | some prefix ↦ is_listed (segment prefix path) l.allowed_api_paths
  | none ↦ true
]

abbrev pub is_exa_allowed : Limits → Text → Bool
is_exa_allowed l path =
    not (starts_with exa path && not (is_empty l.allowed_exa_paths))
    || is_listed (segment exa path) l.allowed_exa_paths

-- What is wrong with the header, if anything.
unfoldable pub check_length : (Text → Option ℤ) → Limits → Text → Option FcamError
check_length int l [] = none
check_length int l (c ∷ s) = elim (int (c ∷ s)) [
  | none ↦ some (error 400 validation_error "Invalid Content-Length")
  | some (negsuc n) ↦ none
  | some (pos n) ↦ if ltb l.max_body_bytes n then some too_large else none
]

-- What is wrong with the body, if anything; an empty one is let through.
unfoldable pub check_body : Limits → Text → List ℕ → Option FcamError
check_body l content_type [] = none
check_body l content_type (c ∷ body) =
    if not (occurs_in (text "application/json") content_type)
    then some (error 415 unsupported_media_type "Only application/json is supported")
    else if ltb l.max_body_bytes (length (c ∷ body))
    then some too_large
    else none

abbrev pub is_read : String → Bool
is_read method = method == "GET" || method == "HEAD"

abbrev pub first_of : Option FcamError → Option FcamError → Option FcamError
first_of (some e) next = some e
first_of none next = next

-- `RequestLimitsMiddleware.dispatch`: the error that is raised, or none where the request goes on.
unfoldable pub dispatch : (Text → Option ℤ) → Limits → Incoming → Option FcamError
unfolding check_length check_body
dispatch int l r =
    if not (is_path_allowed l r.path)
    then some not_allowed
    else if not (is_exa_allowed l r.path)
    then some not_allowed
    else if is_read r.method
    then none
    else first_of (check_length int l r.content_length) (check_body l r.content_type r.body)
