-- ===== src/Security.antt =====
-- security.rs (src/security.rs): the middlewares and `IpFilter`. The rest of the program, `next`, is
-- a function from requests to responses; the crate http's test of a header's value is `is_value`, and
-- `read_usize` reads a header's value as a number where it is one. A panic is `none`. What a
-- middleware changes of its own is given with its answer.
use miwidothttp.Prelude.{
  ℕ, ◌+◌, ◌≡◌, Bool, true, false, not, ◌&&◌, ◌||◌, Option, none, some, is_some, List, [], ◌∷◌,
  String, append_text, unwrap_or, ltb, is_empty, contains, Eq, ◌=?◌, string_eq, if◌then◌else◌,
}
use miwidothttp.Prelude.Assoc.{lookup}
use miwidothttp.Rewrite.{decimal_text}
use miwidothttp.Proxy.{HeaderMap, set_header}
use miwidothttp.RateLimit.{RateLimiter, check_rate_limit}
pub mod Guards
pub mod Answers
mod Tests

-- The fields of `SecurityConfig` that the middlewares read.
pub record SecurityConfig : Type 0 where
  pub enable_hsts : Bool
  pub hsts_max_age : ℕ
  pub enable_csp : Bool
  pub csp_policy : String
  pub max_body_size : ℕ
  pub max_header_size : ℕ

-- The address stands in the extensions of a request.
pub record Request (Ip : Type 0) : Type 0 where
  pub headers : HeaderMap
  pub address : Option Ip

pub record Response : Type 0 where
  pub status : ℕ
  pub headers : HeaderMap
  pub body : String

abbrev pub with_header : String → String → Response → Response
with_header name value r = record r { headers = set_header name value r.headers }

unfoldable pub security_headers_middleware : Response → Response
unfolding set_header
security_headers_middleware r =
    with_header "permissions-policy" "geolocation=(), microphone=(), camera=()" (
      with_header "referrer-policy" "strict-origin-when-cross-origin" (
        with_header "x-xss-protection" "1; mode=block" (
          with_header "x-content-type-options" "nosniff" (with_header "x-frame-options" "DENY" r))))

unfoldable pub hsts_middleware : SecurityConfig → Response → Response
unfolding set_header
hsts_middleware config r =
    if config.enable_hsts
    then with_header "strict-transport-security"
        (append_text "max-age="
          (append_text (decimal_text config.hsts_max_age) "; includeSubDomains; preload"))
        r
    else r

unfoldable pub csp_middleware :
    (is_value : String → Bool) → SecurityConfig → Response → Option Response
unfolding set_header
csp_middleware is_value config r =
    if config.enable_csp
    then (if is_value config.csp_policy
        then some (with_header "content-security-policy" config.csp_policy r)
        else none)
    else some r

-- The bytes of the names and the values; the sum is the crate's, over every header.
unfoldable pub header_bytes : (size : String → ℕ) → HeaderMap → ℕ
header_bytes size [] = 0
header_bytes size ((name, value) ∷ rest) = size name + size value + header_bytes size rest

-- The length that a request announces in a form that can be read.
unfoldable pub announced_length : (read_usize : String → Option ℕ) → HeaderMap → Option ℕ
announced_length read_usize headers = elim (lookup "content-length" headers) [
  | none ↦ none
  | some v ↦ read_usize v
]

abbrev pub plain_response : ℕ → String → Response
plain_response status body = record { status = status; headers = []; body = body }

abbrev pub too_long : Option ℕ → ℕ → Bool
too_long none most = false
too_long (some length) most = ltb most length

module _ {Ip : Type 0} where
  unfoldable pub size_limit_middleware :
      (size : String → ℕ) (read_usize : String → Option ℕ)
      → SecurityConfig
      → (Request Ip → Response)
      → Request Ip
      → Response
  unfolding header_bytes announced_length
  size_limit_middleware size read_usize config next req =
      if ltb config.max_header_size (header_bytes size req.headers)
      then plain_response 431 "Request headers too large"
      else (if too_long (announced_length read_usize req.headers) config.max_body_size
          then plain_response 413 "Request body too large"
          else next req)

  -- A request's value for the header Origin, where it can be read as text.
  unfoldable pub cors_middleware :
      (as_text : String → Option String) (is_value : String → Bool)
      → (Request Ip → Response)
      → Request Ip
      → Option Response
  unfolding set_header
  cors_middleware as_text is_value next req =
      let read : Option String = elim (lookup "origin" req.headers) [
        | none ↦ none
        | some v ↦ as_text v
      ] in
      let origin = unwrap_or read "*" in
      let r = next req in
      if is_some (lookup "access-control-allow-origin" r.headers)
      then some r
      else (if is_value origin
          then some (with_header "access-control-allow-origin" origin r)
          else none)

  -- It tests the method and then skips the check that its comment speaks of.
  unfoldable pub csrf_middleware : (Request Ip → Response) → Request Ip → Response
  csrf_middleware next req = next req

  unfoldable pub slowloris_protection : (Request Ip → Response) → Request Ip → Response
  slowloris_protection next req = next req

pub record IpFilter (Ip : Type 0) : Type 0 where
  pub whitelist : List Ip
  pub blacklist : List Ip

unfoldable pub new_filter : {Ip : Type 0} → IpFilter Ip
new_filter = record { whitelist = []; blacklist = [] }

module _ {Ip : Type 0} ⦃e : Eq Ip⦄ where
  -- The Boolean says whether `next` has run. A request without an address counts as one of the local
  -- host.
  unfoldable pub rate_limit_middleware :
      (local_host : Ip) (now : ℕ)
      → (Request Ip → Response)
      → Request Ip
      → RateLimiter Ip
      → RateLimiter Ip × Response × Bool
  rate_limit_middleware local_host now next req limiter =
      let ip = unwrap_or req.address local_host in
      let checked = check_rate_limit ip now limiter in
      if checked.1 then (checked.0, next req, true) else (
        checked.0,
        record { status = 429; headers = ("retry-after", "60") ∷ []; body = "Rate limit exceeded" },
        false,
      )

  unfoldable pub is_allowed : IpFilter Ip → Ip → Bool
  is_allowed filter ip =
      if contains filter.blacklist ip
      then false
      else (if is_empty filter.whitelist then true else contains filter.whitelist ip)
