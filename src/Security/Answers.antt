-- ===== src/Security/Answers.antt =====
-- security.rs: the headers of every answer, and the answers that the filter allows.
use miwidothttp.Prelude.{
  ◌≡◌, refl, ap, ◌∙◌, Bool, true, not, ◌&&◌, ◌||◌, Option, some, String, append_text, ◌=?◌,
  string_eq, if◌then◌else◌, Bool-cases, inl, inr, arith,
}
use miwidothttp.Prelude.Assoc.{lookup, lookup-remove}
use miwidothttp.Proxy.{HeaderMap, set_header}
use miwidothttp.Rewrite.{decimal_text}
use miwidothttp.Security.{
  Response, SecurityConfig, security_headers_middleware, hsts_middleware, csp_middleware,
}

lookup-set_header :
    (name value k : String) (headers : HeaderMap)
    → lookup k (set_header name value headers)
      ≡ (if name =? k then some value else lookup k headers)
unfolding set_header lookup
lookup-set_header name value k headers = ground (arith, lookup-remove name k headers)

-- One header more, if it is asked for.
abbrev pub over : Bool → String → String → String → Option String → Option String
over asked name value k before = if asked && name =? k then some value else before

abbrev pub hsts_value : SecurityConfig → String
hsts_value config =
    append_text "max-age="
      (append_text (decimal_text config.hsts_max_age) "; includeSubDomains; preload")

-- The value that the middlewares give a header.
abbrev pub fixed : String → Option String → Option String
fixed k before = over true "permissions-policy" "geolocation=(), microphone=(), camera=()" k (
    over true "referrer-policy" "strict-origin-when-cross-origin" k (
      over true "x-xss-protection" "1; mode=block" k (
        over true "x-content-type-options" "nosniff" k
          (over true "x-frame-options" "DENY" k before))))

abbrev pub secured : SecurityConfig → String → Option String → Option String
secured config k before = fixed k (
    over config.enable_hsts "strict-transport-security" (hsts_value config) k
      (over config.enable_csp "content-security-policy" config.csp_policy k before))

lookup-fixed :
    (k : String) (r : Response)
    → lookup k (security_headers_middleware r).headers ≡ fixed k (lookup k r.headers)
unfolding security_headers_middleware
lookup-fixed k r =
    rw
      (
        lookup-set_header "permissions-policy" "geolocation=(), microphone=(), camera=()" k _,
        lookup-set_header "referrer-policy" "strict-origin-when-cross-origin" k _,
        lookup-set_header "x-xss-protection" "1; mode=block" k _,
        lookup-set_header "x-content-type-options" "nosniff" k _,
        lookup-set_header "x-frame-options" "DENY" k r.headers,
      )
      refl

lookup-hsts :
    (config : SecurityConfig) (k : String) (r : Response)
    → lookup k (hsts_middleware config r).headers
      ≡ over config.enable_hsts "strict-transport-security"
          (hsts_value config)
          k
          (lookup k r.headers)
unfolding hsts_middleware
lookup-hsts config k r =
    ground (arith, lookup-set_header "strict-transport-security" (hsts_value config) k r.headers)

hsts-kept :
    (config : SecurityConfig) (r : Response)
    → ((hsts_middleware config r).status ≡ r.status) × ((hsts_middleware config r).body ≡ r.body)
unfolding hsts_middleware
hsts-kept config r = ground arith

-- Where the policy is a value that a header may have, or is not asked for, the three middlewares
-- around a response leave its status and body and set exactly these headers: the five fixed ones,
-- and those of HSTS and of the policy where the configuration asks for them.
pub middlewares-secured :
    (is_value : String → Bool) (config : SecurityConfig) (r : Response)
    → (not config.enable_csp || is_value config.csp_policy) ≡ true
    → (r' : Response) × (csp_middleware is_value config r ≡ some r')
      × (let s = security_headers_middleware (hsts_middleware config r') in
          (s.status ≡ r.status)
          × (s.body ≡ r.body)
          × ((k : String) → lookup k s.headers ≡ secured config k (lookup k r.headers)))
unfolding csp_middleware security_headers_middleware
middlewares-secured is_value config r fine = elim (Bool-cases config.enable_csp) [
  | inl on ↦
      let r' : Response = record r {
        headers = set_header "content-security-policy" config.csp_policy r.headers;
      } in
      (
        r',
        ground (arith, on, fine),
        (
          (hsts-kept config r').0,
          (hsts-kept config r').1,
          λ k.
              lookup-fixed k (hsts_middleware config r')
              ∙ ap (fixed k) (
                  lookup-hsts config k r'
                  ∙ ap (over config.enable_hsts "strict-transport-security" (hsts_value config) k) (
                      ground (
                        arith,
                        on,
                        lookup-set_header "content-security-policy" config.csp_policy k r.headers,
                      ))),
        ),
      )
  | inr off ↦ (
    r,
    ground (arith, off),
    (
      (hsts-kept config r).0,
      (hsts-kept config r).1,
      λ k.
          lookup-fixed k (hsts_middleware config r)
          ∙ ap (fixed k) (
              lookup-hsts config k r
              ∙ ap (over config.enable_hsts "strict-transport-security" (hsts_value config) k)
                  (ground (arith, off))),
    ),
  )
]
