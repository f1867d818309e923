-- ===== src/Security/Tests.antt =====
-- security.rs: the theorems' witnesses, and a body whose length is not announced.
use miwidothttp.Prelude.{
  arith, ℕ, ◌≤◌, ◌≡◌, refl, true, none, [], ◌∷◌, length, retain, nat_eq, string_eq,
}
use miwidothttp.Prelude.Assoc.{lookup}
use miwidothttp.RateLimit.{LimitConfig, new}
use miwidothttp.RateLimit.Window.{is_within, times}
use miwidothttp.Security.{
  Request, Response, SecurityConfig, size_limit_middleware, header_bytes, announced_length,
}
use miwidothttp.Security.Guards.{reached, rate_limit_middleware-bounded}

abbrev page : Response
page = record { status = 200; headers = ("x-frame-options", "ALLOWALL") ∷ []; body = "hello" }

abbrev next : Request ℕ → Response
next req = page

abbrev anonymous : Request ℕ
anonymous = record { headers = []; address = none }

abbrev limits : LimitConfig
limits = record { enable_rate_limiting = true; rate_limit_requests = 2; rate_limit_window = 60 }

rate_limit_middleware-bounded_example :
    length (
      retain (is_within 0 60) (
        times ⦃e = nat_eq⦄ 1 (
          reached ⦃e = nat_eq⦄ 1 next
            (new limits)
            ((anonymous, 1) ∷ (anonymous, 2) ∷ (anonymous, 3) ∷ []))))
    ≤ 2
rate_limit_middleware-bounded_example =
    rate_limit_middleware-bounded ⦃e = nat_eq⦄ 1 next limits
      ((anonymous, 1) ∷ (anonymous, 2) ∷ (anonymous, 3) ∷ []) 1 0 refl (omega arith)

abbrev config : SecurityConfig
config = record {
  enable_hsts = true;
  hsts_max_age = 60;
  enable_csp = true;
  csp_policy = "default-src 'self'";
  max_body_size = 10;
  max_header_size = 100;
}

-- Without Content-Length no body is too large.
chunked_passes : size_limit_middleware (λ s. 20) (λ s. none) config next anonymous ≡ page
unfolding size_limit_middleware header_bytes announced_length lookup
chunked_passes = refl
