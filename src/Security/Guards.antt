-- ===== src/Security/Guards.antt =====
-- security.rs: how many requests get past the limiter's middleware.
use miwidothttp.Prelude.{
  ℕ, ◌≤◌, ◌≡◌, refl, ap, true, List, [], ◌∷◌, map, length, retain, unwrap_or, Eq, if◌then◌else◌,
  Bool-cases, inl, inr,
}
use miwidothttp.RateLimit.{RateLimiter, LimitConfig, check_rate_limit, admitted, new}
use miwidothttp.RateLimit.Window.{is_within, times, Ordered, window_bound}
use miwidothttp.Security.{Request, Response, rate_limit_middleware}

module _ {Ip : Type 0} ⦃e : Eq Ip⦄ (local_host : Ip) (next : Request Ip → Response) where
  -- The address that a request counts for, with the time of the request.
  abbrev pub counted : Request Ip × ℕ → Ip × ℕ
  counted r = (unwrap_or r.0.address local_host, r.1)

  -- The requests for which `next` runs, by the addresses that they count for.
  unfoldable pub reached : RateLimiter Ip → List (Request Ip × ℕ) → List (Ip × ℕ)
  reached l [] = []
  reached l (r ∷ rs) =
      let answer = rate_limit_middleware local_host r.1 next r.0 l in
      let rest = reached answer.0 rs in if answer.2 then counted r ∷ rest else rest

  reached-admitted :
      (l : RateLimiter Ip) (rs : List (Request Ip × ℕ)) → reached l rs ≡ admitted l (map counted rs)
  unfolding reached rate_limit_middleware admitted
  reached-admitted l [] = refl
  reached-admitted l (r ∷ rs) =
      let ip = unwrap_or r.0.address local_host in
      elim (Bool-cases (check_rate_limit ip r.1 l).1) [
        | inl ok ↦
            rw (reached, rate_limit_middleware, admitted, ok)
              (ap (λ xs. counted r ∷ xs) (reached-admitted (check_rate_limit ip r.1 l).0 rs))
        | inr refused ↦
            rw (reached, rate_limit_middleware, admitted, refused)
              (reached-admitted (check_rate_limit ip r.1 l).0 rs)
      ]

  -- With a limiter that is enabled, over requests in the order of their times, the rest of the
  -- program runs for at most `rate_limit_requests` requests that count for one address, its own or,
  -- where a request has none, the local host's, in any window of the configured length.
  pub rate_limit_middleware-bounded :
      (c : LimitConfig) (rs : List (Request Ip × ℕ)) (ip : Ip) (s : ℕ)
      → c.enable_rate_limiting ≡ true
      → Ordered 0 (map counted rs)
      → length (retain (is_within s c.rate_limit_window) (times ip (reached (new c) rs)))
        ≤ c.rate_limit_requests
  rate_limit_middleware-bounded c rs ip s on ordered =
      rw (reached-admitted (new c) rs) (window_bound c (map counted rs) ip s on ordered)
