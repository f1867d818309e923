-- ===== src/RateLimit.antt =====
-- security.rs (src/security.rs): `RateLimiter`. `IpAddr` is any type with equality, `Instant` a
-- count of ticks, and `Instant::now()` the argument `now`; `duration_since` of a later instant is
-- 0, as in the standard library. `check_rate_limit` holds the map's lock for its whole body.
use miwidothttp.Prelude.{
  ℕ, ◌+◌, ◌-◌, Bool, true, false, Option, none, some, List, [], ◌∷◌, ◌++◌, length, retain, leb, ltb,
  unwrap_or, Eq, if◌then◌else◌,
}
use miwidothttp.Prelude.Assoc.{lookup, insert}
pub mod Window
mod Tests

-- The fields of `SecurityConfig` that the limiter reads.
pub record LimitConfig : Type 0 where
  pub enable_rate_limiting : Bool
  pub rate_limit_requests : ℕ
  pub rate_limit_window : ℕ

pub record RateLimiter (Ip : Type 0) : Type 0 where
  pub requests : List (Ip × List ℕ)
  pub config : LimitConfig

-- `now.duration_since(*t) < rate_limit_window`.
abbrev pub is_recent : ℕ → ℕ → ℕ → Bool
is_recent window now t = ltb (now - t) window

module _ {Ip : Type 0} where
  pub new : LimitConfig → RateLimiter Ip
  new c = record { requests = []; config = c }

module _ {Ip : Type 0} ⦃e : Eq Ip⦄ where
  -- The timestamps kept for an address: none where it has no entry yet.
  unfoldable pub timestamps : Ip → RateLimiter Ip → List ℕ
  timestamps ip l = unwrap_or (lookup ip l.requests) []

  unfoldable pub check_rate_limit : Ip → ℕ → RateLimiter Ip → RateLimiter Ip × Bool
  unfolding timestamps
  check_rate_limit ip now l =
      let kept = retain (is_recent l.config.rate_limit_window now) (timestamps ip l) in
      if l.config.enable_rate_limiting
      then (if leb l.config.rate_limit_requests (length kept)
          then (record l { requests = insert ip kept l.requests }, false)
          else (record l { requests = insert ip (kept ++ now ∷ []) l.requests }, true))
      else (l, true)

  -- The answers to a series of requests, each an address and a time.
  pub check_all : RateLimiter Ip → List (Ip × ℕ) → List Bool
  unfolding check_rate_limit
  check_all l [] = []
  check_all l ((ip, now) ∷ rs) = let (l', ok) = check_rate_limit ip now l in ok ∷ check_all l' rs

  -- The requests of a series that are let through.
  unfoldable pub admitted : RateLimiter Ip → List (Ip × ℕ) → List (Ip × ℕ)
  unfolding check_rate_limit
  admitted l [] = []
  admitted l ((ip, now) ∷ rs) =
      let (l', ok) = check_rate_limit ip now l in
      let rest = admitted l' rs in if ok then (ip, now) ∷ rest else rest
