-- ===== src/RateLimit/Tests.antt =====
-- security.rs: the limiter at concrete inputs.
use miwidothttp.Prelude.{
  ℕ, ◌≤◌, ◌≡◌, refl, true, false, List, [], ◌∷◌, length, retain, arith, nat_eq,
}
use miwidothttp.Prelude.Assoc.{lookup, insert}
use miwidothttp.RateLimit.{LimitConfig, new, check_all, admitted}
use miwidothttp.RateLimit.Window.{times, spec_all, limiter_refines, is_within, window_bound}

abbrev config : LimitConfig
config = record { enable_rate_limiting = true; rate_limit_requests = 2; rate_limit_window = 10 }

-- Address 7 uses up its two requests, 8 is not affected, and at 12 the first of 7 has run out.
abbrev requests : List (ℕ × ℕ)
requests = (7, 1) ∷ (7, 5) ∷ (7, 6) ∷ (8, 6) ∷ (7, 10) ∷ (7, 11) ∷ (7, 12) ∷ []

answers : check_all (new config) requests ≡ true ∷ true ∷ false ∷ true ∷ false ∷ true ∷ false ∷ []
unfolding check_all new lookup insert
answers = refl

limiter_refines_example : check_all (new config) requests ≡ spec_all config [] requests
limiter_refines_example = limiter_refines config requests refl (omega arith)

window_bound_example :
    length (retain (is_within 2 10) (times 7 (admitted (new config) requests))) ≤ 2
window_bound_example = window_bound config requests 7 2 refl (omega arith)
