-- ===== src/CircuitBreaker/Tests.antt =====
-- circuit_breaker.rs: runs at concrete inputs.
use miwidothttp.Prelude.{◌≡◌, refl, true, false, some, [], ◌∷◌, arith}
use miwidothttp.CircuitBreaker.{Config, CircuitBreaker, closed, open_, half_open, new, calls}
use miwidothttp.CircuitBreaker.Steps.{
  clear_failures, clear_successes, record_failure, count_request, count_total, count_failure,
  read_failure, read_state, set_open, perform, IsCall, calls_at,
}
use miwidothttp.CircuitBreaker.Invariant.{IsProper, Inv, Breaker, idle, run-new-Inv}
use miwidothttp.Tasks.{Reach, here, next, spawns, runs}

abbrev config : Config
config = record {
  failure_threshold = 3;
  success_threshold = 2;
  timeout = 10;
  half_open_max_calls = 2;
}

abbrev opened : CircuitBreaker
opened = record {
  config = config;
  state = open_;
  failure_count = 0;
  success_count = 0;
  half_open_calls = 0;
  last_failure_time = some 5;
  total_requests = 3;
  total_failures = 3;
}

-- Five successes are wanted, and at most two calls of a round are let through.
abbrev greedy : CircuitBreaker
greedy = record opened { config = record config { success_threshold = 5 } }

abbrev probing : CircuitBreaker
probing = record opened { state = half_open; success_count = 1; half_open_calls = 1 }

config-IsProper : IsProper config
config-IsProper = omega arith

-- Three failures in a row open a new breaker.
opens : calls (new config) false ((1, 2) ∷ (3, 4) ∷ (4, 5) ∷ []) ≡ opened
unfolding calls new
opens = refl

-- It rejects at 14, tries at 15, and two successes close it.
recovers : (calls opened true ((14, 14) ∷ (15, 16) ∷ (17, 18) ∷ [])).state ≡ closed
unfolding calls
recovers = refl

-- One failure opens the breaker.
abbrev eager : Config
eager = record config { failure_threshold = 1 }

-- A caller has set the state, but not yet the time: other callers see an open breaker without one.
abbrev opened_early : Breaker
opened_early = record {
  shared = record (new eager) {
    state = open_;
    failure_count = 1;
    total_requests = 1;
    total_failures = 1;
  };
  tasks = (clear_failures ∷ clear_successes ∷ record_failure 2 ∷ []) ∷ [];
}

reached_early : Reach perform IsCall (idle eager) opened_early
unfolding perform new
reached_early =
    next
      (next
        (next
          (next
            (next
              (next
                (next here
                  (spawns (count_request ∷ read_state 1 false 2 ∷ []) (calls_at 1 false 2)))
                (runs [] count_request (read_state 1 false 2 ∷ []) [] refl))
              (runs [] (read_state 1 false 2) [] [] refl))
            (runs [] count_total (read_failure ∷ record_failure 2 ∷ []) [] refl))
          (runs [] read_failure (record_failure 2 ∷ []) [] refl))
        (runs [] count_failure (record_failure 2 ∷ []) [] refl))
      (runs [] set_open (clear_failures ∷ clear_successes ∷ record_failure 2 ∷ []) [] refl)

eager-IsProper : IsProper eager
eager-IsProper = omega arith

run-new-Inv_example : Inv eager opened_early.shared true true true
run-new-Inv_example = run-new-Inv eager opened_early eager-IsProper reached_early
