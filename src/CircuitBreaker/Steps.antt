-- ===== src/CircuitBreaker/Steps.antt =====
-- circuit_breaker.rs: `call` as a task whose steps are single accesses of the breaker. A transition
-- holds the lock of the state over its stores, but the counters are changed without that lock, so its
-- stores are steps of their own. What `f` returns, and the times read, are given with the call.
use miwidothttp.Prelude.{ℕ, Bool, true, false, List, [], ◌∷◌, some, leb, if◌then◌else◌}
use miwidothttp.CircuitBreaker.{
  CircuitBreaker, State, closed, open_, half_open, incr_u32, incr_u64, should_attempt_reset,
}

pub data Action : Type 0 where
  count_request read_success count_success read_failure count_failure count_total : Action
  set_open set_closed set_half_open clear_failures clear_successes clear_calls : Action
  record_failure : ℕ → Action
  read_state check_reset count_call : (now : ℕ) (f_ok : Bool) (later : ℕ) → Action

-- What follows on `f()`.
abbrev pub after_f : Bool → ℕ → List Action
after_f true later = read_success ∷ []
after_f false later = count_total ∷ read_failure ∷ record_failure later ∷ []

abbrev pub to_open : List Action
to_open = set_open ∷ clear_failures ∷ clear_successes ∷ []

abbrev pub to_closed : List Action
to_closed = set_closed ∷ clear_failures ∷ clear_successes ∷ clear_calls ∷ []

abbrev pub on_state : State → ℕ → Bool → ℕ → List Action
on_state open_ now f_ok later = check_reset now f_ok later ∷ []
on_state half_open now f_ok later = count_call now f_ok later ∷ []
on_state closed now f_ok later = after_f f_ok later

abbrev pub on_success_state : State → List Action
on_success_state closed = clear_failures ∷ []
on_success_state half_open = count_success ∷ []
on_success_state open_ = []

abbrev pub on_failure_state : State → List Action
on_failure_state closed = count_failure ∷ []
on_failure_state half_open = to_open
on_failure_state open_ = []

-- What a step does, and what its task has to do next.
unfoldable pub perform : Action → CircuitBreaker → CircuitBreaker × List Action
unfolding should_attempt_reset
perform count_request b = (record b { total_requests = incr_u64 b.total_requests }, [])
perform (read_state now f_ok later) b = (b, on_state b.state now f_ok later)
perform (check_reset now f_ok later) b = (
  b,
  if should_attempt_reset b now
      then set_half_open ∷ clear_successes ∷ clear_calls ∷ after_f f_ok later
      else [],
)
perform (count_call now f_ok later) b = (
  record b { half_open_calls = incr_u32 b.half_open_calls },
  if leb b.config.half_open_max_calls b.half_open_calls then [] else after_f f_ok later,
)
perform read_success b = (b, on_success_state b.state)
perform count_success b =
    let successes = incr_u32 b.success_count in
    (
      record b { success_count = successes },
      if leb b.config.success_threshold successes then to_closed else [],
    )
perform count_total b = (record b { total_failures = incr_u64 b.total_failures }, [])
perform read_failure b = (b, on_failure_state b.state)
perform count_failure b =
    let failures = incr_u32 b.failure_count in
    (
      record b { failure_count = failures },
      if leb b.config.failure_threshold failures then to_open else [],
    )
perform (record_failure later) b = (record b { last_failure_time = some later }, [])
perform set_open b = (record b { state = open_ }, [])
perform set_closed b = (record b { state = closed }, [])
perform set_half_open b = (record b { state = half_open }, [])
perform clear_failures b = (record b { failure_count = 0 }, [])
perform clear_successes b = (record b { success_count = 0 }, [])
perform clear_calls b = (record b { half_open_calls = 0 }, [])

-- The task of a caller.
pub data IsCall : List Action → Type 0 where
  calls_at :
      (now : ℕ) (f_ok : Bool) (later : ℕ) → IsCall (count_request ∷ read_state now f_ok later ∷ [])
