-- ===== src/CircuitBreaker.antt =====
-- circuit_breaker.rs (src/circuit_breaker.rs): the breaker's state and its methods.
-- `Instant` is a count of ticks of the monotonic clock, and `Instant::now()` an argument `now` of
-- each method that reads it; `elapsed()` of a later instant is 0, as in the standard library. An
-- atomic counter wraps at its width. The methods here are one call with no other access of the breaker
-- in between; Steps has their single accesses, between which other callers may run. Logging is left
-- out.
use miwidothttp.Prelude.{
  ℕ, ◌+◌, ◌-◌, ◌%◌, ◌^◌, Bool, true, false, Option, none, some, List, [], ◌∷◌, leb, if◌then◌else◌,
}
pub mod Steps
pub mod Alone
pub mod Invariant
pub mod Trip
pub mod HalfOpen
mod Tests

pub record Config : Type 0 where
  pub failure_threshold : ℕ
  pub success_threshold : ℕ
  pub timeout : ℕ
  pub half_open_max_calls : ℕ

pub data State : Type 0 where
  closed open_ half_open : State

pub record CircuitBreaker : Type 0 where
  pub config : Config
  pub state : State
  pub failure_count : ℕ
  pub success_count : ℕ
  pub half_open_calls : ℕ
  pub last_failure_time : Option ℕ
  pub total_requests : ℕ
  pub total_failures : ℕ

-- `fetch_add(1)` on an AtomicU32 and on an AtomicU64.
abbrev pub incr_u32 : ℕ → ℕ
incr_u32 n = (n + 1) % 4294967296

abbrev pub incr_u64 : ℕ → ℕ
incr_u64 n = (n + 1) % 18446744073709551616

pub new : Config → CircuitBreaker
new c = record {
  config = c;
  state = closed;
  failure_count = 0;
  success_count = 0;
  half_open_calls = 0;
  last_failure_time = none;
  total_requests = 0;
  total_failures = 0;
}

pub transition_to_open : CircuitBreaker → CircuitBreaker
transition_to_open b = record b { state = open_; failure_count = 0; success_count = 0 }

pub transition_to_closed : CircuitBreaker → CircuitBreaker
transition_to_closed b = record b {
  state = closed;
  failure_count = 0;
  success_count = 0;
  half_open_calls = 0;
}

pub transition_to_half_open : CircuitBreaker → CircuitBreaker
transition_to_half_open b = record b { state = half_open; success_count = 0; half_open_calls = 0 }

pub should_attempt_reset : CircuitBreaker → ℕ → Bool
should_attempt_reset b now = elim b.last_failure_time [
  | none ↦ false
  | some last_failure ↦ leb b.config.timeout (now - last_failure)
]

-- `call` up to `f()`: the flag says whether `f` runs.
admit_in : State → CircuitBreaker → ℕ → CircuitBreaker × Bool
unfolding should_attempt_reset transition_to_half_open
admit_in open_ b now =
    if should_attempt_reset b now then (transition_to_half_open b, true) else (b, false)
admit_in half_open b now = (
  record b { half_open_calls = incr_u32 b.half_open_calls },
  if leb b.config.half_open_max_calls b.half_open_calls then false else true,
)
admit_in closed b now = (b, true)

pub admit : CircuitBreaker → ℕ → CircuitBreaker × Bool
unfolding admit_in
admit b now = admit_in b.state (record b { total_requests = incr_u64 b.total_requests }) now

on_success_in : State → CircuitBreaker → CircuitBreaker
unfolding transition_to_closed
on_success_in closed b = record b { failure_count = 0 }
on_success_in half_open b =
    let successes = incr_u32 b.success_count in
    let b' = record b { success_count = successes } in
    if leb b.config.success_threshold successes then transition_to_closed b' else b'
on_success_in open_ b = b

pub on_success : CircuitBreaker → CircuitBreaker
unfolding on_success_in
on_success b = on_success_in b.state b

on_failure_in : State → CircuitBreaker → CircuitBreaker
unfolding transition_to_open
on_failure_in closed b =
    let failures = incr_u32 b.failure_count in
    let b' = record b { failure_count = failures } in
    if leb b.config.failure_threshold failures then transition_to_open b' else b'
on_failure_in half_open b = transition_to_open b
on_failure_in open_ b = b

pub on_failure : CircuitBreaker → ℕ → CircuitBreaker
unfolding on_failure_in
on_failure b now =
    let b' = on_failure_in b.state (record b { total_failures = incr_u64 b.total_failures }) in
    record b' { last_failure_time = some now }

-- `call` after `f()` has returned: `Ok` is true, `Err` is false.
pub finish : CircuitBreaker → Bool → ℕ → CircuitBreaker
unfolding on_success on_failure
finish b true now = on_success b
finish b false now = on_failure b now

pub data Outcome : Type 0 where
  rejected failed succeeded : Outcome

-- The whole of `call`, with nobody else in between: `f_ok` is what `f` would return, at `later`.
pub call : CircuitBreaker → ℕ → Bool → ℕ → CircuitBreaker × Outcome
unfolding admit finish
call b now f_ok later =
    let (b', runs) = admit b now in
    if runs then (finish b' f_ok later, if f_ok then succeeded else failed) else (b', rejected)

-- One caller after another: each call has the times before and after `f`, and `f` returns `f_ok`.
pub calls : CircuitBreaker → Bool → List (ℕ × ℕ) → CircuitBreaker
unfolding call
calls b f_ok [] = b
calls b f_ok ((now, later) ∷ ts) = calls (call b now f_ok later).0 f_ok ts

pub record CircuitBreakerStats : Type 0 where
  pub total_requests : ℕ
  pub total_failures : ℕ
  pub current_failures : ℕ
  pub current_successes : ℕ

pub get_stats : CircuitBreaker → CircuitBreakerStats
get_stats b = record {
  total_requests = b.total_requests;
  total_failures = b.total_failures;
  current_failures = b.failure_count;
  current_successes = b.success_count;
}
