-- ===== src/CircuitBreaker/Trip.antt =====
-- circuit_breaker.rs: how failures open the breaker, and what an open breaker does.
use miwidothttp.Prelude.{
  ℕ, ◌+◌, ◌-◌, ◌≤◌, ◌<◌, ◌≡◌, refl, ◌⊎◌, Bool, true, false, some, List, [], ◌∷◌, arith, length,
}
use miwidothttp.CircuitBreaker.{
  CircuitBreaker, closed, open_, half_open, rejected, failed, succeeded, call, calls, incr_u64,
}

call_failed_below :
    (b : CircuitBreaker) (now later : ℕ)
    → b.state ≡ closed
    → b.failure_count + 1 < b.config.failure_threshold
    → b.config.failure_threshold < 4294967296
    → let b' = (call b now false later).0 in
      (b'.state ≡ closed) × (b'.failure_count ≡ b.failure_count + 1) × (b'.config ≡ b.config)
unfolding call
call_failed_below b now later s h w = ground arith

call_failed_at :
    (b : CircuitBreaker) (now later : ℕ)
    → b.state ≡ closed
    → b.failure_count + 1 ≡ b.config.failure_threshold
    → b.config.failure_threshold < 4294967296
    → let b' = (call b now false later).0 in
      (b'.state ≡ open_) × (b'.last_failure_time ≡ some later)
unfolding call
call_failed_at b now later s h w = ground arith

-- A closed breaker stays closed, and counts, while the failures in a row stay below
-- `failure_threshold`.
pub failures_below_threshold :
    (b : CircuitBreaker) (ts : List (ℕ × ℕ))
    → b.state ≡ closed
    → b.failure_count + length ts < b.config.failure_threshold
    → b.config.failure_threshold < 4294967296
    → let b' = calls b false ts in
      (b'.state ≡ closed)
      × (b'.failure_count ≡ b.failure_count + length ts)
      × (b'.config ≡ b.config)
unfolding calls
failures_below_threshold b [] s h w = (s, omega arith, refl)
failures_below_threshold b ((now, later) ∷ ts) s h w =
    let (s', n, c) = call_failed_below b now later s (omega arith) w in
    ground (arith, failures_below_threshold (call b now false later).0 ts)

-- The failure in a row that reaches `failure_threshold` opens it, and its time is recorded.
pub failure_at_threshold_opens :
    (b : CircuitBreaker) (ts : List (ℕ × ℕ)) (now later : ℕ)
    → b.state ≡ closed
    → b.failure_count + length ts + 1 ≡ b.config.failure_threshold
    → b.config.failure_threshold < 4294967296
    → let b' = (call (calls b false ts) now false later).0 in
      (b'.state ≡ open_) × (b'.last_failure_time ≡ some later)
failure_at_threshold_opens b ts now later s h w =
    let (s', n, c) = failures_below_threshold b ts s (omega arith) w in
    call_failed_at (calls b false ts) now later s' (ground arith) (ground arith)

-- An open breaker whose last failure is less than `timeout` ago does not run the call: it only
-- counts the request. At `timeout` or later it runs it: a failure opens it again with the new
-- time, and a success closes it if one success is enough and else leaves it half open.
pub open_call :
    (b : CircuitBreaker) (now t : ℕ) (f_ok : Bool) (later : ℕ)
    → b.state ≡ open_
    → b.last_failure_time ≡ some t
    → let r = call b now f_ok later in
      ((now - t < b.config.timeout)
        × (r ≡ (record b { total_requests = incr_u64 b.total_requests }, rejected)))
      ⊎ ((b.config.timeout ≤ now - t)
          × (f_ok ≡ false)
          × (r.1 ≡ failed)
          × (r.0.state ≡ open_)
          × (r.0.last_failure_time ≡ some later))
      ⊎ ((b.config.timeout ≤ now - t)
          × (f_ok ≡ true)
          × (r.1 ≡ succeeded)
          × (b.config.success_threshold ≤ 1)
          × (r.0.state ≡ closed)
          × (r.0.failure_count ≡ 0))
      ⊎ ((b.config.timeout ≤ now - t)
          × (f_ok ≡ true)
          × (r.1 ≡ succeeded)
          × (1 < b.config.success_threshold)
          × (r.0.state ≡ half_open)
          × (r.0.success_count ≡ 1))
unfolding call
open_call b now t true later s l = ground arith
open_call b now t false later s l = ground arith
