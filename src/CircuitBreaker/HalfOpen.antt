-- ===== src/CircuitBreaker/HalfOpen.antt =====
-- circuit_breaker.rs: the half-open state, its limit on calls, and when it is never left.
use miwidothttp.Prelude.{ℕ, ◌+◌, ◌-◌, ◌≤◌, ◌<◌, ◌≡◌, ◌⊎◌, true, some, List, [], ◌∷◌, arith, length}
use miwidothttp.CircuitBreaker.{CircuitBreaker, closed, open_, half_open, call, calls}

-- A half-open breaker in which fewer successes are counted than calls were let through.
record Probing (b : CircuitBreaker) (n : ℕ) : Type 0 where
  is_half_open : b.state ≡ half_open
  counted : b.success_count ≤ b.half_open_calls + 1
  capped : b.success_count ≤ b.config.half_open_max_calls + 1
  out_of_reach : b.config.half_open_max_calls + 1 < b.config.success_threshold
  room : b.half_open_calls + n < 4294967296
  narrow : b.config.half_open_max_calls + 1 < 4294967296

call-Probing :
    (b : CircuitBreaker) (now later n : ℕ) → Probing b (n + 1) → Probing (call b now true later).0 n
unfolding call
call-Probing b now later n p = ground arith

calls-Probing :
    (b : CircuitBreaker) (ts : List (ℕ × ℕ))
    → Probing b (length ts)
    → (calls b true ts).state ≡ half_open
unfolding calls
calls-Probing b [] p = p.is_half_open
calls-Probing b ((now, later) ∷ ts) p =
    calls-Probing (call b now true later).0 ts (call-Probing b now later (length ts) (ground arith))

first-Probing :
    (b : CircuitBreaker) (now later t n : ℕ)
    → b.state ≡ open_
    → b.last_failure_time ≡ some t
    → b.config.timeout ≤ now - t
    → b.config.half_open_max_calls + 1 < b.config.success_threshold
    → b.config.success_threshold < 4294967296
    → n < 4294967296
    → Probing (call b now true later).0 n
unfolding call
first-Probing b now later t n s l due far w h = ground arith

-- Where `success_threshold` is more than `half_open_max_calls + 1`, a breaker that has opened does
-- not close again however many calls succeed one after another, up to 2^32 of them: it stays half
-- open, since nothing lowers `half_open_calls` there.
pub half_open_stuck :
    (b : CircuitBreaker) (now later t : ℕ) (ts : List (ℕ × ℕ))
    → b.state ≡ open_
    → b.last_failure_time ≡ some t
    → b.config.timeout ≤ now - t
    → b.config.half_open_max_calls + 1 < b.config.success_threshold
    → b.config.success_threshold < 4294967296
    → length ts < 4294967296
    → (calls b true ((now, later) ∷ ts)).state ≡ half_open
unfolding calls
half_open_stuck b now later t ts s l due far w h =
    calls-Probing (call b now true later).0 ts
      (first-Probing b now later t (length ts) s l due far w h)

-- A half-open breaker lets calls through while `half_open_calls` is below `half_open_max_calls`,
-- and each such success counts; the one that reaches `success_threshold` closes the breaker, and
-- then all its counters of the round are 0.
pub half_open_success :
    (b : CircuitBreaker) (now later : ℕ)
    → b.state ≡ half_open
    → b.half_open_calls < b.config.half_open_max_calls
    → b.success_count + 1 < 4294967296
    → b.half_open_calls + 1 < 4294967296
    → let b' = (call b now true later).0 in
      ((b.success_count + 1 < b.config.success_threshold)
        × (b'.state ≡ half_open)
        × (b'.success_count ≡ b.success_count + 1)
        × (b'.half_open_calls ≡ b.half_open_calls + 1))
      ⊎ ((b.config.success_threshold ≤ b.success_count + 1)
          × (b'.state ≡ closed)
          × (b'.failure_count ≡ 0)
          × (b'.success_count ≡ 0)
          × (b'.half_open_calls ≡ 0))
unfolding call
half_open_success b now later s room w w' = ground arith
