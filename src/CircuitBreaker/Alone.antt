-- ===== src/CircuitBreaker/Alone.antt =====
-- circuit_breaker.rs: the steps of a call that runs with no other, against the call as one transition.
use miwidothttp.Prelude.{ℕ, ◌≡◌, Bool, true, false, [], ◌∷◌, arith}
use miwidothttp.CircuitBreaker.{CircuitBreaker, call}
use miwidothttp.CircuitBreaker.Steps.{count_request, read_state, perform}
use miwidothttp.Tasks.{alone}

-- With no other caller in between, the steps of a call make the transition of `call`: twelve are
-- enough.
pub call-alone :
    (b : CircuitBreaker) (now : ℕ) (f_ok : Bool) (later : ℕ)
    → alone perform 12 (count_request ∷ read_state now f_ok later ∷ []) b
      ≡ (call b now f_ok later).0
unfolding alone perform call
call-alone b now true later = ground arith
call-alone b now false later = ground arith
