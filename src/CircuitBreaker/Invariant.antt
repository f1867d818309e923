-- ===== src/CircuitBreaker/Invariant.antt =====
-- circuit_breaker.rs: what holds of a breaker after any interleaving of its callers' accesses.
use miwidothttp.Prelude.{
  ◌<◌, ◌≡◌, ◌≢◌, ◌⊎◌, refl, subst, sym, Bool, true, false, not, ◌&&◌, ◌||◌, none, List, [], ◌∷◌,
  ◌++◌, arith,
}
use miwidothttp.CircuitBreaker.{Config, CircuitBreaker, open_, new}
use miwidothttp.CircuitBreaker.Steps.{
  Action, read_failure, count_failure, set_open, clear_failures, clear_successes, record_failure,
  count_request, read_success, count_success, count_total, set_closed, set_half_open, clear_calls,
  read_state, check_reset, count_call, perform, IsCall, calls_at,
}
use miwidothttp.Tasks.{
  Pool, Step, Reach, spawns, runs, here, next, has, pending, pending-append, every, every-append,
}

-- Both thresholds are positive.
pub record IsProper (c : Config) : Type 0 where
  pub failure_pos : 0 < c.failure_threshold
  pub success_pos : 0 < c.success_threshold

abbrev pub clears_failures : Action → Bool
clears_failures clear_failures = true
clears_failures a = false

abbrev pub clears_successes : Action → Bool
clears_successes clear_successes = true
clears_successes a = false

abbrev pub records : Action → Bool
records (record_failure later) = true
records a = false

-- The steps of `on_failure` that may open the breaker.
abbrev may_open : Action → Bool
may_open read_failure = true
may_open count_failure = true
may_open set_open = true
may_open a = false

-- A task that may open the breaker is yet to record the time.
abbrev keeps_time : List Action → Bool
keeps_time [] = true
keeps_time (a ∷ more) = (not (may_open a) || has records more) && keeps_time more

-- The breaker's configuration is that given; where a counter has reached its threshold, a task is yet
-- to clear it; and where the breaker is open, a failure's time is recorded, or a task is yet to do so.
pub record Inv (c : Config) (b : CircuitBreaker)
    (clearing_failures clearing_successes recording : Bool) : Type 0 where
  pub same_config : b.config ≡ c
  pub failures_below : (b.failure_count < c.failure_threshold) ⊎ (clearing_failures ≡ true)
  pub successes_below : (b.success_count < c.success_threshold) ⊎ (clearing_successes ≡ true)
  pub open_has_failed : b.state ≡ open_ → (b.last_failure_time ≢ none) ⊎ (recording ≡ true)

perform-Inv :
    (c : Config) (a : Action) (rest : List Action) (b : CircuitBreaker) (f s r : Bool)
    → IsProper c
    → keeps_time (a ∷ rest) ≡ true
    → Inv c b
        (has clears_failures (a ∷ rest) || f)
        (has clears_successes (a ∷ rest) || s)
        (has records (a ∷ rest) || r)
    → (keeps_time ((perform a b).1 ++ rest) ≡ true)
      × (let next = (perform a b).1 ++ rest in
          Inv c
            (perform a b).0
            (has clears_failures next || f)
            (has clears_successes next || s)
            (has records next || r))
unfolding perform
perform-Inv c count_request rest b f s r p k v = ground arith
perform-Inv c read_success rest b f s r p k v = ground arith
perform-Inv c count_success rest b f s r p k v = ground arith
perform-Inv c read_failure rest b f s r p k v = ground arith
perform-Inv c count_failure rest b f s r p k v = ground arith
perform-Inv c count_total rest b f s r p k v = ground arith
perform-Inv c set_open rest b f s r p k v = ground arith
perform-Inv c set_closed rest b f s r p k v = ground arith
perform-Inv c set_half_open rest b f s r p k v = ground arith
perform-Inv c clear_failures rest b f s r p k v = ground arith
perform-Inv c clear_successes rest b f s r p k v = ground arith
perform-Inv c clear_calls rest b f s r p k v = ground arith
perform-Inv c (record_failure later) rest b f s r p k v = ground arith
perform-Inv c (read_state now true later) rest b f s r p k v = ground arith
perform-Inv c (read_state now false later) rest b f s r p k v = ground arith
perform-Inv c (check_reset now true later) rest b f s r p k v = ground arith
perform-Inv c (check_reset now false later) rest b f s r p k v = ground arith
perform-Inv c (count_call now true later) rest b f s r p k v = ground arith
perform-Inv c (count_call now false later) rest b f s r p k v = ground arith

abbrev pub Breaker : Type 0
Breaker = Pool CircuitBreaker Action

abbrev pub InvOf : Config → CircuitBreaker → List (List Action) → Type 0
InvOf c b tasks =
    (every keeps_time tasks ≡ true)
    × Inv c b (pending clears_failures tasks) (pending clears_successes tasks)
        (pending records tasks)

-- What holds of one task, in front of what holds of the others.
split-Inv :
    (c : Config) (b : CircuitBreaker) (before : List (List Action)) (task : List Action)
    (after : List (List Action))
    → InvOf c b (before ++ task ∷ after) ≡ (
        ((keeps_time task && (every keeps_time before && every keeps_time after)) ≡ true)
        × Inv c b
            (has clears_failures task
              || (pending clears_failures before || pending clears_failures after))
            (has clears_successes task
              || (pending clears_successes before || pending clears_successes after))
            (has records task || (pending records before || pending records after)))
split-Inv c b before task after =
    rw
      (
        every-append keeps_time before task after,
        pending-append clears_failures before task after,
        pending-append clears_successes before task after,
        pending-append records before task after,
      )
      refl

runs-Inv :
    (c : Config) (b : CircuitBreaker) (before : List (List Action)) (a : Action)
    (rest : List Action) (after : List (List Action))
    → IsProper c
    → InvOf c b (before ++ (a ∷ rest) ∷ after)
    → InvOf c (perform a b).0 (before ++ ((perform a b).1 ++ rest) ∷ after)
runs-Inv c b before a rest after p v =
    let (kept, inv) = subst (λ t. t) (split-Inv c b before (a ∷ rest) after) v in
    let (keeps, holds) =
      perform-Inv c a rest b (pending clears_failures before || pending clears_failures after)
        (pending clears_successes before || pending clears_successes after)
        (pending records before || pending records after) p (ground (arith, kept)) inv in
    subst (λ t. t) (sym (split-Inv c (perform a b).0 before ((perform a b).1 ++ rest) after))
      (ground (arith, keeps, kept), holds)

Step-Inv :
    (c : Config) (k n : Breaker)
    → IsProper c
    → Step perform IsCall k n
    → InvOf c k.shared k.tasks
    → InvOf c n.shared n.tasks
Step-Inv c k n p (spawns task (calls_at now f_ok later)) v = v
Step-Inv c k n p (runs before a rest after e) v =
    runs-Inv c k.shared before a rest after p (subst (λ ts. InvOf c k.shared ts) e v)

-- A new breaker that nobody calls.
abbrev pub idle : Config → Breaker
idle c = record { shared = new c; tasks = [] }

idle-Inv : (c : Config) → IsProper c → InvOf c (new c) []
unfolding new
idle-Inv c p = (refl, ground arith)

Reach-Inv :
    (c : Config) (k : Breaker)
    → IsProper c
    → Reach perform IsCall (idle c) k
    → InvOf c k.shared k.tasks
Reach-Inv c k p here = idle-Inv c p
Reach-Inv c k p (next {n} r s) = Step-Inv c n k p s (Reach-Inv c n p r)

-- Whatever the interleaving of the accesses of its callers by which a state is reached from a new
-- breaker with positive thresholds, the breaker keeps its configuration; where the count of failures
-- or of successes has reached its threshold, a caller is yet to clear it; and where the breaker is
-- open, the time of a failure is recorded, or a caller is yet to record one.
pub run-new-Inv :
    (c : Config) (k : Breaker)
    → IsProper c
    → Reach perform IsCall (idle c) k
    → Inv c k.shared
        (pending clears_failures k.tasks)
        (pending clears_successes k.tasks)
        (pending records k.tasks)
run-new-Inv c k p r = (Reach-Inv c k p r).1
