-- ===== src/Health.antt =====
-- cluster/health.rs (src/cluster/health.rs): the health monitor's table. The ping of a node is
-- outside; its answer and the time it took are part of a `Probe`, and the clock is read once for
-- each probe. The counter of failures is a u32 and wraps.
use miwidothttp.Prelude.{
  ℕ, ◌+◌, ◌%◌, Bool, true, false, Option, none, some, List, [], ◌∷◌, String, string_eq, leb,
  if◌then◌else◌,
}
use miwidothttp.Prelude.Assoc.{lookup, insert}
pub mod Verdict
mod Tests

pub record HealthCheck : Type 0 where
  pub node_id : String
  pub last_check : ℕ
  pub last_success : ℕ
  pub consecutive_failures : ℕ
  pub is_healthy : Bool
  pub response_time_ms : ℕ

pub record Probe : Type 0 where
  pub node_id : String
  pub answered : Bool
  pub now : ℕ
  pub response_time : ℕ

abbrev pub HealthChecks : Type 0
HealthChecks = List (String × HealthCheck)

-- `or_insert`: the entry of a node that is checked for the first time.
fresh : Probe → HealthCheck
fresh p = record {
  node_id = p.node_id;
  last_check = p.now;
  last_success = p.now;
  consecutive_failures = 0;
  is_healthy = true;
  response_time_ms = 0;
}

abbrev or_fresh : Option HealthCheck → HealthCheck → HealthCheck
or_fresh none c = c
or_fresh (some c) d = c

update : Probe → HealthCheck → HealthCheck
update p c =
    let c' = record c { last_check = p.now; response_time_ms = p.response_time } in
    let failures = (c.consecutive_failures + 1) % 4294967296 in
    if p.answered
    then record c' { last_success = p.now; consecutive_failures = 0; is_healthy = true }
    else record c' {
      consecutive_failures = failures;
      is_healthy = if leb 3 failures then false else c.is_healthy;
    }

-- The body of the loop of `check_all_nodes`.
pub check_node : Probe → HealthChecks → HealthChecks
unfolding fresh update
check_node p checks =
    insert p.node_id (update p (or_fresh (lookup p.node_id checks) (fresh p))) checks

unfoldable pub check_all_nodes : List Probe → HealthChecks → HealthChecks
unfolding check_node
check_all_nodes [] checks = checks
check_all_nodes (p ∷ ps) checks = check_all_nodes ps (check_node p checks)

pub is_node_healthy : String → HealthChecks → Bool
is_node_healthy node_id checks = elim (lookup node_id checks) [
  | none ↦ false
  | some c ↦ c.is_healthy
]
