-- ===== src/Health/Verdict.antt =====
-- cluster/health.rs: when a node counts as healthy, over any history of probes.
use miwidothttp.Prelude.{
  ℕ, suc, ◌%◌, ◌≡◌, refl, Bool, false, Option, none, some, List, [], ◌∷◌, String, string_eq, ◌=?◌,
  ltb, unwrap_or, if◌then◌else◌, arith, Bool-cases, inl, inr,
}
use text.Mathlib.TextEquality.{eq_iff}
use miwidothttp.Prelude.Assoc.{lookup, lookup-insert}
use miwidothttp.Health.{
  HealthCheck, HealthChecks, Probe, check_node, check_all_nodes, is_node_healthy, update, fresh,
  or_fresh,
}

-- How many probes of a node have failed since it last answered, if it was probed at all. The
-- argument is what is so before the probes of the list.
pub failures : String → Option ℕ → List Probe → Option ℕ
failures id before [] = before
failures id before (p ∷ ps) =
    failures id
      (if p.node_id =? id
        then some (if p.answered then 0 else suc (unwrap_or before 0))
        else before)
      ps

-- The table's entry for a node agrees with the number of failures.
abbrev Agrees : Option ℕ → Option HealthCheck → Type 0
Agrees none none = Unit {0}
Agrees none (some c) = ⊥
Agrees (some n) none = ⊥
Agrees (some n) (some c) = (c.consecutive_failures ≡ n % 4294967296) × (c.is_healthy ≡ ltb n 3)

update-Agrees :
    (p : Probe) (n : Option ℕ) (o : Option HealthCheck)
    → Agrees n o
    → Agrees
        (some (if p.answered then 0 else suc (unwrap_or n 0)))
        (some (update p (or_fresh o (fresh p))))
unfolding update fresh
update-Agrees p none none h = ground arith
update-Agrees p none (some c) h = absurd h
update-Agrees p (some n) none h = absurd h
update-Agrees p (some n) (some c) h = ground arith

check-Agrees :
    (id : String) (p : Probe) (n : Option ℕ) (checks : HealthChecks)
    → Agrees n (lookup id checks)
    → Agrees
        (if p.node_id =? id then some (if p.answered then 0 else suc (unwrap_or n 0)) else n)
        (lookup id (check_node p checks))
unfolding check_node
check-Agrees id p n checks h = elim (Bool-cases (p.node_id =? id)) [
  | inl same ↦
      let e : p.node_id ≡ id = (eq_iff p.node_id id).0 same in
      let v = update p (or_fresh (lookup p.node_id checks) (fresh p)) in
      rw (lookup-insert p.node_id id v checks, same)
        (update-Agrees p n (lookup p.node_id checks) (rw e h))
  | inr other ↦
      rw
        (
          lookup-insert p.node_id id (update p (or_fresh (lookup p.node_id checks) (fresh p)))
              checks,
          other,
        )
        h
]

all-Agrees :
    (id : String) (ps : List Probe) (n : Option ℕ) (checks : HealthChecks)
    → Agrees n (lookup id checks)
    → Agrees (failures id n ps) (lookup id (check_all_nodes ps checks))
unfolding failures check_all_nodes
all-Agrees id [] n checks h = h
all-Agrees id (p ∷ ps) n checks h =
    all-Agrees id ps
      (if p.node_id =? id then some (if p.answered then 0 else suc (unwrap_or n 0)) else n)
      (check_node p checks) (check-Agrees id p n checks h)

verdict :
    (n : Option ℕ) (o : Option HealthCheck)
    → Agrees n o
    → ◌≡◌ {A = Bool}
        (elim o [ none ↦ false | some c ↦ c.is_healthy ])
        (elim n [ none ↦ false | some k ↦ ltb k 3 ])
verdict none none h = refl
verdict none (some c) h = absurd h
verdict (some n) none h = absurd h
verdict (some n) (some c) h = h.1

-- Whatever nodes were probed, and in whatever order, a node counts as healthy exactly if it was
-- probed and fewer than three of its probes have failed since it last answered. That holds also
-- where the counter of failures has wrapped.
pub is_node_healthy_lem :
    (id : String) (ps : List Probe)
    → is_node_healthy id (check_all_nodes ps [])
      ≡ elim (failures id none ps) [ none ↦ false | some n ↦ ltb n 3 ]
unfolding is_node_healthy
is_node_healthy_lem id ps =
    verdict (failures id none ps) (lookup id (check_all_nodes ps []))
      (all-Agrees id ps none [] (unfold lookup in tt))
