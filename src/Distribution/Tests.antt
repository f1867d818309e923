-- ===== src/Distribution/Tests.antt =====
-- cluster/distribution.rs: a ring of two nodes, and moves of keys at concrete inputs.
use miwidothttp.Prelude.{
  ℕ, ◌≡◌, refl, ◌⊎◌, inl, inr, true, false, Option, none, some, List, [], ◌∷◌, String, contains,
  ◌+◌, contains_text, string_eq, split_head, if◌then◌else◌, arith, unwrap_or, subst, Bool-cases,
}
use miwidothttp.Prelude.Assoc.{lookup, insert}
use miwidothttp.Distribution.{
  DistributionManager, new, node_of, walk_step, walk_ring, get_replicas_for_key, reassign,
  redistribute_load,
}
use miwidothttp.Distribution.Migration.{
  returned, waiting, panicked, plan_moves, plan_of, key_distribution, rebalance,
  rebalance_never_moves,
}
use miwidothttp.Distribution.Replicas.{RingWithin, replicas_never_found}

-- Keys with an underscore are on n2, all others on n1.
abbrev ring : String → Option String
ring key = if contains_text key "_" then some "n2:7" else some "n1:3"

abbrev found : List String
found = "n2" ∷ "n1" ∷ []

abbrev two : List String
two = "n1" ∷ "n2" ∷ []

ring_node : (k : String) → contains two (node_of (unwrap_or (ring k) "")) ≡ true
unfolding split_head
ring_node k = elim (Bool-cases (contains_text k "_")) [
  | inl under ↦ rw under refl
  | inr plain ↦ rw plain refl
]

ring-RingWithin : RingWithin ring two
ring-RingWithin k v h = subst (λ o. contains two (node_of (unwrap_or o "")) ≡ true) h (ring_node k)

found_two : get_replicas_for_key ring 2 "k" 2 ≡ some found
unfolding get_replicas_for_key walk_ring walk_step split_head
found_two = refl

replicas_never_found_example : get_replicas_for_key ring 1000 "k" 3 ≡ none
replicas_never_found_example =
    replicas_never_found ring two 1000 3 "k" "n1:3" ring-RingWithin (omega arith) refl

-- All keys are on n1.
abbrev uneven : DistributionManager
uneven = record new { key_mappings = ("a", "n1") ∷ ("b_", "n1") ∷ ("c", "n1") ∷ ("d", "n1") ∷ [] }

rebalance_never_moves_example :
    ((uneven.writer_waits ≡ true) × (rebalance two 5 uneven ≡ waiting uneven))
    ⊎ (((uneven.writer_waits ≡ false) × (two ≡ []) × (rebalance two 5 uneven ≡ panicked))
        ⊎ (((uneven.writer_waits ≡ false)
              × (plan_of two uneven ≡ [])
              × (rebalance two 5 uneven ≡ returned uneven))
            ⊎ ((w : DistributionManager) × (rebalance two 5 uneven ≡ waiting w)
                × (w.key_mappings ≡ uneven.key_mappings)
                × (w.readers ≡ uneven.readers + 1)
                × ((uneven.migrating ≡ true)
                    ⊎ ((w.migration_state.active ≡ true)
                        × ((others : List String) (later : ℕ)
                            → rebalance others later w ≡ waiting w))))))
rebalance_never_moves_example = rebalance_never_moves two 5 uneven

-- There is something to move, and what the plan would do if the lock were free.
planned :
    (plan_moves 2 (key_distribution uneven.key_mappings []) two
      ≡ record { node = "n1"; amount = 2; is_source = true }
        ∷ record { node = "n2"; amount = 2; is_source = false }
        ∷ [])
unfolding plan_moves key_distribution lookup insert
planned = refl

after_failure :
    (redistribute_load ring "n1" uneven).key_mappings
    ≡ ("a", "n1") ∷ ("b_", "n2") ∷ ("c", "n1") ∷ ("d", "n1") ∷ []
unfolding redistribute_load reassign insert split_head
after_failure = refl
