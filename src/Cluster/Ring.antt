-- ===== src/Cluster/Ring.antt =====
-- cluster/mod.rs: the sizes of the ring and of what is read from it, and of the statistics.
use miwidothttp.Prelude.{
  ℕ, zero, suc, ◌+◌, ◌-◌, ◌*◌, ◌≤◌, ◌<◌, ◌≡◌, refl, false, Bool-cases, inl, inr, Option, List, [],
  ◌∷◌, String, length, length-append, length-take-le, retain, not, ◌&&◌, ◌=?◌, string_eq, arith,
  Option-cases,
}
use miwidothttp.Cluster.{
  ClusterManager, Nodes, NodeState, joining, active, leaving, failed, suspended, is_active,
  is_failed, virtual_nodes, ring_of, update_hash_ring, active_ids, get_replicas_for_key,
  get_cluster_stats,
}

length-virtual_nodes : (id : String) (i n : ℕ) → length (virtual_nodes id i n) ≡ n
unfolding virtual_nodes
length-virtual_nodes id i zero = refl
length-virtual_nodes id i (suc n) = omega (arith, length-virtual_nodes id (i + 1) n)

active_or_failed : (s : NodeState) → (is_active s && is_failed s) ≡ false
active_or_failed joining = refl
active_or_failed active = refl
active_or_failed leaving = refl
active_or_failed failed = refl
active_or_failed suspended = refl

module _ {F : Type 0} where
  length-ring_of :
      (nodes : Nodes F)
      → length (ring_of nodes) ≡ 150 * length (retain (λ e. is_active (e.1).state) nodes)
  unfolding ring_of
  length-ring_of [] = refl
  length-ring_of ((id, n) ∷ rest) = elim (Bool-cases (is_active n.state)) [
    | inl on ↦
        rw (on, length-append (virtual_nodes id 0 150) (ring_of rest))
          (omega (arith, length-virtual_nodes id 0 150, length-ring_of rest))
    | inr off ↦ rw off (length-ring_of rest)
  ]

  -- No state is both active and failed.
  active_failed_le :
      (nodes : Nodes F)
      → length (retain (λ e. is_active (e.1).state) nodes)
          + length (retain (λ e. is_failed (e.1).state) nodes)
        ≤ length nodes
  active_failed_le [] = omega arith
  active_failed_le ((id, n) ∷ rest) =
      ground (arith, active_or_failed n.state, active_failed_le rest)

  -- The active and the failed nodes together are at most all nodes, the totals of the capacities and
  -- of the loads fit in 32 bits, and a new ring has 150 entries for each node counted as active.
  pub get_cluster_stats-bounded :
      (average : List F → F) (m : ClusterManager F)
      → let s = get_cluster_stats average m in
        (s.active_nodes + s.failed_nodes ≤ s.total_nodes)
        × (s.total_capacity < 4294967296)
        × (s.total_load < 4294967296)
        × (length (update_hash_ring m).hash_ring ≡ 150 * s.active_nodes)
  unfolding get_cluster_stats update_hash_ring
  get_cluster_stats-bounded average m =
      (active_failed_le m.nodes, omega arith, omega arith, length-ring_of m.nodes)

  pub get_replicas_for_key-bounded :
      (ring_get : List String → String → Option String) (key : String) (m : ClusterManager F)
      → (length (get_replicas_for_key ring_get key m) ≤ 1 + (m.config.replication_factor - 1))
  unfolding get_replicas_for_key
  get_replicas_for_key-bounded ring_get key m = elim (Option-cases (ring_get m.hash_ring key)) [
    | inl missing ↦ rw (get_replicas_for_key, missing) (omega arith)
    | inr (primary, found) ↦
        rw (get_replicas_for_key, found)
          (omega (
            arith,
            length-take-le (m.config.replication_factor - 1)
                (retain (λ id. not (id =? primary)) (active_ids m.nodes)),
          ))
  ]
