-- ===== src/Distribution.antt =====
-- cluster/distribution.rs (src/cluster/distribution.rs): which node keeps a key, its replicas, and
-- the moves of keys between nodes. The ring of the crate hashring is the argument `ring_get`, its
-- `get`; a virtual node is the text `<node id>:<number>`. Weights and the scores that two of the
-- algorithms compute from them are floating-point numbers and left out, and with them update_nodes,
-- rendezvous_hash and jump_hash: `new` always chooses consistent hashing. Of the lock of
-- key_mappings the read guards are counted, since one task asks for it twice.
use miwidothttp.Prelude.{
  ℕ, zero, suc, ◌+◌, ◌-◌, ◌/◌, Bool, true, false, not, ◌&&◌, Option, none, some, List, [], ◌∷◌,
  ◌++◌, String, min, length, last, take, is_empty, leb, ltb, unwrap_or, contains, contains_text,
  split_head, append_text, ◌=?◌, string_eq, if◌then◌else◌,
}
use miwidothttp.Prelude.Assoc.{lookup, insert}
pub mod Migration
pub mod Replicas
pub mod Failure
mod Tests

pub record AffinityRule : Type 0 where
  pub key_pattern : String
  pub preferred_nodes : List String
  pub required_nodes : List String
  pub excluded_nodes : List String

pub record MigrationState : Type 0 where
  pub active : Bool
  pub source_node : Option String
  pub target_node : Option String
  pub keys_migrated : ℕ
  pub keys_total : ℕ
  pub started_at : Option ℕ

abbrev pub Mappings : Type 0
Mappings = List (String × String)

pub record DistributionManager : Type 0 where
  pub affinity_rules : List AffinityRule
  pub key_mappings : Mappings
  -- How many read guards of the lock of `key_mappings` are held.
  pub readers : ℕ
  -- Whether a task waits to write key_mappings: tokio's lock is fair, so that it lets no later task
  -- read before that one has written.
  pub writer_waits : Bool
  -- Whether the lock of migration_state is held for writing.
  pub migrating : Bool
  pub migration_state : MigrationState

unfoldable pub new : DistributionManager
new = record {
  affinity_rules = [];
  key_mappings = [];
  readers = 0;
  writer_waits = false;
  migrating = false;
  migration_state = record {
    active = false;
    source_node = none;
    target_node = none;
    keys_migrated = 0;
    keys_total = 0;
    started_at = none;
  };
}

abbrev pub first : List String → Option String
first [] = none
first (x ∷ xs) = some x

unfoldable pub check_affinity_rules : String → List AffinityRule → Option String
check_affinity_rules key [] = none
check_affinity_rules key (rule ∷ rules) =
    let rest = check_affinity_rules key rules in
    if contains_text key rule.key_pattern
    then (if not (is_empty rule.required_nodes)
        then first rule.required_nodes
        else (if not (is_empty rule.preferred_nodes) then first rule.preferred_nodes else rest))
    else rest

-- `vnode.split(':').next()`.
abbrev pub node_of : String → String
node_of vnode = split_head vnode ":"

-- The keys that a node keeps.
abbrev pub keys_on : String → Mappings → List String
keys_on node [] = []
keys_on node ((key, n) ∷ rest) = if n =? node then key ∷ keys_on node rest else keys_on node rest

module _ (ring_get : String → Option String) where
  unfoldable pub get_node_for_key : String → DistributionManager → Option String
  get_node_for_key key m = elim (check_affinity_rules key m.affinity_rules) [
    | some node ↦ some node
    | none ↦ elim (lookup key m.key_mappings) [
      | some node ↦ some node
      | none ↦ elim (ring_get key) [ none ↦ none | some vnode ↦ some (node_of vnode) ]
    ]
  ]

  -- One round of the walk: what the ring says of the lengthened key.
  unfoldable pub walk_step : String → List String → List String
  walk_step hash_key replicas = elim (ring_get hash_key) [
    | none ↦ replicas
    | some vnode ↦ if contains replicas (node_of vnode) then replicas else node_of vnode ∷ replicas
  ]

  -- The loop of `get_replicas_for_key`; `none` where the fuel runs out.
  unfoldable pub walk_ring : ℕ → ℕ → String → List String → Option (List String)
  unfolding walk_step
  walk_ring zero count hash_key replicas = none
  walk_ring (suc fuel) count hash_key replicas =
      let next = append_text hash_key "_" in
      let rest = walk_ring fuel count next (walk_step next replicas) in
      if ltb (length replicas) count then rest else some replicas

  -- The set of replicas as a list, in an order that means nothing.
  unfoldable pub get_replicas_for_key : ℕ → String → ℕ → Option (List String)
  unfolding walk_ring
  get_replicas_for_key fuel key count = elim (ring_get key) [
    | none ↦ some []
    | some primary ↦ walk_ring fuel count key (node_of primary ∷ [])
  ]

  -- The loop of `redistribute_load` over the keys of the failed node.
  unfoldable pub reassign : String → List String → Mappings → Mappings
  reassign failed_node [] mappings = mappings
  reassign failed_node (key ∷ keys) mappings = reassign failed_node keys (elim (ring_get key) [
    | none ↦ mappings
    | some vnode ↦
        if node_of vnode =? failed_node then mappings else insert key (node_of vnode) mappings
  ])

  unfoldable pub redistribute_load : String → DistributionManager → DistributionManager
  unfolding reassign
  redistribute_load failed_node m = record m {
    key_mappings = reassign failed_node (keys_on failed_node m.key_mappings) m.key_mappings;
  }

-- It logs the rule and keeps nothing.
pub add_affinity_rule : AffinityRule → DistributionManager → DistributionManager
add_affinity_rule rule m = m
