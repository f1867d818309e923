-- ===== src/Distribution/Failure.antt =====
-- cluster/distribution.rs: where the keys are after `redistribute_load`.
use miwidothttp.Prelude.{
  ◌≡◌, refl, false, Option, none, some, List, [], ◌∷◌, String, contains, ◌=?◌, string_eq,
  if◌then◌else◌, arith, Bool-cases, Option-cases, inl, inr,
}
use text.Mathlib.TextEquality.{eq_iff}
use miwidothttp.Prelude.Assoc.{lookup, insert, lookup-insert, KeysDiffer}
use miwidothttp.Distribution.{
  DistributionManager, Mappings, node_of, reassign, keys_on, redistribute_load,
}

contains-keys_on :
    (node key : String) (m : Mappings)
    → KeysDiffer m
    → contains (keys_on node m) key ≡ elim (lookup key m) [ none ↦ false | some n ↦ n =? node ]
unfolding lookup
contains-keys_on node key [] d = refl
contains-keys_on node key ((k, n) ∷ m) d = elim (Bool-cases (k =? key)) [
  | inl same ↦ ground (arith, same, eq_iff k key, contains-keys_on node key m d.1, d.0)
  | inr other ↦ ground (arith, other, contains-keys_on node key m d.1)
]

module _ (ring_get : String → Option String) where
  -- Where a key of the failed node goes.
  abbrev moved : String → String → Option String → Option String
  moved failed_node key o = elim (ring_get key) [
    | none ↦ o
    | some vnode ↦ if node_of vnode =? failed_node then o else some (node_of vnode)
  ]

  lookup-reassign :
      (failed_node key : String) (ks : List String) (m : Mappings)
      → lookup key (reassign ring_get failed_node ks m)
        ≡ (if contains ks key then moved failed_node key (lookup key m) else lookup key m)
  unfolding reassign
  lookup-reassign failed_node key [] m = refl
  lookup-reassign failed_node key (k ∷ ks) m = elim (Option-cases (ring_get k)) [
    | inl fails ↦ ground (arith, fails, eq_iff k key, lookup-reassign failed_node key ks m)
    | inr (vnode, found) ↦ elim (Bool-cases (node_of vnode =? failed_node)) [
      | inl back ↦ ground (arith, found, back, eq_iff k key, lookup-reassign failed_node key ks m)
      | inr away ↦ ground (
        arith,
        found,
        away,
        eq_iff k key,
        lookup-reassign failed_node key ks (insert k (node_of vnode) m),
        lookup-insert k key (node_of vnode) m,
      )
    ]
  ]

  -- In a table with one entry for each key, a failure moves exactly the keys of the failed node, each
  -- to the node that the ring names for it; one for which the ring names no other node stays.
  pub lookup-redistribute_load :
      (failed_node key : String) (m : DistributionManager)
      → KeysDiffer m.key_mappings
      → lookup key (redistribute_load ring_get failed_node m).key_mappings
        ≡ elim (lookup key m.key_mappings) [
          | none ↦ none
          | some node ↦
              if node =? failed_node
              then elim (ring_get key) [ none ↦ some node | some vnode ↦ some (node_of vnode) ]
              else some node
        ]
  unfolding redistribute_load
  lookup-redistribute_load failed_node key m d = elim (Option-cases (ring_get key)) [
    | inl fails ↦ ground (
      arith,
      fails,
      lookup-reassign failed_node key (keys_on failed_node m.key_mappings) m.key_mappings,
      contains-keys_on failed_node key m.key_mappings d,
    )
    | inr (vnode, found) ↦ elim (Option-cases (lookup key m.key_mappings)) [
      | inl absent ↦ ground (
        arith,
        found,
        absent,
        lookup-reassign failed_node key (keys_on failed_node m.key_mappings) m.key_mappings,
        contains-keys_on failed_node key m.key_mappings d,
      )
      | inr (node, kept) ↦ ground (
        arith,
        found,
        kept,
        eq_iff (node_of vnode) failed_node,
        eq_iff node failed_node,
        lookup-reassign failed_node key (keys_on failed_node m.key_mappings) m.key_mappings,
        contains-keys_on failed_node key m.key_mappings d,
      )
    ]
  ]
