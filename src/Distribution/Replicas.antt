-- ===== src/Distribution/Replicas.antt =====
-- cluster/distribution.rs: the loop that looks for the replicas of a key.
use miwidothttp.Prelude.{
  ℕ, zero, suc, ◌+◌, ◌-◌, ◌≤◌, ◌<◌, ◌≡◌, refl, sym, subst, true, false, not, Option, none, some,
  List, [], ◌∷◌, String, length, retain, contains, ltb, append_text, ◌=?◌, string_eq, arith,
  Bool-cases, Option-cases, inl, inr, ◌⊎◌, length-retain-lt, contains-retain_other,
}
use text.Mathlib.TextEquality.{eq_iff}
use miwidothttp.Distribution.{node_of, walk_step, walk_ring, get_replicas_for_key}

-- No node stands twice.
abbrev pub Different : List String → Type 0
Different [] = Unit
Different (x ∷ xs) = (contains xs x ≡ false) × Different xs

-- Every node of a list is in another.
abbrev pub AllIn : List String → List String → Type 0
AllIn nodes [] = Unit
AllIn nodes (x ∷ xs) = (contains nodes x ≡ true) × AllIn nodes xs

AllIn-retain_other :
    (x : String) (nodes xs : List String)
    → contains xs x ≡ false
    → AllIn nodes xs
    → AllIn (retain (λ n. not (n =? x)) nodes) xs
AllIn-retain_other x nodes [] h a = tt
AllIn-retain_other x nodes (y ∷ ys) h a = (
  ground (arith, contains-retain_other x y nodes, eq_iff x y, eq_iff y x),
  AllIn-retain_other x nodes ys (ground arith) a.1,
)

-- Different nodes out of a list are no more than the list has.
length-Different :
    (xs nodes : List String) → Different xs → AllIn nodes xs → length xs ≤ length nodes
length-Different [] nodes d a = omega arith
length-Different (x ∷ xs) nodes d a = omega (
  arith,
  length-retain-lt x nodes a.0,
  length-Different xs (retain (λ n. not (n =? x)) nodes) d.1
      (AllIn-retain_other x nodes xs d.0 a.1),
)

contains-length : (xs : List String) (x : String) → contains xs x ≡ true → 0 < length xs
contains-length [] x h = cc
contains-length (y ∷ ys) x h = omega arith

module _ (ring_get : String → Option String) where
  -- A round keeps the replicas, or adds one node of the ring that was not among them.
  abbrev Round : String → List String → List String → Type 0
  Round key xs ys =
      (ys ≡ xs)
      ⊎ ((vnode : String) × (ring_get key ≡ some vnode)
          × (contains xs (node_of vnode) ≡ false)
          × (ys ≡ node_of vnode ∷ xs))

  walk_step-cases : (key : String) (xs : List String) → Round key xs (walk_step ring_get key xs)
  unfolding walk_step
  walk_step-cases key xs = elim (Option-cases (ring_get key)) [
    | inl fails ↦ inl (ground (arith, fails))
    | inr (vnode, found) ↦ elim (Bool-cases (contains xs (node_of vnode))) [
      | inl held ↦ inl (ground (arith, found, held))
      | inr free ↦ inr (vnode, found, free, ground (arith, found, free))
    ]
  ]

  walk_step-Different :
      (key : String) (xs : List String) → Different xs → Different (walk_step ring_get key xs)
  walk_step-Different key xs d = elim (walk_step-cases key xs) [
    | inl same ↦ subst Different (sym same) d
    | inr (vnode, found, free, added) ↦ subst Different (sym added) (free, d)
  ]

  -- Every node that the ring answers with is in a list.
  abbrev pub RingWithin : List String → Type 0
  RingWithin nodes = (k v : String) → ring_get k ≡ some v → contains nodes (node_of v) ≡ true

  walk_step-AllIn :
      (nodes : List String) (key : String) (xs : List String)
      → RingWithin nodes
      → AllIn nodes xs
      → AllIn nodes (walk_step ring_get key xs)
  walk_step-AllIn nodes key xs r a = elim (walk_step-cases key xs) [
    | inl same ↦ subst (AllIn nodes) (sym same) a
    | inr (vnode, found, free, added) ↦ subst (AllIn nodes) (sym added) (r key vnode found, a)
  ]

  walk_ring-none :
      (nodes : List String) (fuel count : ℕ) (key : String) (xs : List String)
      → RingWithin nodes
      → length nodes < count
      → Different xs
      → AllIn nodes xs
      → walk_ring ring_get fuel count key xs ≡ none
  unfolding walk_ring
  walk_ring-none nodes zero count key xs r few d a = refl
  walk_ring-none nodes (suc fuel) count key xs r few d a =
      let next = append_text key "_" in
      ground (
        arith,
        length-Different xs nodes d a,
        walk_ring-none nodes fuel count next (walk_step ring_get next xs) r few
            (walk_step-Different next xs d) (walk_step-AllIn nodes next xs r a),
      )

  walk_step-contains :
      (key node : String) (xs : List String)
      → contains xs node ≡ true
      → (contains (walk_step ring_get key xs) node ≡ true)
        × (length (walk_step ring_get key xs) ≤ suc (length xs))
  walk_step-contains key node xs c = elim (walk_step-cases key xs) [
    | inl same ↦ rw same (c, omega arith)
    | inr (vnode, found, free, added) ↦ rw added (ground arith, omega arith)
  ]

  walk_ring-some :
      (fuel count : ℕ) (key node : String) (xs ys : List String)
      → Different xs
      → contains xs node ≡ true
      → length xs ≤ count + (1 - count)
      → walk_ring ring_get fuel count key xs ≡ some ys
      → Different ys × (contains ys node ≡ true) × (length ys ≡ count + (1 - count))
  unfolding walk_ring
  walk_ring-some zero count key node xs ys d c b h = absurd (ground arith)
  walk_ring-some (suc fuel) count key node xs ys d c b h =
      elim (Bool-cases (ltb (length xs) count)) [
        | inl more ↦
            let next = append_text key "_" in
            let kept = walk_step-contains next node xs c in
            walk_ring-some fuel count next node (walk_step ring_get next xs) ys
              (walk_step-Different next xs d) kept.0 (ground (arith, more, kept.1))
              (ground (arith, more))
        | inr enough ↦
            let ends : xs ≡ ys = ground (arith, enough) in
            subst
              (λ zs. Different zs × (contains zs node ≡ true) × (length zs ≡ count + (1 - count)))
              ends (d, c, ground (arith, enough, contains-length xs node c))
      ]

  -- Where the ring has fewer nodes than replicas are asked for, and has an answer for the key, the
  -- search for replicas never ends: no number of rounds is enough.
  pub replicas_never_found :
      (nodes : List String) (fuel count : ℕ) (key vnode : String)
      → RingWithin nodes
      → length nodes < count
      → ring_get key ≡ some vnode
      → get_replicas_for_key ring_get fuel key count ≡ none
  unfolding get_replicas_for_key
  replicas_never_found nodes fuel count key vnode r few found =
      let start =
        walk_ring-none nodes fuel count key (node_of vnode ∷ []) r few (refl, tt)
          (r key vnode found, tt) in
      ground (arith, found, start)

  -- Where the search ends on a ring that answers for the key, it gives different nodes, the key's
  -- own among them, and as many as were asked for, or that one alone where none was.
  pub replicas_found :
      (fuel count : ℕ) (key vnode : String) (rs : List String)
      → ring_get key ≡ some vnode
      → get_replicas_for_key ring_get fuel key count ≡ some rs
      → Different rs × (contains rs (node_of vnode) ≡ true) × (length rs ≡ count + (1 - count))
  unfolding get_replicas_for_key
  replicas_found fuel count key vnode rs found h =
      walk_ring-some fuel count key (node_of vnode) (node_of vnode ∷ []) rs (refl, tt)
        (ground (arith, eq_iff (node_of vnode) (node_of vnode))) (omega arith)
        (ground (arith, found))
