-- ===== src/Prelude/Assoc.antt =====
-- A `HashMap` as an association list with at most one entry for each key that `insert` has put
-- there. The order of the entries stands for the map's unspecified order of iteration.

use mathlib.Core.Path.{◌≡◌, refl}
use mathlib.Core.Bool.{Bool, true}
use mathlib.Core.Option.{Option, none, some}
use mathlib.Core.List.{List, [], ◌∷◌}
use native.Mathlib.Omega.{arith}
use miwidothttp.Prelude.Tests.{if◌then◌else◌, Bool-cases}
use miwidothttp.Prelude.Lists.{retain}
use mathlib.Core.Logic.{inl, inr}
use miwidothttp.Prelude.Equality.{Eq, ◌=?◌}

pub =?-refl {ℓ} : {K : Type ℓ} ⦃e : Eq K⦄ (k : K) → (k =? k) ≡ true
=?-refl ⦃e⦄ k = (e.test_iff k k).1 refl

module _ {ℓ κ} {K : Type ℓ} {V : Type κ} ⦃e : Eq K⦄ where
  -- `HashMap::get`.
  unfoldable pub lookup : K → List (K × V) → Option V
  lookup key [] = none
  lookup key ((found, value) ∷ rest) = if found =? key then some value else lookup key rest

  -- `HashMap::insert`.
  unfoldable pub insert : K → V → List (K × V) → List (K × V)
  insert key value [] = (key, value) ∷ []
  insert key value ((found, old) ∷ rest) =
      if found =? key then (key, value) ∷ rest else (found, old) ∷ insert key value rest

  unfoldable pub remove : K → List (K × V) → List (K × V)
  remove k [] = []
  remove k ((j, w) ∷ m) = let rest = remove k m in if j =? k then rest else (j, w) ∷ rest

  pub lookup-insert :
      (k j : K) (v : V) (m : List (K × V))
      → lookup j (insert k v m) ≡ (if k =? j then some v else lookup j m)
  unfolding lookup insert
  lookup-insert k j v [] = refl
  lookup-insert k j v ((i, w) ∷ m) =
      ground (arith, e.test_iff k j, e.test_iff i k, e.test_iff i j, lookup-insert k j v m)

  pub lookup-insert_self : (k : K) (v : V) (m : List (K × V)) → lookup k (insert k v m) ≡ some v
  lookup-insert_self k v m = rw (lookup-insert k k v m, =?-refl k)

  pub lookup-remove :
      (k j : K) (m : List (K × V)) → lookup j (remove k m) ≡ (if k =? j then none else lookup j m)
  unfolding lookup remove
  lookup-remove k j [] = ground arith
  lookup-remove k j ((i, w) ∷ m) =
      ground (arith, e.test_iff k j, e.test_iff i k, e.test_iff i j, lookup-remove k j m)

module _ {ℓ κ} {K : Type ℓ} {V : Type κ} ⦃e : Eq K⦄ where
  -- No key has two entries.
  abbrev pub KeysDiffer : List (K × V) → Type κ
  KeysDiffer [] = Unit
  KeysDiffer ((k, v) ∷ m) = (lookup k m ≡ none) × KeysDiffer m

  pub insert-KeysDiffer :
      (k : K) (v : V) (m : List (K × V)) → KeysDiffer m → KeysDiffer (insert k v m)
  unfolding lookup insert
  insert-KeysDiffer k v [] h = (refl, tt)
  insert-KeysDiffer k v ((j, w) ∷ m) h = elim (Bool-cases (j =? k)) [
    | inl same ↦ rw same (ground (arith, e.test_iff j k), h.1)
    | inr other ↦ rw other (
      ground (arith, e.test_iff j k, e.test_iff k j, lookup-insert k j v m),
      insert-KeysDiffer k v m h.1,
    )
  ]

  pub remove-KeysDiffer : (k : K) (m : List (K × V)) → KeysDiffer m → KeysDiffer (remove k m)
  unfolding remove
  remove-KeysDiffer k [] h = h
  remove-KeysDiffer k ((j, w) ∷ m) h = elim (Bool-cases (j =? k)) [
    | inl same ↦ rw same (remove-KeysDiffer k m h.1)
    | inr other ↦ rw other (ground (arith, lookup-remove k j m), remove-KeysDiffer k m h.1)
  ]

  pub lookup-retain :
      (p : K × V → Bool) (k : K) (m : List (K × V))
      → KeysDiffer m
      → lookup k (retain p m)
        ≡ elim (lookup k m) [ none ↦ none | some v ↦ if p (k, v) then some v else none ]
  unfolding lookup
  lookup-retain p k [] h = refl
  lookup-retain p k ((j, w) ∷ m) h = ground (arith, e.test_iff j k, lookup-retain p k m h.1)

  pub retain-KeysDiffer :
      (p : K × V → Bool) (m : List (K × V)) → KeysDiffer m → KeysDiffer (retain p m)
  retain-KeysDiffer p [] h = h
  retain-KeysDiffer p ((j, w) ∷ m) h = elim (Bool-cases (p (j, w))) [
    | inl keep ↦ rw keep (ground (arith, lookup-retain p j m h.1), retain-KeysDiffer p m h.1)
    | inr gone ↦ rw gone (retain-KeysDiffer p m h.1)
  ]
