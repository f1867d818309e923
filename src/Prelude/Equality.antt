-- ===== src/Prelude/Equality.antt =====
-- Equality tests by instances, for the keys of maps and the elements of lists.
use Prim.Native.Nat.{ℕ}
use Prim.Native.String.{String}
use mathlib.Core.Path.{◌≡◌}
use mathlib.Core.Logic.{◌↔◌}
use mathlib.Core.Bool.{Bool, true, false, ◌||◌}
use mathlib.Core.List.{List, [], ◌∷◌}
use text.Mathlib.Text.{◌==◌ as text_test}
use text.Mathlib.TextEquality.{eq_iff}
use miwidothttp.Prelude.Tests.{◌==◌ as ℕ_test, ==_iff}

-- A type with a decided equality: Rust's `Eq`.
pub record Eq {ℓ} (T : Type ℓ) : Type ℓ where
  pub test : T → T → Bool
  pub test_iff : (x y : T) → (test x y ≡ true) ↔ (x ≡ y)

module _ {ℓ} {T : Type ℓ} ⦃e : Eq T⦄ where
  infix 50 ◌=?◌
  abbrev pub ◌=?◌ : T → T → Bool
  x =? y = e.test x y

  -- `[T]::contains`.
  abbrev pub contains : List T → T → Bool
  contains [] y = false
  contains (x ∷ xs) y = x =? y || contains xs y

instance abbrev pub string_eq : Eq String
string_eq = record { test = text_test; test_iff = eq_iff }

instance abbrev pub nat_eq : Eq ℕ
nat_eq = record { test = ℕ_test; test_iff = ==_iff }
