-- ===== src/Prelude/Integers.antt =====
-- Signed integers over the native numbers, and their order as a test.
use Prim.Native.Nat.{ℕ}
use mathlib.Core.Path.{◌≡◌, refl}
use mathlib.Core.Bool.{Bool, true, false}
use native.Mathlib.Omega.{arith}
use miwidothttp.Prelude.Tests.{ltb}

pub data ℤ : Type 0 where
  pos : ℕ → ℤ
  -- `negsuc n` is -(n + 1).
  negsuc : ℕ → ℤ

abbrev pub ltb_ℤ : ℤ → ℤ → Bool
ltb_ℤ (pos a) (pos b) = ltb a b
ltb_ℤ (pos a) (negsuc b) = false
ltb_ℤ (negsuc a) (pos b) = true
ltb_ℤ (negsuc a) (negsuc b) = ltb b a

-- `a ≤ b`, as "not b < a".
abbrev pub AtMost : ℤ → ℤ → Type 0
AtMost a b = ltb_ℤ b a ≡ false

pub AtMost-refl : (a : ℤ) → AtMost a a
AtMost-refl (pos a) = ground arith
AtMost-refl (negsuc a) = ground arith

pub AtMost-trans : (a b c : ℤ) → AtMost a b → AtMost b c → AtMost a c
AtMost-trans (pos a) (pos b) (pos c) h k = ground arith
AtMost-trans (pos a) (pos b) (negsuc c) h k = cc
AtMost-trans (pos a) (negsuc b) c h k = cc
AtMost-trans (negsuc a) (pos b) (pos c) h k = refl
AtMost-trans (negsuc a) (pos b) (negsuc c) h k = cc
AtMost-trans (negsuc a) (negsuc b) (pos c) h k = refl
AtMost-trans (negsuc a) (negsuc b) (negsuc c) h k = ground arith

pub AtMost-below : (a b : ℤ) → ltb_ℤ a b ≡ true → AtMost a b
AtMost-below (pos a) (pos b) h = ground arith
AtMost-below (pos a) (negsuc b) h = cc
AtMost-below (negsuc a) (pos b) h = refl
AtMost-below (negsuc a) (negsuc b) h = ground arith
