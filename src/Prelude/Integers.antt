-- ===== src/Prelude/Integers.antt =====
-- Integers that the program only stores and compares.
use Prim.Native.Nat.{ℕ}
use mathlib.Core.Path.{◌≡◌}
use mathlib.Core.Logic.{◌↔◌}
use mathlib.Core.Bool.{Bool, true, false}
use native.Mathlib.Omega.{arith}
use time_weaver.Prelude.Tests.{Comparable, nat_same, nat_same_iff}

-- `negsuc n` is -(n + 1).
pub data ℤ : Type 0 where
  pos : ℕ → ℤ
  negsuc : ℕ → ℤ

abbrev pub int_same : ℤ → ℤ → Bool
int_same (pos m) (pos n) = nat_same m n
int_same (negsuc m) (negsuc n) = nat_same m n
int_same _ _ = false

pub int_same_iff : (a b : ℤ) → (int_same a b ≡ true) ↔ (a ≡ b)
int_same_iff (pos m) (pos n) = ground (arith, nat_same_iff m n)
int_same_iff (pos m) (negsuc n) = ground arith
int_same_iff (negsuc m) (pos n) = ground arith
int_same_iff (negsuc m) (negsuc n) = ground (arith, nat_same_iff m n)

instance abbrev pub int_comparable : Comparable ℤ
int_comparable = record { same = int_same; same_iff = int_same_iff }
