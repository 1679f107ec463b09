-- ===== src/Base/Int.antt =====
-- Go's int.
use Prim.Native.Nat.{ℕ}
use mathlib.Core.Bool.{Bool, false}
use simple_ft.Base.Tests.{ltb}

-- `negsuc n` is -(n + 1).
pub data ℤ : Type 0 where
  pos : ℕ → ℤ
  negsuc : ℕ → ℤ

-- `n < z` for the length n of a slice.
abbrev pub lt_int : ℕ → ℤ → Bool
lt_int n (pos m) = ltb n m
lt_int n (negsuc m) = false
