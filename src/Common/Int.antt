-- ===== src/Common/Int.antt =====
-- Go's `int`, where a negative value is possible.
use Prim.Native.Nat.{ℕ, suc}
use mathlib.Core.Bool.{Bool, true, false}
use qnatter.Common.Tests.{leb}

-- `negsuc n` is -(n + 1).
pub data ℤ : Type 0 where
  pos : ℕ → ℤ
  negsuc : ℕ → ℤ

-- `n > 0`
abbrev pub is_positive : ℤ → Bool
is_positive (pos (suc n)) = true
is_positive _ = false

-- The value, and 0 for a negative one.
abbrev pub to_nat : ℤ → ℕ
to_nat (pos n) = n
to_nat (negsuc n) = 0

-- `lo <= n && n <= hi` for bounds that are not negative
abbrev pub in_range : ℤ → ℕ → Bool
in_range (pos n) hi = leb n hi
in_range (negsuc n) hi = false
