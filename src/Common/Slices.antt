-- ===== src/Common/Slices.antt =====
-- Byte strings as Go slices: an index or a slice out of range panics.
use Prim.Native.Nat.{ℕ, ◌+◌, ◌-◌, ◌*◌, ◌/◌, ◌%◌}
use mathlib.Core.Path.{◌≡◌}
use mathlib.Core.Bool.{Bool, true, false, ◌&&◌}
use mathlib.Core.Logic.{◌↔◌}
use mathlib.Core.List.{List, [], ◌∷◌}
use mathlib.Core.Option.{none, some}
use native.Mathlib.Omega.{arith}
use qnatter.Common.Tests.{leb, ◌==◌, if◌then◌else◌}
use qnatter.Common.Lists.{length, take, drop, get_elem?}
use qnatter.Common.Outcomes.{Outcome, ok, panic}

abbrev pub Bytes : Type 0
Bytes = List ℕ

-- `b[i]`
unfoldable pub byte_at {ℓ} : {E : Type ℓ} → Bytes → ℕ → Outcome E ℕ
byte_at b i = elim (get_elem? b i) [ some x ↦ ok x | none ↦ panic ]

-- `b[lo:hi]`
unfoldable pub slice {ℓ} : {E : Type ℓ} → Bytes → ℕ → ℕ → Outcome E Bytes
slice b lo hi = if leb lo hi && leb hi (length b) then ok (take (hi - lo) (drop lo b)) else panic

-- `a == b` on strings
unfoldable pub bytes_eq : Bytes → Bytes → Bool
bytes_eq [] [] = true
bytes_eq (x ∷ xs) (y ∷ ys) = x == y && bytes_eq xs ys
bytes_eq _ _ = false

pub bytes_eq_iff : (a b : Bytes) → (bytes_eq a b ≡ true) ↔ (a ≡ b)
unfolding bytes_eq
bytes_eq_iff (x ∷ a) (y ∷ b) = ground (arith, bytes_eq_iff a b)
bytes_eq_iff _ _ = ground arith

-- `binary.BigEndian.Uint16`, which reads `b[0]` and `b[1]`
unfoldable pub uint16 {ℓ} : {E : Type ℓ} → Bytes → Outcome E ℕ
uint16 (a ∷ b ∷ _) = ok (a * 256 + b)
uint16 _ = panic

-- `binary.BigEndian.Uint32`
unfoldable pub uint32 {ℓ} : {E : Type ℓ} → Bytes → Outcome E ℕ
uint32 (a ∷ b ∷ c ∷ d ∷ _) = ok (((a * 256 + b) * 256 + c) * 256 + d)
uint32 _ = panic

-- `binary.BigEndian.PutUint16` and `PutUint32`, as the bytes written
unfoldable pub put_uint16 : ℕ → Bytes
put_uint16 v = (v / 256 % 256) ∷ (v % 256) ∷ []

unfoldable pub put_uint32 : ℕ → Bytes
put_uint32 v = (v / 16777216 % 256) ∷ (v / 65536 % 256) ∷ (v / 256 % 256) ∷ (v % 256) ∷ []
