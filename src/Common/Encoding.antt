-- ===== src/Common/Encoding.antt =====
-- Slices of a concatenation, and the big-endian numbers read back from what was written.
use Prim.Native.Nat.{ℕ, ◌+◌, ◌-◌, ◌<◌}
use mathlib.Core.Path.{◌≡◌, ap, ◌∙◌}
use mathlib.Core.List.{[], ◌++◌, append-nil}
use native.Mathlib.Omega.{arith}
use qnatter.Common.Lists.{length, take, length-append, take-append, drop-append}
use qnatter.Common.Outcomes.{ok}
use qnatter.Common.Slices.{Bytes, slice, uint16, uint32, put_uint16, put_uint32}
use qnatter.Common.Safety.{slice-eq_ok}

module _ {ℓ} {E : Type ℓ} where
  pub uint16-put_uint16 : (v : ℕ) → v < 65536 → uint16 {E = E} (put_uint16 v) ≡ ok v
  unfolding uint16 put_uint16
  uint16-put_uint16 v h = ap ok (omega arith)

  pub uint32-put_uint32 : (v : ℕ) → v < 4294967296 → uint32 {E = E} (put_uint32 v) ≡ ok v
  unfolding uint32 put_uint32
  uint32-put_uint32 v h = ap ok (omega arith)

  -- The middle of three parts.
  pub slice-append :
      (xs ys zs : Bytes) (lo hi : ℕ)
      → lo ≡ length xs
      → hi ≡ length xs + length ys
      → slice {E = E} (xs ++ (ys ++ zs)) lo hi ≡ ok ys
  slice-append xs ys zs lo hi p q =
      slice-eq_ok (xs ++ (ys ++ zs)) lo hi (omega arith)
        (omega (arith, length-append xs (ys ++ zs), length-append ys zs))
      ∙ ap ok (
          ap (take (hi - lo)) (drop-append lo xs (ys ++ zs) p)
          ∙ take-append (hi - lo) ys zs (omega arith))

  -- The last of two parts.
  pub slice-append_last :
      (xs ys : Bytes) (lo hi : ℕ)
      → lo ≡ length xs
      → hi ≡ length xs + length ys
      → slice {E = E} (xs ++ ys) lo hi ≡ ok ys
  slice-append_last xs ys lo hi p q = rw (append-nil ys) at (slice-append xs ys [] lo hi p q)
