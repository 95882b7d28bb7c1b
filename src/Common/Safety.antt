-- ===== src/Common/Safety.antt =====
-- Rules for `Returns`: a computation that neither panics nor runs out of rounds, part by part.
use Prim.Native.Nat.{ℕ, ◌-◌, ◌≤◌, ◌<◌}
use mathlib.Core.Path.{◌≡◌, refl}
use mathlib.Core.Bool.{Bool, true, false}
use mathlib.Core.List.{[], ◌∷◌}
use native.Mathlib.Omega.{arith}
use qnatter.Common.Tests.{le→leb, if◌then◌else◌}
use qnatter.Common.Lists.{length, take, drop, get_elem?-some, length-take, length-drop}
use qnatter.Common.Outcomes.{Outcome, ok, ◌>>=◌, Returns, value, error}
use qnatter.Common.Slices.{Bytes, byte_at, slice, uint16, uint32}

pub slice-eq_ok {ℓ} :
    {E : Type ℓ} (b : Bytes) (lo hi : ℕ)
    → lo ≤ hi
    → hi ≤ length b
    → slice {E = E} b lo hi ≡ ok (take (hi - lo) (drop lo b))
unfolding slice
slice-eq_ok b lo hi h k = rw (le→leb lo hi h, le→leb hi (length b) k)

module _ {ℓ κ} {E : Type ℓ} {A : Type κ} where
  pub Returns-if :
      {x y : Outcome E A} (b : Bool)
      → (b ≡ true → Returns x)
      → (b ≡ false → Returns y)
      → Returns (if b then x else y)
  Returns-if true f g = f refl
  Returns-if false f g = g refl

  pub Returns-slice :
      (b : Bytes) (lo hi : ℕ) {k : Bytes → Outcome E A}
      → lo ≤ hi
      → hi ≤ length b
      → ((s : Bytes) → length s ≡ hi - lo → Returns (k s))
      → Returns (slice b lo hi >>= k)
  Returns-slice b lo hi h g f = rw (slice-eq_ok b lo hi h g) (
      f (take (hi - lo) (drop lo b))
        (omega (arith, length-take (hi - lo) (drop lo b), length-drop lo b)))

  pub Returns-byte_at :
      (b : Bytes) (i : ℕ) {k : ℕ → Outcome E A}
      → i < length b
      → ((v : ℕ) → Returns (k v))
      → Returns (byte_at b i >>= k)
  unfolding byte_at
  Returns-byte_at b i h f = let (v, e) = get_elem?-some b i h in rw (e, byte_at) (f v)

  pub Returns-uint16 :
      (b : Bytes) {k : ℕ → Outcome E A}
      → 2 ≤ length b
      → ((v : ℕ) → Returns (k v))
      → Returns (uint16 b >>= k)
  unfolding uint16
  Returns-uint16 [] h f = absurd (omega arith)
  Returns-uint16 (a ∷ []) h f = absurd (omega arith)
  Returns-uint16 (a ∷ b ∷ _) h f = f _

  pub Returns-uint32 :
      (b : Bytes) {k : ℕ → Outcome E A}
      → 4 ≤ length b
      → ((v : ℕ) → Returns (k v))
      → Returns (uint32 b >>= k)
  unfolding uint32
  Returns-uint32 [] h f = absurd (omega arith)
  Returns-uint32 (a ∷ []) h f = absurd (omega arith)
  Returns-uint32 (a ∷ b ∷ []) h f = absurd (omega arith)
  Returns-uint32 (a ∷ b ∷ c ∷ []) h f = absurd (omega arith)
  Returns-uint32 (a ∷ b ∷ c ∷ d ∷ _) h f = f _

module _ {ℓ κ μ} {E : Type ℓ} {A : Type κ} {B : Type μ} where
  pub Returns-bind :
      {m : Outcome E A} {k : A → Outcome E B}
      → Returns m
      → ((a : A) → Returns (k a))
      → Returns (m >>= k)
  Returns-bind (value a) f = f a
  Returns-bind (error e) f = error e
