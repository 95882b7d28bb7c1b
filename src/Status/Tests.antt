-- ===== src/Status/Tests.antt =====
-- Names that the theorems on status files are tried on.
use qnatter.Common.{◌≡◌, refl, arith, [], ◌∷◌}
use qnatter.Status.Slug.{Runes, codes, runtime_slug, hex_digit}
use qnatter.Status.Slug.Decode.{IsBasic}
use qnatter.Status.Slug.Distinct.{runtime_slug_injective, runtime_slug_collision}

abbrev name : Runes
name = codes "a.b"

check_dot : runtime_slug name ≡ codes "a_x2eb"
unfolding runtime_slug
check_dot = refl

check_mark : runtime_slug (codes "a_x2eb") ≡ codes "a_x5fx2eb"
unfolding runtime_slug
check_mark = refl

check_wide : runtime_slug (0x4e2d ∷ []) ≡ codes "_u4e2d"
unfolding runtime_slug
check_wide = refl

name-IsBasic : IsBasic name
name-IsBasic = (omega arith, (omega arith, (omega arith, tt)))

runtime_slug_injective_example : name ≡ name
runtime_slug_injective_example =
    runtime_slug_injective name name (λ e. cc) (λ e. cc) name-IsBasic name-IsBasic refl

runtime_slug_collision_example : runtime_slug (0x1f600 ∷ []) ≡ runtime_slug (0x1f60 ∷ codes "0")
unfolding hex_digit
runtime_slug_collision_example = runtime_slug_collision 0x1f600 [] (omega arith) (omega arith)
