-- ===== src/Forward/External/Versions.antt =====
-- The order of versions: the first part that differs decides, and parts that are missing are zero.
use qnatter.Common.{
  ℕ, zero, suc, ◌≡◌, ◌↔◌, ◌⊎◌, inl, inr, ◌<◌, arith, List, [], ◌∷◌, ltb, Bool-cases,
}
use qnatter.Forward.External.{Ordering, older, compare_version, compared}

-- A part of a version.
unfoldable pub part : List ℕ → ℕ → ℕ
part [] k = 0
part (n ∷ version) zero = n
part (n ∷ version) (suc k) = part version k

-- At the first place where they differ, the first is smaller.
abbrev pub IsBefore : (ℕ → ℕ) → (ℕ → ℕ) → Type 0
IsBefore f g = (k : ℕ) × ((j : ℕ) → j < k → f j ≡ g j) × (f k < g k)

at_once : (f g : ℕ → ℕ) → f 0 < g 0 → IsBefore f g
at_once f g h = (0, (λ j b. ground arith), h)

shifted : (f g : ℕ → ℕ) → f 0 ≡ g 0 → IsBefore (λ k. f (suc k)) (λ k. g (suc k)) → IsBefore f g
shifted f g e (k, equal, less) = (suc k, below, less)
  where
    below : (j : ℕ) → j < suc k → f j ≡ g j
    below zero h = e
    below (suc j) h = equal j (omega arith)

unshifted :
    (f g : ℕ → ℕ)
    → IsBefore f g
    → (f 0 < g 0) ⊎ ((f 0 ≡ g 0) × IsBefore (λ k. f (suc k)) (λ k. g (suc k)))
unshifted f g (zero, equal, less) = inl less
unshifted f g (suc k, equal, less) =
    inr (equal 0 (omega arith), (k, (λ j h. equal (suc j) (omega arith)), less))

compared_older :
    (x y : ℕ) (r : Ordering) → compared x y r ≡ older → (x < y) ⊎ ((x ≡ y) × (r ≡ older))
compared_older x y r h = elim (Bool-cases (ltb x y)) [
  | inl less ↦ inl (ground arith)
  | inr other ↦ elim (Bool-cases (ltb y x)) [
    | inl more ↦ cc (rw (other, more) at h)
    | inr equal ↦ inr (ground arith, rw (other, equal) at h)
  ]
]

older_compared :
    (x y : ℕ) (r : Ordering) → (x < y) ⊎ ((x ≡ y) × (r ≡ older)) → compared x y r ≡ older
older_compared x y r (inl less) = ground arith
older_compared x y r (inr (e, h)) = ground arith

-- One step of both directions, of the parts and of what the rest compares to.
module _ (f g : ℕ → ℕ) (r : Ordering) where
  down :
      (r ≡ older → IsBefore (λ k. f (suc k)) (λ k. g (suc k)))
      → compared (f 0) (g 0) r ≡ older
      → IsBefore f g
  down later h = elim (compared_older (f 0) (g 0) r h) [
    | inl less ↦ at_once f g less
    | inr (e, rest) ↦ shifted f g e (later rest)
  ]

  up :
      (IsBefore (λ k. f (suc k)) (λ k. g (suc k)) → r ≡ older)
      → IsBefore f g
      → compared (f 0) (g 0) r ≡ older
  up later h =
      older_compared (f 0) (g 0) r
        (elim (unshifted f g h) [ inl less ↦ inl less | inr (e, rest) ↦ inr (e, later rest) ])

-- `compareVersion` calls a version older than the minimum exactly if, at the first part where they
-- differ, its part is the smaller one; parts that are missing in one of them count as zero.
pub compare_version_iff :
    (version minimum : List ℕ)
    → (compare_version version minimum ≡ older) ↔ IsBefore (part version) (part minimum)
unfolding compare_version part
compare_version_iff [] [] = ((λ h. cc), (λ h. let less : 0 < 0 = h.2 in ground arith))
compare_version_iff (x ∷ version) [] =
    let rest = compare_version_iff version [] in
    (
      down (part (x ∷ version)) (part []) (compare_version version []) rest.0,
      up (part (x ∷ version)) (part []) (compare_version version []) rest.1,
    )
compare_version_iff [] (y ∷ minimum) =
    let rest = compare_version_iff [] minimum in
    (
      down (part []) (part (y ∷ minimum)) (compare_version [] minimum) rest.0,
      up (part []) (part (y ∷ minimum)) (compare_version [] minimum) rest.1,
    )
compare_version_iff (x ∷ version) (y ∷ minimum) =
    let rest = compare_version_iff version minimum in
    (
      down (part (x ∷ version)) (part (y ∷ minimum)) (compare_version version minimum) rest.0,
      up (part (x ∷ version)) (part (y ∷ minimum)) (compare_version version minimum) rest.1,
    )
