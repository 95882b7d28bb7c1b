-- ===== src/Engine/Session/Choice.antt =====
-- Which of the two observations a session uses, and when it is called unstable.
use qnatter.Common.{
  Bool, if◌then◌else◌, ◌≡◌, sym, ◌∙◌, arith, true, false, not, ◌&&◌, Bool-cases, ap, ◌⊎◌, inl, inr,
}
use qnatter.Net.{is_valid, addr_port_eq, addr_port_eq_iff}
use qnatter.Stun.Mapping.{Mapping}
use qnatter.Engine.Session.Steps.{with_inner, choose_mapping, unstable_mapping}

with_inner-valid :
    (first second : Mapping)
    → is_valid first.inner ≡ true
    → is_valid (with_inner first second).inner ≡ true
unfolding with_inner
with_inner-valid first second v = elim (Bool-cases (is_valid second.inner)) [
  | inl valid ↦ rw valid valid
  | inr invalid ↦ rw invalid v
]

with_inner-outer : (first second : Mapping) → (with_inner first second).outer ≡ second.outer
unfolding with_inner
with_inner-outer first second = elim (Bool-cases (is_valid second.inner)) [
  | inl valid ↦ rw valid
  | inr invalid ↦ rw invalid
]

drift :
    (c x y same : Bool)
    → (if c then true else x && y && not same) ≡ false
    → x ≡ true
    → y ≡ true
    → same ≡ false
    → ⊥
drift c x y same h p q r = ground arith

module _ (first observed : Mapping) where
  -- The two cases: the local address is the same, or the first observation is used.
  chosen :
      is_valid first.inner ≡ true
      → is_valid observed.inner ≡ true
      → ((choose_mapping first observed ≡ observed) × (observed.inner ≡ first.inner))
        ⊎ (choose_mapping first observed ≡ first)
  unfolding choose_mapping
  chosen v w = elim (Bool-cases (addr_port_eq observed.inner first.inner)) [
    | inl same ↦ inl (rw (v, w, same), (addr_port_eq_iff observed.inner first.inner).0 same)
    | inr other ↦ inr (rw (v, w, other))
  ]

  steady_outer :
      unstable_mapping first observed ≡ false
      → is_valid first.outer ≡ true
      → is_valid observed.outer ≡ true
      → observed.outer ≡ first.outer
  unfolding unstable_mapping
  steady_outer u v w = elim (Bool-cases (addr_port_eq first.outer observed.outer)) [
    | inl same ↦ sym ((addr_port_eq_iff first.outer observed.outer).0 same)
    | inr other ↦
        elim (drift _ (is_valid first.outer) (is_valid observed.outer)
          (addr_port_eq first.outer observed.outer) u v w other) [ ]
  ]

-- Whatever the second query answers, the mapping that is forwarded and reported has the local
-- address of the first one, which the keep-alive socket is bound to, if that address is valid.
pub choose_mapping_inner :
    (first second : Mapping)
    → is_valid first.inner ≡ true
    → (choose_mapping first (with_inner first second)).inner ≡ first.inner
choose_mapping_inner first second v =
    elim (chosen first (with_inner first second) v (with_inner-valid first second v)) [
      | inl (e, same) ↦ ap (λ m. m.inner) e ∙ same
      | inr e ↦ ap (λ m. m.inner) e
    ]

-- The mapping of a session that is not called unstable has the outer address of both queries, where
-- both are valid and the first local address is.
pub choose_mapping_stable :
    (first second : Mapping)
    → is_valid first.inner ≡ true
    → unstable_mapping first (with_inner first second) ≡ false
    → is_valid first.outer ≡ true
    → is_valid second.outer ≡ true
    → ((choose_mapping first (with_inner first second)).outer ≡ first.outer)
      × ((choose_mapping first (with_inner first second)).outer ≡ second.outer)
choose_mapping_stable first second v u a b =
    let observed = with_inner first second in
    let outer = with_inner-outer first second in
    let same = steady_outer first observed u a (ap is_valid outer ∙ b) in
    elim (chosen first observed v (with_inner-valid first second v)) [
      | inl (e, _) ↦ (ap (λ m. m.outer) e ∙ same, ap (λ m. m.outer) e ∙ outer)
      | inr e ↦ (ap (λ m. m.outer) e, ap (λ m. m.outer) e ∙ (sym same ∙ outer))
    ]
