-- ===== src/Check/Cone/Answers.antt =====
-- The cone check beside its reading: the first three answers name one address.
use qnatter.Common.{
  ℕ, zero, suc, ◌+◌, ◌≤◌, ◌<◌, ◌≡◌, refl, ◌∙◌, arith, Bool, true, false, not, ◌&&◌, List, [], ◌∷◌,
  ok, leb, le→leb, length, take, if◌then◌else◌, Bool-cases, inl, inr,
}
use qnatter.Net.{AddrPort, no_addr_port, is_valid, addr_port_eq, addr_port_eq_iff}
use qnatter.Check.Nat.{
  Probed, probed, no_answer, cancelled, Cone, cone_symmetric, cone_unknown, cone_stable,
}
use qnatter.Check.Cone.{cone_loop, cone_round, check_tcp_cone}

-- The mapped addresses that the servers answered with.
unfoldable pub answers : List Probed → List AddrPort
answers [] = []
answers (probed r ∷ servers) = r.mapped ∷ answers servers
answers (_ ∷ servers) = answers servers

-- No probe ended with the context, and every address of an answer is one.
unfoldable pub AllAnswer : List Probed → Type 0
AllAnswer [] = Unit
AllAnswer (probed r ∷ servers) = (is_valid r.mapped ≡ true) × AllAnswer servers
AllAnswer (no_answer ∷ servers) = AllAnswer servers
AllAnswer (cancelled e ∷ servers) = ⊥

unfoldable pub all_are : AddrPort → List AddrPort → Bool
all_are a [] = true
all_are a (b ∷ bs) = addr_port_eq b a && all_are a bs

-- Some answers that should name `first`, of which `left` are still wanted.
unfoldable pub cone_from : AddrPort → ℕ → List AddrPort → Cone
unfolding all_are
cone_from first left addrs =
    if not (all_are first (take left addrs))
    then cone_symmetric
    else if leb left (length addrs)
    then cone_stable
    else cone_unknown

-- The reading of three answers.
unfoldable pub cone_of : List AddrPort → Cone
unfolding cone_from
cone_of [] = cone_unknown
cone_of (first ∷ addrs) = cone_from first 2 addrs

lt→leb : (a b : ℕ) → b < a → leb a b ≡ false
lt→leb a b h = ground arith

leb-suc : (a b : ℕ) → leb (suc a) (suc b) ≡ leb a b
leb-suc a b = ground arith

cone_loop_done :
    (servers : List Probed) (first : AddrPort) (count : ℕ)
    → 3 ≤ count
    → cone_loop first count servers ≡ ok cone_stable
unfolding cone_loop
cone_loop_done [] first count e = ground (arith, le→leb 3 count e)
cone_loop_done (p ∷ servers) first count e = ground (arith, le→leb 3 count e)

cone_loop_more :
    (p : Probed) (servers : List Probed) (first : AddrPort) (count : ℕ)
    → count < 3
    → cone_loop first count (p ∷ servers)
      ≡ cone_round first count (λ first' count'. cone_loop first' count' servers) p
unfolding cone_loop
cone_loop_more p servers first count e = ground (arith, lt→leb 3 count e)

cone_loop-cone_from :
    (servers : List Probed) (first : AddrPort) (count left : ℕ)
    → count + left ≡ 3
    → is_valid first ≡ true
    → AllAnswer servers
    → cone_loop first count servers ≡ ok (cone_from first left (answers servers))
unfolding cone_from answers AllAnswer
cone_loop-cone_from servers first count zero e v h =
    rw (cone_loop_done servers first count (omega arith)) (ground arith)
cone_loop-cone_from [] first count (suc left) e v h = unfold cone_loop in ground arith
cone_loop-cone_from (probed r ∷ servers) first count (suc left) e v h =
    rw (cone_loop_more (probed r) servers first count (omega arith), v)
      (elim (Bool-cases (addr_port_eq r.mapped first)) [
        | inl same ↦
            rw
              (
                same,
                (addr_port_eq_iff r.mapped first).0 same,
                leb-suc left (length (answers servers)),
              )
              (cone_loop-cone_from servers first (count + 1) left (omega arith) v h.1)
        | inr other ↦ rw other refl
      ])
cone_loop-cone_from (no_answer ∷ servers) first count (suc left) e v h =
    rw (cone_loop_more no_answer servers first count (omega arith))
      (cone_loop-cone_from servers first count (suc left) e v h)
cone_loop-cone_from (cancelled x ∷ servers) first count (suc left) e v h = elim h [ ]

-- Where no probe ends with the context and every answer names a valid address, `CheckTCPCone` looks
-- at the first three answers alone, however many servers fail between them: two different addresses
-- among them are a symmetric NAT, three equal ones a stable mapping, and with less than three
-- answers, all equal, nothing is known.
pub check_tcp_cone-cone_of :
    (servers : List Probed)
    → AllAnswer servers
    → check_tcp_cone servers ≡ ok (cone_of (answers servers))
unfolding check_tcp_cone cone_of answers AllAnswer
check_tcp_cone-cone_of [] h = unfold cone_loop in refl
check_tcp_cone-cone_of (probed r ∷ servers) h =
    cone_loop_more (probed r) servers no_addr_port 0 (omega arith)
    ∙ cone_loop-cone_from servers r.mapped 1 2 refl h.0 h.1
check_tcp_cone-cone_of (no_answer ∷ servers) h =
    cone_loop_more no_answer servers no_addr_port 0 (omega arith) ∙ check_tcp_cone-cone_of servers h
check_tcp_cone-cone_of (cancelled e ∷ servers) h = elim h [ ]
