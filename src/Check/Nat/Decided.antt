-- ===== src/Check/Nat/Decided.antt =====
-- When the UDP check has an opinion.
use qnatter.Common.{
  ℕ, suc, ◌≤◌, ◌≡◌, ◌≢◌, refl, ◌↔◌, arith, true, not, ◌||◌, Option, none, some, List, [], ◌∷◌, ok,
  err, panic, stuck, Outcome, leb, Bool-cases, inl, inr, is_some,
}
use qnatter.Errors.{Error}
use qnatter.Check.Nat.{
  StunTestResult, Probed, probed, no_answer, cancelled, UdpServer, Tests, no_tests, NatType,
  nat_unknown, udp_tests, conclude, both_results, check_udp_nat_type, udp_round, answered,
  port_test, changed_test, concluded,
}

-- How many servers answer the first probe.
abbrev counted : Probed → ℕ → ℕ
counted (probed r) n = suc n
counted _ n = n

unfoldable pub answered_count : List UdpServer → ℕ
answered_count [] = 0
answered_count (s ∷ servers) = counted s.normal (answered_count servers)

-- The first result is there, and the second if it was or if one of `n` answers gave it.
abbrev HasBoth : Option StunTestResult → ℕ → Outcome Error Tests → Type 0
HasBoth second n (ok t) =
    (is_some t.first ≡ true) × (is_some t.second ≡ (is_some second || leb 1 n))
HasBoth second n (err e) = Unit
HasBoth second n _ = ⊥

port_test-HasBoth :
    (t : Tests) (n : ℕ) (p : Probed)
    → is_some t.first ≡ true
    → is_some t.second ≡ true
    → HasBoth t.second n (port_test t p)
port_test-HasBoth t n (probed r) f s = (f, ground arith)
port_test-HasBoth t n no_answer f s = (f, ground arith)
port_test-HasBoth t n (cancelled e) f s = tt

changed_test-HasBoth :
    (t : Tests) (n : ℕ) (p port : Probed) (next : Tests → Outcome Error Tests)
    → is_some t.first ≡ true
    → is_some t.second ≡ true
    → HasBoth t.second n (next t)
    → HasBoth t.second n (changed_test t p port next)
changed_test-HasBoth t n (probed r) port next f s h =
    elim (Bool-cases (not r.ip_changed || not r.port_changed)) [
      | inl same ↦ rw same h
      | inr both ↦ rw both (port_test-HasBoth (record t { test2 = some r }) n port f s)
    ]
changed_test-HasBoth t n no_answer port next f s h = port_test-HasBoth t n port f s
changed_test-HasBoth t n (cancelled e) port next f s h = tt

-- A second result is as good as any other one.
HasBoth-some :
    (r : StunTestResult) (second : Option StunTestResult) (n : ℕ) (m : Outcome Error Tests)
    → HasBoth (some r) n m
    → HasBoth second (suc n) m
HasBoth-some r second n (ok t) (f, s) = (f, ground arith)
HasBoth-some r second n (err e) h = tt
HasBoth-some r second n panic h = h
HasBoth-some r second n stuck h = h

module _ (next : Tests → Outcome Error Tests) (n : ℕ)
    (later : (t : Tests) → is_some t.first ≡ true → HasBoth t.second n (next t)) where
  answered-HasBoth :
      (t : Tests) (r : StunTestResult) (s : UdpServer) (o : Option StunTestResult)
      → is_some o ≡ true
      → is_some t.first ≡ true
      → HasBoth (some r) n (answered t r s next o)
  answered-HasBoth t r s (some _) h f =
      changed_test-HasBoth (record t { second = some r }) n s.changed s.changed_port next f refl
        (later (record t { second = some r }) f)
  answered-HasBoth t r s none h f = cc

  udp_round-HasBoth :
      (p : Probed) (t : Tests) (s : UdpServer)
      → is_some t.first ≡ true
      → HasBoth t.second (counted p n) (udp_round t s next p)
  udp_round-HasBoth (probed r) t s f =
      HasBoth-some r t.second n (answered t r s next t.first) (answered-HasBoth t r s t.first f f)
  udp_round-HasBoth no_answer t s f = later t f
  udp_round-HasBoth (cancelled e) t s f = tt

udp_tests-HasBoth :
    (servers : List UdpServer) (t : Tests)
    → is_some t.first ≡ true
    → HasBoth t.second (answered_count servers) (udp_tests t servers)
unfolding udp_tests answered_count
udp_tests-HasBoth [] t f = (f, ground arith)
udp_tests-HasBoth (s ∷ servers) t f =
    udp_round-HasBoth (λ t'. udp_tests t' servers) (answered_count servers)
      (udp_tests-HasBoth servers) s.normal t s f

-- The opinion of a run that did not fail, where `n` servers answered.
abbrev pub Decides : ℕ → NatType × Option Error → Type 0
Decides n (type, some e) = Unit
Decides n (type, none) = (type ≢ nat_unknown) ↔ (2 ≤ n)

both_results-Decides :
    (t : Tests) (n : ℕ)
    → (is_some t.first ≡ true)
    → is_some t.second ≡ leb 1 n
    → Decides (suc n) (concluded (ok t))
unfolding conclude
both_results-Decides t n f s = by_results t.first t.second f s
  where
    by_results :
        (o o' : Option StunTestResult)
        → is_some o ≡ true
        → is_some o' ≡ leb 1 n
        → Decides (suc n) (both_results t o o', none)
    by_results none o' f' s' = cc
    by_results (some first) none f' s' = ground arith
    by_results (some first) (some second) f' s' = ground arith

concluded-Decides :
    (n : ℕ) (m : Outcome Error Tests) → HasBoth none n m → Decides (suc n) (concluded m)
concluded-Decides n (ok t) (f, s) = both_results-Decides t n f s
concluded-Decides n (err e) h = tt
concluded-Decides n panic h = elim h [ ]
concluded-Decides n stuck h = elim h [ ]

first_round-Decides :
    (p : Probed) (s : UdpServer) (servers : List UdpServer)
    → Decides (answered_count servers) (concluded (udp_tests no_tests servers))
    → Decides
        (counted p (answered_count servers))
        (concluded (udp_round no_tests s (λ t. udp_tests t servers) p))
first_round-Decides (probed r) s servers h =
    let t = record no_tests { first = some r } in
    concluded-Decides (answered_count servers) (udp_tests t servers)
      (udp_tests-HasBoth servers t refl)
first_round-Decides no_answer s servers h = h
first_round-Decides (cancelled e) s servers h = tt

tests-Decides :
    (servers : List UdpServer)
    → Decides (answered_count servers) (concluded (udp_tests no_tests servers))
unfolding udp_tests answered_count
tests-Decides [] = unfold conclude in ground arith
tests-Decides (s ∷ servers) = first_round-Decides s.normal s servers (tests-Decides servers)

-- A run of `CheckUDPNATType` that does not fail names a type of NAT exactly if two servers or more
-- answer the first probe. The servers passed over because they change nothing, and the answers to
-- the probes of a changed address and port, only choose the type.
pub check_udp_nat_type-Decides :
    (servers : List UdpServer) → Decides (answered_count servers) (check_udp_nat_type servers)
unfolding check_udp_nat_type
check_udp_nat_type-Decides servers = tests-Decides servers
