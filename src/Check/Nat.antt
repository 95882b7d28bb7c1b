-- ===== src/Check/Nat.antt =====
-- go-qnatter/internal/check/check.go: which type of NAT the answers of the servers show.
pub mod Decided
use qnatter.Common.{
  ℕ, Bool, true, false, not, ◌&&◌, ◌||◌, Option, none, some, List, [], ◌∷◌, Outcome, ok, err,
  if◌then◌else◌, is_some, ℤ,
}
use qnatter.Errors.{Error}
use qnatter.Net.{AddrPort, addr_port_eq}

-- `NATType`
pub data NatType : Type 0 where
  nat_unknown nat_open_internet nat_full_cone nat_restricted nat_port_restricted : NatType
  nat_symmetric nat_symmetric_udp_firewall : NatType

-- `Status`; the text of a result is left out
pub data Status : Type 0 where
  na ok_status compat fail : Status

-- `ResultFromNATType`
unfoldable pub result_from_nat_type : NatType → Status
result_from_nat_type nat_open_internet = ok_status
result_from_nat_type nat_full_cone = ok_status
result_from_nat_type nat_unknown = na
result_from_nat_type _ = fail

-- `STUNTestResult`
pub record StunTestResult : Type 0 where
  pub source : AddrPort
  pub mapped : AddrPort
  pub ip_changed : Bool
  pub port_changed : Bool

-- What a probe gives: a result, an error that is passed over, or the error of the context.
pub data Probed : Type 0 where
  probed : StunTestResult → Probed
  no_answer : Probed
  cancelled : Error → Probed

-- `udpProbeMaybe` and `tcpProbeMaybe`: of the result or error of a probe, and the error of the
-- context.
unfoldable pub probe_maybe : Option StunTestResult → Option Error → Probed
probe_maybe (some r) ctx_err = probed r
probe_maybe none (some e) = cancelled e
probe_maybe none none = no_answer

-- The three probes of a server: as it is, with a change of address and port, of the port.
pub record UdpServer : Type 0 where
  pub normal : Probed
  pub changed : Probed
  pub changed_port : Probed

-- The variables of `CheckUDPNATType`.
pub record Tests : Type 0 where
  pub first : Option StunTestResult
  pub second : Option StunTestResult
  pub test2 : Option StunTestResult
  pub test3 : Option StunTestResult

abbrev pub no_tests : Tests
no_tests = record { first = none; second = none; test2 = none; test3 = none }

-- The test of the port, at the end of a round that breaks the loop.
abbrev port_test : Tests → Probed → Outcome Error Tests
port_test t (probed r) = ok (record t { test3 = some r })
port_test t no_answer = ok t
port_test t (cancelled e) = err e

-- The test of the address; a server that does not change both is passed over with `next`.
abbrev changed_test : Tests → Probed → Probed → (Tests → Outcome Error Tests) → Outcome Error Tests
changed_test t (probed r) port next =
    if not r.ip_changed || not r.port_changed
    then next t
    else port_test (record t { test2 = some r }) port
changed_test t no_answer port next = port_test t port
changed_test t (cancelled e) port next = err e

-- A server that answers: the first one is only remembered.
abbrev answered :
    Tests
    → StunTestResult
    → UdpServer
    → (Tests → Outcome Error Tests)
    → Option StunTestResult
    → Outcome Error Tests
answered t r s next none = next (record t { first = some r })
answered t r s next (some _) =
    changed_test (record t { second = some r }) s.changed s.changed_port next

abbrev udp_round : Tests → UdpServer → (Tests → Outcome Error Tests) → Probed → Outcome Error Tests
udp_round t s next (probed r) = answered t r s next t.first
udp_round t s next no_answer = next t
udp_round t s next (cancelled e) = err e

-- The loop over the servers.
unfoldable pub udp_tests : Tests → List UdpServer → Outcome Error Tests
udp_tests t [] = ok t
udp_tests t (s ∷ servers) = udp_round t s (λ t'. udp_tests t' servers) s.normal

-- The conclusion from both results of the first test.
abbrev pub compare_results : Tests → StunTestResult → StunTestResult → NatType
compare_results t first second =
    if not (addr_port_eq first.mapped second.mapped)
    then nat_symmetric
    else if addr_port_eq first.source first.mapped
    then (if is_some t.test2 then nat_open_internet else nat_symmetric_udp_firewall)
    else if is_some t.test2
    then nat_full_cone
    else if is_some t.test3
    then nat_restricted
    else nat_port_restricted

abbrev both_results : Tests → Option StunTestResult → Option StunTestResult → NatType
both_results t (some first) (some second) = compare_results t first second
both_results t _ _ = nat_unknown

-- What follows the loop.
unfoldable pub conclude : Tests → NatType
conclude t = both_results t t.first t.second

abbrev pub concluded : Outcome Error Tests → NatType × Option Error
concluded (ok t) = (conclude t, none)
concluded (err e) = (nat_unknown, some e)
concluded _ = (nat_unknown, none)

-- `CheckUDPNATType`
unfoldable pub check_udp_nat_type : List UdpServer → NatType × Option Error
unfolding udp_tests conclude
check_udp_nat_type servers = concluded (udp_tests no_tests servers)

-- The results of the two TCP checks.
pub data FullCone : Type 0 where
  full_cone_blocked full_cone_unknown full_cone_reachable full_cone_open_internet : FullCone

pub data Cone : Type 0 where
  cone_symmetric cone_unknown cone_stable : Cone

abbrev cone_type : Outcome Error Cone → NatType × Option Error
cone_type (ok cone_stable) = (nat_port_restricted, none)
cone_type (ok cone_symmetric) = (nat_symmetric, none)
cone_type (err e) = (nat_unknown, some e)
cone_type _ = (nat_unknown, none)

-- `CheckTCPNATType`, of what both checks give
unfoldable pub check_tcp_nat_type :
    Outcome Error FullCone → Outcome Error Cone → NatType × Option Error
check_tcp_nat_type (err e) cone = (nat_unknown, some e)
check_tcp_nat_type (ok full_cone_open_internet) cone = (nat_open_internet, none)
check_tcp_nat_type (ok full_cone_reachable) cone = (nat_full_cone, none)
check_tcp_nat_type (ok full_cone_unknown) cone = (nat_unknown, none)
check_tcp_nat_type (ok full_cone_blocked) cone = cone_type cone
check_tcp_nat_type _ cone = (nat_unknown, none)
