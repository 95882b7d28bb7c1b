-- ===== src/Check/Cone.antt =====
-- go-qnatter/internal/check/check.go: the two checks behind the type of a TCP NAT.
pub mod Answers
use qnatter.Common.{
  ℕ, suc, ◌+◌, Bool, true, false, not, ◌&&◌, Option, none, some, List, [], ◌∷◌, Outcome, ok, err,
  leb, if◌then◌else◌,
}
use qnatter.Errors.{Error}
use qnatter.Net.{AddrPort, no_addr_port, is_valid, addr_port_eq}
use qnatter.Portcheck.{PortResult, port_closed, port_unknown, port_open}
use qnatter.Check.Nat.{
  StunTestResult, Probed, probed, no_answer, cancelled, Cone, cone_symmetric, cone_unknown,
  cone_stable, FullCone, full_cone_blocked, full_cone_unknown, full_cone_reachable,
  full_cone_open_internet,
}

-- The test of an answer against the first one, in front of the other servers.
abbrev cone_round : AddrPort → ℕ → (AddrPort → ℕ → Outcome Error Cone) → Probed → Outcome Error Cone
cone_round first count next (cancelled e) = err e
cone_round first count next no_answer = next first count
cone_round first count next (probed r) =
    if is_valid first && not (addr_port_eq r.mapped first)
    then ok cone_symmetric
    else next r.mapped (count + 1)

-- The loop over the servers, with `mappedFirst` and `count`.
unfoldable pub cone_loop : AddrPort → ℕ → List Probed → Outcome Error Cone
cone_loop first count [] = if leb 3 count then ok cone_stable else ok cone_unknown
cone_loop first count (p ∷ servers) = elim (leb 3 count) [
  | true ↦ ok cone_stable
  | false ↦ cone_round first count (λ first' count'. cone_loop first' count' servers) p
]

-- `CheckTCPCone`, of what the probe of each server gives
unfoldable pub check_tcp_cone : List Probed → Outcome Error Cone
unfolding cone_loop
check_tcp_cone servers = cone_loop no_addr_port 0 servers

-- What `CheckTCPFullCone` acquires and releases.
pub data FullConeCall : Type 0 where
  listen get_mapping check_port close_listener close_keep_alive : FullConeCall

-- The answers to its calls: the listener, the mapping with a keep-alive connection or without, the
-- port check.
pub record FullConeAnswers : Type 0 where
  pub listens : Bool
  pub mapping : Option StunTestResult
  pub has_keep_alive : Bool
  pub port : Option PortResult

abbrev full_cone_result : Option PortResult → FullCone
full_cone_result (some port_open) = full_cone_reachable
full_cone_result (some port_closed) = full_cone_blocked
full_cone_result _ = full_cone_unknown

-- The deferred `Close` calls run in the reverse order.
abbrev closing : Bool → List FullConeCall
closing has_keep_alive =
    if has_keep_alive then close_keep_alive ∷ close_listener ∷ [] else close_listener ∷ []

abbrev with_mapping : FullConeAnswers → Option StunTestResult → FullCone × List FullConeCall
with_mapping a none = (full_cone_unknown, get_mapping ∷ close_listener ∷ [])
with_mapping a (some m) =
    if addr_port_eq m.source m.mapped
    then (full_cone_open_internet, get_mapping ∷ closing a.has_keep_alive)
    else (full_cone_result a.port, get_mapping ∷ check_port ∷ closing a.has_keep_alive)

-- `CheckTCPFullCone`, which never fails, with its calls in order
unfoldable pub check_tcp_full_cone : FullConeAnswers → FullCone × List FullConeCall
check_tcp_full_cone a =
    if not a.listens
    then (full_cone_unknown, listen ∷ [])
    else let later = with_mapping a a.mapping in (later.0, listen ∷ later.1)
