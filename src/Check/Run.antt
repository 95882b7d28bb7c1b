-- ===== src/Check/Run.antt =====
-- go-qnatter/internal/check/check.go: the two probes and what the command prints. The parser of
-- `net/netip`, the resolver, and what the servers answer to each check are parameters.
use qnatter.Common.{
  Option, none, some, List, Outcome, ok, err, panic, stuck, ◌>>=◌, Bytes, if◌then◌else◌,
}
use qnatter.Config.{Config}
use qnatter.Errors.{Error}
use qnatter.Net.{Addr, AddrPort}
use qnatter.Check.Nat.{
  NatType, Status, fail, result_from_nat_type, Probed, UdpServer, check_udp_nat_type,
  check_tcp_nat_type,
}
use qnatter.Check.Cone.{FullConeAnswers, check_tcp_full_cone, check_tcp_cone}
use qnatter.Check.Docker.{DockerEnv, check_docker_network}
use qnatter.Check.Resolve.{ResolveError, resolve_stun_servers, resolve_host_port}

-- `CheckTCP`
unfoldable pub check_tcp : FullConeAnswers → List Probed → NatType × Option Error
unfolding check_tcp_full_cone check_tcp_cone check_tcp_nat_type
check_tcp answers servers =
    check_tcp_nat_type (ok (check_tcp_full_cone answers).0) (check_tcp_cone servers)

pub data ProbeError : Type 0 where
  not_resolved : ResolveError → ProbeError
  check_failed : Error → ProbeError

abbrev resolved {ℓ} : {A : Type ℓ} → Outcome ResolveError A → Outcome ProbeError A
resolved (ok a) = ok a
resolved (err e) = err (not_resolved e)
resolved panic = panic
resolved stuck = stuck

-- The end of both probes.
abbrev judged : NatType × Option Error → Outcome ProbeError Status
judged (type, none) = ok (result_from_nat_type type)
judged (type, some e) = err (check_failed e)

module _ (parse_addr : Bytes → Option Addr) (resolve : Bytes → Option (List Addr))
    (tcp_answers : List AddrPort → AddrPort → FullConeAnswers × List Probed)
    (udp_answers : List AddrPort → List UdpServer) where
  -- `tcpProbe`
  unfoldable pub tcp_probe : Config → Outcome ProbeError Status
  unfolding check_tcp resolve_stun_servers resolve_host_port result_from_nat_type
  tcp_probe cfg = do
    servers ← resolved (resolve_stun_servers parse_addr resolve cfg.stun_servers)
    keep_alive ← resolved (resolve_host_port parse_addr resolve cfg.keep_alive_server 80)
    let answers = tcp_answers servers keep_alive
    judged (check_tcp answers.0 answers.1)

  -- `udpProbe`
  unfoldable pub udp_probe : Config → Outcome ProbeError Status
  unfolding check_udp_nat_type resolve_stun_servers result_from_nat_type
  udp_probe cfg = do
    servers ← resolved (resolve_stun_servers parse_addr resolve cfg.stun_servers)
    judged (check_udp_nat_type (udp_answers servers))

-- The status that `printInfo` prints: a probe that fails is a failed check.
unfoldable pub print_info : Outcome ProbeError Status → Status
print_info (ok s) = s
print_info _ = fail

-- `Runner.Run`: the status of each probe, or none if host networking is required.
unfoldable pub run :
    DockerEnv → Outcome ProbeError Status → Outcome ProbeError Status → Option (Status × Status)
unfolding check_docker_network print_info
run env tcp udp = if check_docker_network env then none else some (print_info tcp, print_info udp)
