-- ===== src/Check/Resolve.antt =====
-- go-qnatter/internal/check/check.go: the addresses that the check works with. The parser of
-- `net/netip` and the resolver are parameters.
use qnatter.Common.{
  ℕ, Option, none, some, List, [], ◌∷◌, ◌++◌, Outcome, ok, err, panic, stuck, if◌then◌else◌, Bytes,
  bytes_eq, text,
}
use qnatter.Config.{Config}
use qnatter.Endpoint.{EndpointError, Endpoint, split_host_port_default}
use qnatter.Engine.Wire.{uint16_of_int}
use qnatter.Net.{Addr, v4, AddrPort, is4}
use qnatter.Stun.Mapping.{Server}

pub data ResolveError : Type 0 where
  no_server_address no_ipv4_address lookup_failed : ResolveError
  invalid_endpoint : EndpointError → ResolveError

-- The IPv4 addresses among some, with a port.
unfoldable pub only_ipv4 : ℕ → List Addr → List AddrPort
only_ipv4 port [] = []
only_ipv4 port (a ∷ addrs) =
    let rest = only_ipv4 port addrs in
    if is4 a then record { addr = a; port = port } ∷ rest else rest

module _ (parse_addr : Bytes → Option Addr) (resolve : Bytes → Option (List Addr)) where
  abbrev resolved_name : ℕ → Option (List Addr) → List AddrPort
  resolved_name port none = []
  resolved_name port (some addrs) = only_ipv4 port addrs

  -- The addresses of one server: its own if it is written as an address, or those of its name.
  abbrev pub server_addresses : Server → Option Addr → List AddrPort
  server_addresses s (some a) = only_ipv4 (uint16_of_int s.port) (a ∷ [])
  server_addresses s none = resolved_name (uint16_of_int s.port) (resolve s.host)

  unfoldable pub all_addresses : List Server → List AddrPort
  all_addresses [] = []
  all_addresses (s ∷ servers) = server_addresses s (parse_addr s.host) ++ all_addresses servers

  abbrev some_address : List AddrPort → Outcome ResolveError (List AddrPort)
  some_address [] = err no_server_address
  some_address (a ∷ addrs) = ok (a ∷ addrs)

  -- `resolveSTUNServers`
  unfoldable pub resolve_stun_servers : List Server → Outcome ResolveError (List AddrPort)
  unfolding all_addresses only_ipv4 uint16_of_int
  resolve_stun_servers servers = some_address (all_addresses servers)

  abbrev first_address : List AddrPort → Outcome ResolveError AddrPort
  first_address [] = err no_ipv4_address
  first_address (a ∷ addrs) = ok a

  abbrev looked_up : ℕ → Option (List Addr) → Outcome ResolveError AddrPort
  looked_up port none = err lookup_failed
  looked_up port (some addrs) = first_address (only_ipv4 port addrs)

  abbrev host_address : Bytes → ℕ → Option Addr → Outcome ResolveError AddrPort
  host_address host port (some a) = first_address (only_ipv4 port (a ∷ []))
  host_address host port none = looked_up port (resolve host)

  abbrev of_endpoint : Outcome EndpointError Endpoint → Outcome ResolveError AddrPort
  of_endpoint (ok (host, port)) = host_address host port (parse_addr host)
  of_endpoint (err e) = err (invalid_endpoint e)
  of_endpoint panic = panic
  of_endpoint stuck = stuck

  -- `resolveHostPort`
  unfoldable pub resolve_host_port : Bytes → ℕ → Outcome ResolveError AddrPort
  unfolding only_ipv4 split_host_port_default
  resolve_host_port value default_port = of_endpoint (split_host_port_default value default_port)

  abbrev bound : Bytes → Option Addr → Addr × Bytes
  bound value (some a) = (a, [])
  bound value none = (v4 (0 ∷ 0 ∷ 0 ∷ 0 ∷ []), value)

  -- `bindFromConfig` of the check: an address, and the name of an interface
  unfoldable pub bind_from_config : Config → Addr × Bytes
  bind_from_config cfg =
      let value = if bytes_eq cfg.bind_value [] then text "0.0.0.0" else cfg.bind_value in
      bound value (parse_addr value)
