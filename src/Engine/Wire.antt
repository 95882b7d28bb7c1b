-- ===== src/Engine/Wire.antt =====
-- go-qnatter/internal/engine/wire.go: what the configuration says of the local end.
use qnatter.Common.{
  Bool, Outcome, ok, ◌>>=◌, ℕ, ◌-◌, ◌%◌, Option, none, some, [], ◌∷◌, map, if◌then◌else◌, Bytes,
  bytes_eq, text, ℤ, pos, negsuc,
}
use qnatter.Config.{Config}
use qnatter.Endpoint.{EndpointError, Endpoint, split_host_port_default}
use qnatter.Stun.Mapping.{Mapping}
use qnatter.Net.{Addr, v4, AddrPort, no_addr_port}
use qnatter.Stun.Client.{Client}

-- `netip.ParseAddr` and `Addr.String`
pub record AddrText : Type 0 where
  pub string : Addr → Bytes
  pub parse_addr : Bytes → Option Addr

-- `uint16(n)` of an `int`
unfoldable pub uint16_of_int : ℤ → ℕ
uint16_of_int (pos n) = n % 65536
uint16_of_int (negsuc n) = 65535 - n % 65536

-- `Bind`
pub record Bind : Type 0 where
  pub source : AddrPort
  pub interface : Bytes

abbrev all_interfaces : Addr
all_interfaces = v4 (0 ∷ 0 ∷ 0 ∷ 0 ∷ [])

abbrev bind_of : ℕ → Bytes → Option Addr → Bind
bind_of port value (some addr) = record {
  source = record { addr = addr; port = port };
  interface = [];
}
bind_of port value none = record {
  source = record { addr = all_interfaces; port = port };
  interface = value;
}

-- `BindFromConfig`, which never fails
unfoldable pub bind_from_config : AddrText → Config → Bind
bind_from_config n cfg =
    let value = if bytes_eq cfg.bind_value [] then text "0.0.0.0" else cfg.bind_value in
    bind_of (uint16_of_int cfg.bind_port) value (n.parse_addr value)

-- `NewSTUNClientFromConfig`: the client, and the interface of its transport
unfoldable pub new_stun_client_from_config : AddrText → Config → Client × Bytes
unfolding bind_from_config
new_stun_client_from_config n cfg =
    let bind = bind_from_config n cfg in
    (
      record {
        servers = map (λ s. record { host = s.host; port = s.port }) cfg.stun_servers;
        source = bind.source;
        udp = cfg.udp;
        initial_source = no_addr_port;
      },
      bind.interface,
    )

-- What `NewKeepAliveFromConfig` makes: a UDP or a TCP client, with its fields.
pub record KeepAliveSettings : Type 0 where
  pub udp : Bool
  pub host : Bytes
  pub port : ℕ
  pub source : AddrPort
  pub interface : Bytes

abbrev settings_of :
    Bool
    → AddrPort
    → Bytes
    → Outcome EndpointError Endpoint
    → Outcome EndpointError KeepAliveSettings
settings_of udp source interface o = do
  endpoint ← o
  ok (record {
    udp = udp;
    host = endpoint.0;
    port = endpoint.1;
    source = source;
    interface = interface;
  })

-- `NewKeepAliveFromConfig`; the default port is that of DNS or HTTP
unfoldable pub new_keep_alive_from_config :
    AddrText → Config → Mapping → Outcome EndpointError KeepAliveSettings
unfolding bind_from_config split_host_port_default
new_keep_alive_from_config n cfg mapping =
    settings_of cfg.udp mapping.inner (bind_from_config n cfg).interface
      (split_host_port_default cfg.keep_alive_server (if cfg.udp then 53 else 80))
