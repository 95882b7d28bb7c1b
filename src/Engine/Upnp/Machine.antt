-- ===== src/Engine/Upnp/Machine.antt =====
-- What a session asks of the mapper.
use qnatter.Common.{
  ℕ, ◌<◌, ◌≡◌, refl, arith, Bool, true, false, leb, ℤ, pos, negsuc, in_range, is_positive, is_some,
}
use qnatter.Config.{Config}
use qnatter.Config.Accepted.{IsValid}
use qnatter.Engine.Session.Steps.{upnp_mapping, lease}
use qnatter.Engine.Wire.{AddrText}
use qnatter.Stun.Mapping.{Mapping}
use qnatter.Upnp.Service.{validate_mapping, mapping_protocol, max_lease_duration}
use qnatter.Engine.Upnp.{port_mapping, protocol_name}

signed_lease :
    (z : ℤ)
    → is_positive z ≡ true
    → in_range z 86400 ≡ true
    → in_range (lease z) max_lease_duration ≡ true
unfolding lease
signed_lease (pos n) p h = ground arith
signed_lease (negsuc n) p h = cc

protocol_name-mapping_protocol :
    (udp : Bool) → is_some (mapping_protocol (protocol_name udp)) ≡ true
unfolding mapping_protocol protocol_name
protocol_name-mapping_protocol true = refl
protocol_name-mapping_protocol false = refl

-- With a configuration that `validateConfig` accepts and a local port of sixteen bits, the mapping
-- that a session asks for is one that the UPnP client sends: the lease of three intervals is below the week that is allowed.
pub port_mapping-upnp_mapping :
    (n : AddrText) (cfg : Config) (m : Mapping)
    → IsValid cfg
    → m.inner.port < 65536
    → (validate_mapping (port_mapping (upnp_mapping n cfg m)) ≡ true)
      × (is_some (mapping_protocol (port_mapping (upnp_mapping n cfg m)).protocol) ≡ true)
unfolding validate_mapping upnp_mapping port_mapping
port_mapping-upnp_mapping n cfg m v h = (
  rw (port_ok m.inner.port h, signed_lease cfg.keep_alive_interval v.interval_pos v.interval_max),
  protocol_name-mapping_protocol cfg.udp,
)
  where
    port_ok : (p : ℕ) → p < 65536 → leb p 65535 ≡ true
    port_ok p q = ground arith
