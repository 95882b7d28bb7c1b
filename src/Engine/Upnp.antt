-- ===== src/Engine/Upnp.antt =====
-- go-qnatter/internal/engine/upnp.go: the mapper that a session uses, as a state machine. What is
-- found on the network and what the router answers are parameters.
pub mod Machine
pub mod Requests
mod Tests
use qnatter.Common.{
  ℕ, Bool, true, false, Option, none, some, List, [], ◌∷◌, if◌then◌else◌, Bytes, text, ℤ, pos,
}
use qnatter.Errors.{Error, no_forward_service}
use qnatter.Engine.Session.Flow.{UpnpMapping}
use qnatter.Upnp.Service.{
  Service, PortMapping, Request, SoapAnswer, Sent, add_port_mapping, delete_port_mapping,
}

-- `UPnPClient`: the service in use, if there is one, and the mapping that was added last.
pub record UpnpClient : Type 0 where
  pub service : Option Service
  pub mapping : Option PortMapping

-- What `DiscoverRouter` gives: an error, no device, or a device with or without a forward service.
pub data Discovery : Type 0 where
  discovery_failed : Error → Discovery
  no_device : Discovery
  device : Option Service → Discovery

-- `protocolName`
unfoldable pub protocol_name : Bool → Bytes
protocol_name udp = if udp then text "udp" else text "tcp"

-- The mapping that is asked of the router.
unfoldable pub port_mapping : UpnpMapping → PortMapping
unfolding protocol_name
port_mapping m = record {
  remote_host = [];
  external_port = pos m.external_port;
  protocol = protocol_name m.udp;
  internal_port = pos m.internal_port;
  internal_client = m.internal_client;
  description = text "QNatter";
  lease_duration = m.lease_duration;
}

-- The client behind a call, with the error of the call and the requests sent.
abbrev pub Mapped : Type 0
Mapped = UpnpClient × Sent

abbrev pub added : UpnpClient → Service → PortMapping → Sent → Mapped
added c s m (none, sent) = (record { service = some s; mapping = some m }, (none, sent))
added c s m (some e, sent) = (record c { service = none }, (some e, sent))

module _ (url_ok : Bytes → Bool) (router : Request → SoapAnswer) where
  -- `Forward`
  unfoldable pub forward : Discovery → UpnpMapping → UpnpClient → Mapped
  forward (discovery_failed e) m c = (c, (some e, []))
  forward no_device m c = (c, (some (no_forward_service ∷ []), []))
  forward (device none) m c = (c, (some (no_forward_service ∷ []), []))
  forward (device (some s)) m c =
      added c s (port_mapping m) (add_port_mapping url_ok router s (port_mapping m))

  renew_with : UpnpClient → Option Service → Option PortMapping → Mapped
  renew_with c (some s) (some m) = (c, add_port_mapping url_ok router s m)
  renew_with c _ _ = (c, (none, []))

  -- `Renew`
  unfoldable pub renew : UpnpClient → Mapped
  unfolding renew_with
  renew c = renew_with c c.service c.mapping

  abbrev pub revoked : UpnpClient → Sent → Mapped
  revoked c (none, sent) = (record c { service = none }, (none, sent))
  revoked c (some e, sent) = (c, (some e, sent))

  revoke_with : UpnpClient → Option Service → Option PortMapping → Mapped
  revoke_with c (some s) (some m) = revoked c (delete_port_mapping url_ok router s m)
  revoke_with c _ _ = (c, (none, []))

  -- `Revoke`
  unfoldable pub revoke : UpnpClient → Mapped
  unfolding revoke_with
  revoke c = revoke_with c c.service c.mapping
