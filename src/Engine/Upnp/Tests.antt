-- ===== src/Engine/Upnp/Tests.antt =====
-- A router that the theorems on the mapper are tried on.
use qnatter.Common.{
  inl, ◌≡◌, refl, arith, Bool, true, false, none, [], ◌∷◌, Bytes, text, pos, is_some,
}
use qnatter.Config.{Config}
use qnatter.Config.Accepted.{IsValid}
use qnatter.Config.Validate.{normalize_ipv4, split_dots, numbers, dotted, decimal_byte}
use qnatter.Config.Numbers.{parse_uint32}
use qnatter.Net.{v4}
use qnatter.Engine.Session.Flow.{UpnpMapping}
use qnatter.Engine.Session.Steps.{upnp_mapping}
use qnatter.Engine.Wire.{AddrText}
use qnatter.Stun.Mapping.{Mapping}
use qnatter.Upnp.Service.{
  add_port_mapping_request, Service, Request, SoapAnswer, validate_mapping, mapping_protocol,
}
use qnatter.Engine.Upnp.{UpnpClient, port_mapping}
use qnatter.Engine.Upnp.Machine.{port_mapping-upnp_mapping}
use qnatter.Engine.Upnp.Requests.{Sends, forward-renew_revoke}
use qnatter.Upnp.Usable.{IsUsable}

abbrev service : Service
service = record {
  service_type = text "urn:schemas-upnp-org:service:WANIPConnection:1";
  service_id = text "id";
  scpd_url = [];
  control_url = text "http://192.168.1.1/c";
  event_sub_url = [];
}

abbrev wanted : UpnpMapping
wanted = record {
  external_port = 5000;
  internal_port = 5000;
  internal_client = text "192.168.1.2";
  udp = true;
  lease_duration = pos 45;
}

abbrev all_urls : Bytes → Bool
all_urls u = true

abbrev willing : Request → SoapAnswer
willing r = record { failed = false; body_length = 100; fault = false; status = 200 }

abbrev idle : UpnpClient
idle = record { service = none; mapping = none }

service-IsUsable : IsUsable service
service-IsUsable = (inl refl, (λ e. cc), (λ e. cc))

-- The router takes the mapping, but does not delete it.
abbrev half_willing : Request → SoapAnswer
half_willing (add_port_mapping_request a b c d e) = willing (add_port_mapping_request a b c d e)
half_willing r = record (willing r) { status = 500 }

forward-renew_revoke_example : Sends all_urls half_willing service wanted true false idle
forward-renew_revoke_example =
    forward-renew_revoke all_urls half_willing service wanted idle service-IsUsable refl
      (omega arith, omega arith, (45, refl, omega arith))

abbrev config : Config
config = record {
  instance_id = [];
  route_mark = [];
  route_table = [];
  route_priority = [];
  udp = true;
  verbose = false;
  exit_when_changed = false;
  upnp = true;
  keep_alive_interval = pos 86400;
  stun_servers = [];
  keep_alive_server = [];
  bind_value = [];
  bind_port = pos 0;
  forward_method = [];
  target_ip = text "1.2.3.4";
  target_port = pos 0;
  retry_target = false;
  notify_path = [];
  check = false;
}

config-IsValid : IsValid config
unfolding normalize_ipv4 split_dots numbers parse_uint32 dotted decimal_byte
config-IsValid = record {
  interval_pos = refl;
  interval_max = refl;
  bind_port_fits = refl;
  target_port_fits = refl;
  target_normal = refl;
}

abbrev no_text : AddrText
no_text = record { string = λ a. []; parse_addr = λ s. none }

abbrev mapping : Mapping
mapping = record {
  inner = record { addr = v4 (192 ∷ 168 ∷ 1 ∷ 2 ∷ []); port = 5000 };
  outer = record { addr = v4 (203 ∷ 0 ∷ 113 ∷ 7 ∷ []); port = 40000 };
  server = record { host = []; port = pos 3478 };
}

port_mapping-upnp_mapping_example :
    (validate_mapping (port_mapping (upnp_mapping no_text config mapping)) ≡ true)
    × (is_some (mapping_protocol (port_mapping (upnp_mapping no_text config mapping)).protocol)
        ≡ true)
port_mapping-upnp_mapping_example =
    port_mapping-upnp_mapping no_text config mapping config-IsValid (omega arith)
