-- ===== src/Upnp/Tests.antt =====
-- A router and a description that the theorems on the discovery are tried on.
use qnatter.Common.{
  ℕ, zero, suc, ◌≡◌, refl, Option, none, some, true, false, List, [], ◌∷◌, ◌++◌, ok, Returns, Bytes,
  bytes_eq, text, if◌then◌else◌, trim_space, split_at,
}
use qnatter.Net.{Addr, v4, addr_eq}
use qnatter.Upnp.Service.{Service, is_forward, is_forward_type}
use qnatter.Upnp.Url.{
  Url, same_host_port, equal_fold, effective_port, same_origin_services, filtered, resolve_url,
}
use qnatter.Upnp.Description.{Item, service_element, other_token, parse_services, service_loop}
use qnatter.Upnp.Device.{
  Location, Device, Fetched, responded, discover_router, first_router, load_device_description,
  first_forward,
}
use qnatter.Upnp.Device.Origin.{IsRouter, discover_router-IsRouter}
use qnatter.Upnp.Discovery.{
  Resolver, Round, datagram, timed_out, discover_locations, discover_loop, accept,
  parse_ssdp_response, read_lines, cut, same_location_host, any_same_ip, same_ip, has_source,
  has_location,
}
use qnatter.Upnp.Discovery.Quotas.{discover_locations-Returns}
use qnatter.Upnp.Discovery.Quotas.Sources.{Kept, discover_locations-Kept}

abbrev router_ip : Bytes
router_ip = text "10.0.0.1"

abbrev description_url : Bytes
description_url = text "http://10.0.0.1:80/d"

abbrev control_url : Bytes
control_url = text "http://10.0.0.1/c"

abbrev router_url : Bytes → Bytes → Url
router_url port written = record {
  scheme = text "http";
  host = router_ip;
  hostname = router_ip;
  port = port;
  written = written;
}

-- The parsers, on the texts that occur.
parse_url : Bytes → Option Url
unfolding bytes_eq
parse_url s =
    if bytes_eq s description_url
    then some (router_url (text "80") s)
    else if bytes_eq s control_url
    then some (router_url [] s)
    else none

parse_ip : Bytes → Option Addr
unfolding bytes_eq
parse_ip s = if bytes_eq s router_ip then some (v4 (10 ∷ 0 ∷ 0 ∷ 1 ∷ [])) else none

abbrev resolver : Resolver
resolver = record { parse_ip = parse_ip; lookup_host = λ _. none; parse_url = parse_url }

abbrev reply : Bytes
reply =
    text "HTTP/1.1 200 OK" ++ (13 ∷ 10 ∷ (text "Location: http://10.0.0.1:80/d" ++ (13 ∷ 10 ∷ [])))

-- Two equal replies, then nothing.
abbrev rounds : ℕ → Round
rounds zero = record { cancelled = false; read = datagram router_ip reply }
rounds (suc zero) = record { cancelled = false; read = datagram router_ip reply }
rounds _ = record { cancelled = false; read = timed_out }

abbrev location : Location
location = record { ip = router_ip; url = description_url }

discovered : discover_locations resolver true true true rounds ≡ ok (location ∷ [])
unfolding discover_locations discover_loop accept parse_ssdp_response read_lines cut
    same_location_host any_same_ip same_ip has_source has_location parse_url parse_ip equal_fold
    trim_space split_at addr_eq bytes_eq
discovered = refl

discover_locations-Returns_example : Returns (discover_locations resolver true true true rounds)
discover_locations-Returns_example = discover_locations-Returns resolver true true true rounds

discover_locations-Kept_example : Kept resolver (location ∷ [])
discover_locations-Kept_example =
    discover_locations-Kept resolver true true true rounds (location ∷ []) (unfold parse_ip in refl)
      discovered

abbrev wan : Service
wan = record {
  service_type = text "urn:schemas-upnp-org:service:WANIPConnection:1";
  service_id = text "id";
  scpd_url = [];
  control_url = control_url;
  event_sub_url = [];
}

abbrev items : List Item
items = other_token ∷ service_element wan ∷ []

abbrev device : Device
device = record {
  ip = router_ip;
  location = description_url;
  services = wan ∷ [];
  forward_service = some wan;
}

abbrev fetch : Location → Fetched
fetch l = responded 200 (some (900, items))

resolve_reference : Url → Url → Url
resolve_reference base reference = reference

discover_router-IsRouter_example : IsRouter parse_url resolve_reference (location ∷ []) device
discover_router-IsRouter_example =
    discover_router-IsRouter parse_url resolve_reference fetch (location ∷ []) device (
      unfold discover_router first_router load_device_description parse_services service_loop
        trim_space resolve_url parse_url resolve_reference same_host_port equal_fold effective_port
        same_origin_services filtered first_forward is_forward is_forward_type bytes_eq in
      refl)
