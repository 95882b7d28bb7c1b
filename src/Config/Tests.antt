-- ===== src/Config/Tests.antt =====
-- Configurations that the theorems are tried on.
use qnatter.Common.{
  ◌≡◌, refl, true, false, none, some, [], ◌∷◌, ok, Bytes, text, ◌≤◌, Bool, negsuc, pos,
}
use qnatter.Config.{Config}
use qnatter.Config.Numbers.{parse_uint32, parse_uint32_any, atoi, parse_port, parse_port_range}
use qnatter.Config.Validate.{
  validate_config, validate_route_policy, normalize_ipv4, split_dots, numbers, dotted, decimal_byte,
  looks_like_ipv4_literal, valid_interface_name,
}
use qnatter.Config.Accepted.{validate_config_idempotent}
use qnatter.Config.Accepted.Ranges.{IsInRange, validate_config-IsInRange}
use qnatter.Config.Servers.{parse_args, parse_stun_servers, keep_alive_server_of}
use qnatter.Config.Servers.{parse_stun_server, trim_stun_scheme}
use qnatter.Endpoint.{split_host_port_default, count, require_host}

abbrev flags : Config
flags = record {
  instance_id = [];
  route_mark = text "0x4e00_1";
  route_table = text "20001";
  route_priority = text "20001";
  udp = false;
  verbose = false;
  exit_when_changed = false;
  upnp = true;
  keep_alive_interval = pos 15;
  stun_servers = [];
  keep_alive_server = [];
  bind_value = text "pppoe-wan";
  bind_port = pos 0;
  forward_method = [];
  target_ip = text "192.168.257";
  target_port = pos 8080;
  retry_target = false;
  notify_path = [];
  check = false;
}

abbrev validated : Config
validated = record flags { target_ip = text "192.168.1.1" }

check_any : parse_uint32_any (text "0x_ff") ≡ some 255
unfolding parse_uint32_any
check_any = refl

check_any_bad : parse_uint32_any (text "0xff_") ≡ none
unfolding parse_uint32_any
check_any_bad = refl

check_atoi : atoi (text "-7") ≡ some (negsuc 6)
unfolding atoi
check_atoi = refl

normal_form : normalize_ipv4 (text "192.168.257") ≡ some (text "192.168.1.1")
unfolding normalize_ipv4 split_dots numbers parse_uint32 dotted decimal_byte
normal_form = refl

abbrev any_file : Bytes → Bool
any_file path = true

flags_accepted : validate_config any_file flags ≡ ok validated
unfolding validate_config validate_route_policy normalize_ipv4 split_dots numbers parse_uint32
    parse_uint32_any dotted decimal_byte looks_like_ipv4_literal valid_interface_name
flags_accepted = refl

validate_config-IsInRange_example : IsInRange validated
validate_config-IsInRange_example =
    validate_config-IsInRange any_file flags validated flags_accepted

validate_config_idempotent_example : validate_config any_file validated ≡ ok validated
validate_config_idempotent_example =
    validate_config_idempotent any_file flags validated flags_accepted

abbrev one_server : Config
one_server = record validated {
  stun_servers = record { host = text "a.b"; port = pos 3478 } ∷ [];
  keep_alive_server = text "www.qq.com";
}

one_server_given : parse_args any_file flags (text "tcp://a.b" ∷ []) ≡ ok one_server
unfolding parse_args parse_stun_servers keep_alive_server_of parse_stun_server trim_stun_scheme
    split_host_port_default count require_host
one_server_given = rw flags_accepted

parse_port_range_example : (1 ≤ 8080) × (8080 ≤ 65535)
unfolding parse_port atoi
parse_port_range_example = parse_port_range (text "8080") 8080 refl
