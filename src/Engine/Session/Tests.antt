-- ===== src/Engine/Session/Tests.antt =====
-- Sessions that the theorems are tried on: a router that answers, and a forwarder that fails.
use qnatter.Common.{◌≡◌, refl, true, false, none, some, [], ◌∷◌, pos, Bytes}
use qnatter.Config.{Config}
use qnatter.Errors.{other}
use qnatter.Net.{Addr, no_addr, v4, v6, AddrPort}
use qnatter.Stun.Mapping.{Mapping}
use qnatter.Engine.Loop.{answered}
use qnatter.Engine.Wire.{AddrText}
use qnatter.Engine.Session.Flow.{
  Dependencies, State, get_mapping, take_keep_alive, no_resources, port_open, new_forwarder,
}
use qnatter.Engine.Session.Start.{start_session, run_once}
use qnatter.Engine.Session.Release.{held}
use qnatter.Engine.Session.NoLeak.{Settled, start_session-Settled, run_once_releases}

abbrev inner : AddrPort
inner = record { addr = v4 (192 ∷ 168 ∷ 1 ∷ 2 ∷ []); port = 5000 }

abbrev moved : AddrPort
moved = record { addr = v4 (192 ∷ 168 ∷ 1 ∷ 2 ∷ []); port = 5001 }

abbrev outer : AddrPort
outer = record { addr = v4 (203 ∷ 0 ∷ 113 ∷ 7 ∷ []); port = 40000 }

abbrev first : Mapping
first = record { inner = inner; outer = outer; server = record { host = []; port = pos 3478 } }

abbrev second : Mapping
second = record { inner = moved; outer = outer; server = record { host = []; port = pos 3478 } }

abbrev addr_text : AddrText
addr_text = record { string = bytes_of; parse_addr = λ s. some (v4 s) }
  where
    bytes_of : Addr → Bytes
    bytes_of no_addr = []
    bytes_of (v4 ip) = ip
    bytes_of (v6 ip) = ip

-- The forwarder does not start.
abbrev failing : Dependencies
failing = record {
  has_stun = true;
  stun = λ t. answered first;
  has_keep_alive = false;
  has_new_keep_alive = true;
  new_keep_alive = λ t m. none;
  keep_alive = λ t. none;
  keep_alive_close = λ t. none;
  new_forwarder = λ t m. none;
  forwarder_start = λ t o. some (other ∷ []);
  forwarder_stop = λ t. none;
  has_upnp = false;
  upnp_forward = λ t m. none;
  upnp_revoke = λ t. none;
  has_notify = false;
  notify = λ t. none;
  has_initial_check = false;
  test_lan = λ t a s. port_open;
  test_wan = λ t p s. port_open;
}

abbrev config : Config
config = record {
  instance_id = [];
  route_mark = [];
  route_table = [];
  route_priority = [];
  udp = true;
  verbose = false;
  exit_when_changed = false;
  upnp = false;
  keep_alive_interval = pos 15;
  stun_servers = [];
  keep_alive_server = [];
  bind_value = [];
  bind_port = pos 0;
  forward_method = [];
  target_ip = [];
  target_port = pos 0;
  retry_target = false;
  notify_path = [];
  check = false;
}

no_trace : held [] ≡ no_resources
unfolding held
no_trace = refl

abbrev running : State
running = record {
  trace = new_forwarder [] none ∷ take_keep_alive ∷ get_mapping ∷ [];
  session = record { forwarder = true; keep_alive = true; upnp = false };
}

running-Balanced : held running.trace ≡ running.session
unfolding held
running-Balanced = refl

start_session-Settled_example : Settled (start_session failing addr_text config [])
start_session-Settled_example = start_session-Settled failing addr_text config [] no_trace

run_once_releases_example : held (run_once failing addr_text config []).1.trace ≡ no_resources
run_once_releases_example = run_once_releases failing addr_text config [] no_trace
