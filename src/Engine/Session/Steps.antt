-- ===== src/Engine/Session/Steps.antt =====
-- The steps of `StartSession`, up to the report of the mapping.
use qnatter.Common.{
  ℕ, ◌+◌, ◌*◌, Bool, true, not, ◌&&◌, ◌||◌, Option, none, some, [], ◌∷◌, if◌then◌else◌, Bytes,
  bytes_eq, text, ℤ, pos, negsuc,
}
use qnatter.Config.{Config}
use qnatter.Errors.{Error, missing_keep_alive, missing_upnp}
use qnatter.Forward.Factory.{is_zero}
use qnatter.Engine.Wire.{bind_from_config, AddrText, uint16_of_int}
use qnatter.Net.{Addr, AddrPort, is_valid, addr_port_eq}
use qnatter.Stun.Mapping.{Mapping}
use qnatter.Engine.Loop.{Answer, answered, failed}
use qnatter.Engine.Session.Flow.{
  StartOptions, UpnpMapping, Call, get_mapping, take_keep_alive, new_keep_alive, keep_alive,
  new_forwarder, forwarder_start, upnp_forward, notify, on_upnp_error, Dependencies, no_resources,
  State, goes, fails, Step,
}

abbrev pub called : Call → State → State
called c s = record s { trace = c ∷ s.trace }

-- A call whose answer does not matter.
abbrev pub record_call : Call → Step (Unit {0})
record_call c s = goes tt (called c s)

abbrev pub fail {ℓ} : {A : Type ℓ} → Error → Step A
fail e s = fails e s

abbrev pub done : Step (Unit {0})
done s = goes tt s

-- `if err != nil { return nil, err }`
abbrev pub unless_error : Option Error → Step (Unit {0})
unless_error none s = goes tt s
unless_error (some e) s = fails e s

abbrev pub answer : Answer → Step Mapping
answer (answered m) s = goes m s
answer (failed e) s = fails e s

-- `deps.STUN.GetMapping(ctx)`
unfoldable pub ask : Dependencies → Step Mapping
ask d s = answer (d.stun s.trace) (called get_mapping s)

-- `session := &Session{KeepAlive: keepAlive}`
abbrev pub holding_keep_alive : State → State
holding_keep_alive s = record s { session = record no_resources { keep_alive = true } }

abbrev pub made_keep_alive : Option Error → Step (Unit {0})
made_keep_alive none s = goes tt (holding_keep_alive s)
made_keep_alive (some e) s = fails e s

-- The keep-alive client: the caller's, or a new one.
unfoldable pub begin_session : Dependencies → Mapping → Step (Unit {0})
begin_session d first s =
    if d.has_keep_alive
    then goes tt (holding_keep_alive (called take_keep_alive s))
    else if d.has_new_keep_alive
    then (let e = d.new_keep_alive s.trace first in
        made_keep_alive e (called (new_keep_alive first e) s))
    else fails (missing_keep_alive ∷ []) s

-- `keepAlive.KeepAlive()`
unfoldable pub probe : Dependencies → Step (Unit {0})
probe d s = unless_error (d.keep_alive s.trace) (called keep_alive s)

-- `if !observed.Inner.IsValid() { observed.Inner = first.Inner }`
unfoldable pub with_inner : Mapping → Mapping → Mapping
with_inner first observed =
    if not (is_valid observed.inner) then record observed { inner = first.inner } else observed

-- Which observation is used.
unfoldable pub choose_mapping : Mapping → Mapping → Mapping
choose_mapping first observed =
    if is_valid first.inner
      && is_valid observed.inner
      && not (addr_port_eq observed.inner first.inner)
    then first
    else observed

-- `unstableMapping`
unfoldable pub unstable_mapping : Mapping → Mapping → Bool
unstable_mapping first second =
    if is_valid first.inner && is_valid second.inner && not (addr_port_eq first.inner second.inner)
    then true
    else is_valid first.outer
      && is_valid second.outer
      && not (addr_port_eq first.outer second.outer)

abbrev pub holding_forwarder : State → State
holding_forwarder s = record s { session = record s.session { forwarder = true } }

abbrev pub made_forwarder : Option Error → Step (Unit {0})
made_forwarder none s = goes tt (holding_forwarder s)
made_forwarder (some e) s = fails e s

-- `newForwarder(method)` and `session.Forwarder = fwd`
unfoldable pub make_forwarder : Dependencies → Bytes → Step (Unit {0})
make_forwarder d method s =
    let e = d.new_forwarder s.trace method in made_forwarder e (called (new_forwarder method e) s)

abbrev parsed_target : AddrPort → ℕ → Option Addr → AddrPort
parsed_target inner port none = inner
parsed_target inner port (some addr) = record { addr = addr; port = port }

-- `resolveTarget`
unfoldable pub resolve_target : AddrText → Config → Bytes → Mapping → AddrPort
unfolding bytes_eq uint16_of_int
resolve_target n cfg method mapping =
    if bytes_eq method (text "none") || bytes_eq method (text "test")
    then mapping.inner
    else let target_ip =
        if bytes_eq cfg.target_ip []
          || bytes_eq cfg.target_ip (text "0.0.0.0")
          || bytes_eq cfg.target_ip (text "127.0.0.1")
        then n.string mapping.inner.addr
        else cfg.target_ip in
      let target_port =
        if is_zero cfg.target_port then pos mapping.outer.port else cfg.target_port in
      parsed_target mapping.inner (uint16_of_int target_port) (n.parse_addr target_ip)

-- The options of `fwd.Start`.
unfoldable pub start_options : AddrText → Config → Mapping → AddrPort → StartOptions
start_options n cfg mapping target = record {
  ip = n.string mapping.inner.addr;
  port = mapping.inner.port;
  target_ip = n.string target.addr;
  target_port = target.port;
  udp = cfg.udp;
  interface = (bind_from_config n cfg).interface;
  route_mark = cfg.route_mark;
  route_table = cfg.route_table;
  route_priority = cfg.route_priority;
}

unfoldable pub start_forwarder : Dependencies → StartOptions → Step (Unit {0})
start_forwarder d o s = unless_error (d.forwarder_start s.trace o) (called (forwarder_start o) s)

-- `cfg.KeepAliveInterval * 3`
unfoldable pub lease : ℤ → ℤ
lease (pos n) = pos (n * 3)
lease (negsuc n) = negsuc (n * 3 + 2)

-- The mapping that is asked of the router.
unfoldable pub upnp_mapping : AddrText → Config → Mapping → UpnpMapping
upnp_mapping n cfg mapping = record {
  external_port = mapping.inner.port;
  internal_port = mapping.inner.port;
  internal_client = n.string mapping.inner.addr;
  udp = cfg.udp;
  lease_duration = lease cfg.keep_alive_interval;
}

abbrev pub forwarded : Option Error → Step (Unit {0})
forwarded none s = goes tt (record s { session = record s.session { upnp = true } })
forwarded (some e) s = goes tt (called (on_upnp_error e) s)

-- `if cfg.UPnP`: an error of the router is reported, and the session goes on without it.
unfoldable pub forward_port : Dependencies → Config → UpnpMapping → Step (Unit {0})
forward_port d cfg m s =
    if not cfg.upnp
    then goes tt s
    else if not d.has_upnp
    then fails (missing_upnp ∷ []) s
    else let e = d.upnp_forward s.trace m in forwarded e (called (upnp_forward m e) s)

unfoldable pub notify_mapping : Dependencies → Config → AddrPort → Mapping → Step (Unit {0})
notify_mapping d cfg target mapping s =
    if d.has_notify
    then unless_error (d.notify s.trace) (called (notify cfg.udp target mapping.outer) s)
    else goes tt s
