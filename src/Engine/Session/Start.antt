-- ===== src/Engine/Session/Start.antt =====
-- `StartSession` as a whole, `Session.Close` and `RunOnce`.
use qnatter.Common.{
  ℕ, Bool, true, false, not, ◌&&◌, ◌||◌, Option, none, some, [], ◌∷◌, if◌then◌else◌, Bytes,
}
use qnatter.Config.{Config}
use qnatter.Errors.{Error, target_closed, missing_stun}
use qnatter.Forward.Factory.{resolve_method}
use qnatter.Engine.Wire.{AddrText}
use qnatter.Net.{Addr, AddrPort}
use qnatter.Stun.Mapping.{Mapping}
use qnatter.Engine.Session.Flow.{
  PortResult, port_closed, port_unknown, PortReport, Result, test_lan, test_wan, on_mapped,
  on_close_error, forwarder_stop, keep_alive_close, upnp_revoke, Trace, Dependencies, no_resources,
  State, Flow, goes, fails, Step, ◌>>=◌, ◌>>◌,
}
use qnatter.Engine.Session.Steps.{
  called, record_call, fail, done, ask, begin_session, probe, with_inner, choose_mapping,
  unstable_mapping, make_forwarder, resolve_target, start_options, start_forwarder, upnp_mapping,
  forward_port, notify_mapping,
}

abbrev is_closed : PortResult → Bool
is_closed port_closed = true
is_closed _ = false

-- A check of a port from the local network.
abbrev pub lan_check : Dependencies → AddrPort → Addr → Step PortResult
lan_check d a source s = goes (d.test_lan s.trace a source) (called (test_lan a source) s)

abbrev pub wan_check : Dependencies → ℕ → Addr → Step PortResult
wan_check d port source s = goes (d.test_wan s.trace port source) (called (test_wan port source) s)

abbrev unchecked : PortReport
unchecked = record {
  checked = false;
  target_lan = port_unknown;
  qnatter_lan = port_unknown;
  outer_lan = port_unknown;
  outer_wan = port_unknown;
}

abbrev pub all_checks : Dependencies → AddrPort → Mapping → Step PortReport
all_checks d target mapping = do
  target_lan ← lan_check d target mapping.inner.addr
  qnatter_lan ← lan_check d mapping.inner mapping.inner.addr
  outer_lan ← lan_check d mapping.outer mapping.inner.addr
  outer_wan ← wan_check d mapping.outer.port mapping.inner.addr
  goes (record {
    checked = true;
    target_lan = target_lan;
    qnatter_lan = qnatter_lan;
    outer_lan = outer_lan;
    outer_wan = outer_wan;
  })

-- `checkInitialPorts`
unfoldable pub check_initial_ports : Dependencies → Config → AddrPort → Mapping → Step PortReport
check_initial_ports d cfg target mapping =
    if cfg.udp || not d.has_initial_check then goes unchecked else all_checks d target mapping

-- `targetClosed`: by the report, or by a check of its own.
unfoldable pub target_is_closed : Dependencies → Result → Step Bool
target_is_closed d r =
    if r.ports.checked
    then goes (is_closed r.ports.target_lan)
    else lan_check d r.target r.mapping.inner.addr >>= λ p. goes (is_closed p)

-- `if cfg.RetryTarget && !cfg.UDP && targetClosed(…)`
unfoldable pub require_target : Dependencies → Config → Result → Step (Unit {0})
require_target d cfg r =
    if cfg.retry_target && not cfg.udp
    then (target_is_closed d r >>= λ c. if c then fail (target_closed ∷ []) else done)
    else done

abbrev pub require_stun : Dependencies → Step (Unit {0})
require_stun d = if d.has_stun then done else fail (missing_stun ∷ [])

abbrev pub chosen_method : Config → Bytes
chosen_method cfg = resolve_method (record {
  method = cfg.forward_method;
  bind_value = cfg.bind_value;
  bind_port = cfg.bind_port;
  target_ip = cfg.target_ip;
  target_port = cfg.target_port;
})

abbrev pub result_of : Bytes → Mapping → AddrPort → Bool → PortReport → Result
result_of method mapping target unstable ports = record {
  method = method;
  mapping = mapping;
  target = target;
  unstable = unstable;
  ports = ports;
}

-- The end of `StartSession`: the report, and the check of the target.
unfoldable pub report_mapped : Dependencies → Config → Result → Step Result
report_mapped d cfg result =
    record_call (on_mapped result) >> require_target d cfg result >> goes result

-- What follows the two observations.
unfoldable pub set_up : Dependencies → AddrText → Config → Mapping → Mapping → Step Result
set_up d n cfg first observed =
    let mapping = choose_mapping first observed in
    let method = chosen_method cfg in
    let target = resolve_target n cfg method mapping in
    make_forwarder d method
    >> start_forwarder d (start_options n cfg mapping target)
    >> forward_port d cfg (upnp_mapping n cfg mapping)
    >> notify_mapping d cfg target mapping
    >> check_initial_ports d cfg target mapping
    >>= λ ports.
        report_mapped d cfg
          (result_of method mapping target (unstable_mapping first observed) ports)

-- The body of `StartSession`.
unfoldable pub start_steps : Dependencies → AddrText → Config → Step Result
start_steps d n cfg = require_stun d >> ask d >>= λ first.
    begin_session d first >> probe d >> ask d >>= λ second.
    set_up d n cfg first (with_inner first second)

abbrev pub first_error : Option Error → Option Error → Option Error
first_error none e = e
first_error (some e) _ = some e

-- The three parts of `Close`.
abbrev pub close_forwarder : Dependencies → State → Option Error × State
close_forwarder d s =
    if s.session.forwarder
    then (
      d.forwarder_stop s.trace,
      record (called forwarder_stop s) { session = record s.session { forwarder = false } },
    )
    else (none, s)

abbrev pub close_keep_alive : Dependencies → State → Option Error × State
close_keep_alive d s =
    if s.session.keep_alive
    then (
      d.keep_alive_close s.trace,
      record (called keep_alive_close s) { session = record s.session { keep_alive = false } },
    )
    else (none, s)

abbrev pub close_upnp : Dependencies → State → Option Error × State
close_upnp d s =
    if s.session.upnp
    then (
      d.upnp_revoke s.trace,
      record (called upnp_revoke s) { session = record s.session { upnp = false } },
    )
    else (none, s)

-- `Session.Close`, with the first error
unfoldable pub close : Dependencies → State → Option Error × State
close d s =
    let a = close_forwarder d s in
    let b = close_keep_alive d a.1 in
    let c = close_upnp d b.1 in (first_error a.0 (first_error b.0 c.0), c.1)

abbrev pub close_report : Option Error × State → State
close_report (none, s) = s
close_report (some e, s) = called (on_close_error e) s

-- The deferred function of `StartSession`: what failed is closed.
abbrev pub deferred : Dependencies → Flow Result → Flow Result
deferred d (goes r s) = goes r s
deferred d (fails e s) = fails e (close_report (close d s))

-- `StartSession`, behind the calls in `trace`
unfoldable pub start_session : Dependencies → AddrText → Config → Trace → Flow Result
unfolding start_steps close
start_session d n cfg trace =
    deferred d (start_steps d n cfg (record { trace = trace; session = no_resources }))

abbrev pub closed_result : Result → Option Error × State → (Option Result × Option Error) × State
closed_result r (e, s) = ((some r, e), s)

abbrev pub finish : Dependencies → Flow Result → (Option Result × Option Error) × State
finish d (fails e s) = ((none, some e), s)
finish d (goes r s) = closed_result r (close d s)

-- `RunOnce`
unfoldable pub run_once :
    Dependencies → AddrText → Config → Trace → (Option Result × Option Error) × State
unfolding start_session
run_once d n cfg trace = finish d (start_session d n cfg trace)
