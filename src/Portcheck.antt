-- ===== src/Portcheck.antt =====
-- go-qnatter/internal/portcheck/portcheck.go: what is concluded on a port from the answers of a
-- dial and of two services.
mod Tests
use qnatter.Common.{
  Bool, true, false, Option, none, some, List, [], ◌∷◌, if◌then◌else◌, Bytes, bytes_eq, text,
  trim_space, ◌≡◌, ◌↔◌, ◌⊎◌, inl, inr, arith,
}

-- `portcheck.Result`
pub data PortResult : Type 0 where
  port_closed port_unknown port_open : PortResult

-- The outcome of a dial: a connection, or an error, which may be ECONNREFUSED.
pub data Dial : Type 0 where
  dialed : Dial
  dial_failed : Bool → Dial

-- `classifyDialResult`
unfoldable pub classify_dial_result : Bool → PortResult
classify_dial_result refused = if refused then port_closed else port_unknown

-- `TestLAN`
unfoldable pub test_lan : Dial → PortResult
unfolding classify_dial_result
test_lan dialed = port_open
test_lan (dial_failed refused) = classify_dial_result refused

-- What a probe gives: a result, or an error.
abbrev pub Probe : Type 0
Probe = Option PortResult

-- `ParseIfconfigResponse`, of the field `reachable`, or of a body that does not decode.
unfoldable pub parse_ifconfig_response : Option Bool → Probe
parse_ifconfig_response none = none
parse_ifconfig_response (some true) = some port_open
parse_ifconfig_response (some false) = some port_closed

-- `ParseTransmissionResponse`
unfoldable pub parse_transmission_response : Bytes → Probe
unfolding trim_space bytes_eq
parse_transmission_response body =
    if bytes_eq (trim_space body) (text "1")
    then some port_open
    else if bytes_eq (trim_space body) (text "0")
    then some port_closed
    else none

-- `testIfconfig` and `testTransmission`, of the body of the answer or an error.
abbrev pub on_body : Option Bytes → (Bytes → Probe) → Probe
on_body none parse = none
on_body (some body) parse = parse body

abbrev says_open : Probe → Bool
says_open (some port_open) = true
says_open _ = false

abbrev both_closed : Probe → Probe → PortResult
both_closed (some port_closed) (some port_closed) = port_closed
both_closed _ _ = port_unknown

-- `TestWAN`, of what both probes give.
unfoldable pub test_wan : Probe → Probe → PortResult
test_wan ifconfig transmission =
    if says_open ifconfig
    then port_open
    else if says_open transmission
    then port_open
    else both_closed ifconfig transmission

-- A port is open exactly if one of the services says so, and closed exactly if both do: an error of
-- a service never makes it closed.
pub test_wan_iff :
    (a b : Probe)
    → ((test_wan a b ≡ port_open) ↔ ((a ≡ some port_open) ⊎ (b ≡ some port_open)))
      × ((test_wan a b ≡ port_closed) ↔ ((a ≡ some port_closed) × (b ≡ some port_closed)))
unfolding test_wan
test_wan_iff none none = ground arith
test_wan_iff none (some port_closed) = ground arith
test_wan_iff none (some port_unknown) = ground arith
test_wan_iff none (some port_open) = ground arith
test_wan_iff (some port_closed) none = ground arith
test_wan_iff (some port_closed) (some port_closed) = ground arith
test_wan_iff (some port_closed) (some port_unknown) = ground arith
test_wan_iff (some port_closed) (some port_open) = ground arith
test_wan_iff (some port_unknown) none = ground arith
test_wan_iff (some port_unknown) (some port_closed) = ground arith
test_wan_iff (some port_unknown) (some port_unknown) = ground arith
test_wan_iff (some port_unknown) (some port_open) = ground arith
test_wan_iff (some port_open) none = ground arith
test_wan_iff (some port_open) (some port_closed) = ground arith
test_wan_iff (some port_open) (some port_unknown) = ground arith
test_wan_iff (some port_open) (some port_open) = ground arith
