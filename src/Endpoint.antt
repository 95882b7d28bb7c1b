-- ===== src/Endpoint.antt =====
-- go-qnatter/internal/endpoint/endpoint.go: a host with an optional port.
pub mod Safety
use qnatter.Common.{
  ℕ, suc, ◌+◌, Bool, false, not, ◌&&◌, Option, none, some, [], ◌∷◌, Outcome, ok, err, panic, ◌>>=◌,
  ◌==◌, if◌then◌else◌, length, Bytes, slice,
}
use qnatter.Config.Numbers.{parse_port}

pub data EndpointError : Type 0 where
  empty_host invalid_port : EndpointError

-- An index of the rest, or that of the first character.
abbrev pub shifted : Bool → Option ℕ → Option ℕ
shifted here (some i) = some (suc i)
shifted here none = if here then some 0 else none

-- `strings.LastIndex` of one character; `none` is -1
unfoldable pub last_index : ℕ → Bytes → Option ℕ
last_index c [] = none
last_index c (x ∷ s) = shifted (x == c) (last_index c s)

-- `strings.Count` of one character
unfoldable pub count : ℕ → Bytes → ℕ
count c [] = 0
count c (x ∷ s) = if x == c then suc (count c s) else count c s

abbrev pub Endpoint : Type 0
Endpoint = Bytes × ℕ

-- `if host == ""`
unfoldable pub require_host : Bytes → ℕ → Outcome EndpointError Endpoint
require_host [] port = err empty_host
require_host (c ∷ host) port = ok (c ∷ host, port)

unfoldable pub with_parsed : Bytes → Option ℕ → Outcome EndpointError Endpoint
unfolding require_host
with_parsed host none = err invalid_port
with_parsed host (some port) = require_host host port

-- What follows the closing bracket.
unfoldable pub behind_bracket : Bytes → Bytes → ℕ → Outcome EndpointError Endpoint
unfolding require_host with_parsed
behind_bracket host [] default_port = require_host host default_port
behind_bracket host (c ∷ rest) default_port =
    if not (c == b':') then err invalid_port else with_parsed host (parse_port rest)

unfoldable pub bracketed : Bytes → ℕ → Option ℕ → Outcome EndpointError Endpoint
unfolding behind_bracket
bracketed value default_port none = err empty_host
bracketed value default_port (some end) = do
  host ← slice value 1 end
  rest ← slice value (end + 1) (length value)
  behind_bracket host rest default_port

-- `value[:idx]` and `value[idx+1:]`, which panic for an index of -1
unfoldable pub at_colon : Bytes → Option ℕ → Outcome EndpointError Endpoint
unfolding with_parsed
at_colon value none = panic
at_colon value (some idx) = do
  host ← slice value 0 idx
  rest ← slice value (idx + 1) (length value)
  with_parsed host (parse_port rest)

-- `SplitHostPortDefault`
unfoldable pub split_host_port_default : Bytes → ℕ → Outcome EndpointError Endpoint
split_host_port_default [] default_port = err empty_host
split_host_port_default (c ∷ s) default_port =
    let value = c ∷ s in
    if c == b'['
    then bracketed value default_port (last_index b']' value)
    else if count b':' value == 1
    then at_colon value (last_index b':' value)
    else require_host value default_port
