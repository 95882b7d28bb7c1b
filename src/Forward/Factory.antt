-- ===== src/Forward/Factory.antt =====
-- go-qnatter/internal/forward/factory.go: which forwarder is used.
use qnatter.Common.{
  Bool, true, false, not, ◌&&◌, ◌||◌, [], Outcome, ok, err, ◌∷◌, if◌then◌else◌, ◌==◌, Bytes,
  bytes_eq, text, ℤ, pos, negsuc,
}
use qnatter.Errors.{Error, unsupported_method}

-- `FactoryOptions`
pub record FactoryOptions : Type 0 where
  pub method : Bytes
  pub bind_value : Bytes
  pub bind_port : ℤ
  pub target_ip : Bytes
  pub target_port : ℤ

abbrev pub is_zero : ℤ → Bool
is_zero (pos n) = n == 0
is_zero (negsuc n) = false

-- `ResolveMethod`
unfoldable pub resolve_method : FactoryOptions → Bytes
unfolding bytes_eq
resolve_method o =
    if not (bytes_eq o.method []) && not (bytes_eq o.method (text "auto"))
    then o.method
    else let target_ip = if bytes_eq o.target_ip [] then text "0.0.0.0" else o.target_ip in
      if bytes_eq target_ip (text "0.0.0.0") && is_zero o.target_port
      then (if (bytes_eq o.bind_value [] || bytes_eq o.bind_value (text "0.0.0.0"))
            && is_zero o.bind_port
          then text "test"
          else text "none")
      else text "socket"

-- The forwarders that `NewForwarder` makes.
pub data ForwarderKind : Type 0 where
  none_forwarder test_server socket_forwarder socat_forwarder gost_forwarder : ForwarderKind
  nftables_forwarder : Bool → ForwarderKind

-- `NewForwarder`
unfoldable pub new_forwarder : Bytes → Outcome Error ForwarderKind
unfolding bytes_eq
new_forwarder method =
    if bytes_eq method (text "none")
    then ok none_forwarder
    else if bytes_eq method (text "test")
    then ok test_server
    else if bytes_eq method (text "socket")
    then ok socket_forwarder
    else if bytes_eq method (text "nftables")
    then ok (nftables_forwarder false)
    else if bytes_eq method (text "nftables-snat")
    then ok (nftables_forwarder true)
    else if bytes_eq method (text "socat")
    then ok socat_forwarder
    else if bytes_eq method (text "gost")
    then ok gost_forwarder
    else err (unsupported_method ∷ [])
