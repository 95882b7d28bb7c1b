-- ===== src/Upnp/Service.antt =====
-- go-qnatter/internal/upnp/service.go: the requests that add and delete a port mapping. A request
-- is kept by what goes into it; its text is left out. Protocols are ASCII.
use qnatter.Common.{
  ℕ, ◌*◌, ◌-◌, Bool, true, false, not, ◌&&◌, ◌||◌, Option, none, some, List, [], ◌∷◌, ltb, leb,
  if◌then◌else◌, Bytes, bytes_eq, text, trim_space, map, ℤ, in_range,
}
use qnatter.Errors.{Error, other}

-- `Service`
pub record Service : Type 0 where
  pub service_type : Bytes
  pub service_id : Bytes
  pub scpd_url : Bytes
  pub control_url : Bytes
  pub event_sub_url : Bytes

-- `PortMapping`
pub record PortMapping : Type 0 where
  pub remote_host : Bytes
  pub external_port : ℤ
  pub protocol : Bytes
  pub internal_port : ℤ
  pub internal_client : Bytes
  pub description : Bytes
  pub lease_duration : ℤ

-- `maxLeaseDuration`
abbrev pub max_lease_duration : ℕ
max_lease_duration = 7 * 24 * 60 * 60

abbrev pub is_empty : Bytes → Bool
is_empty [] = true
is_empty (_ ∷ _) = false

-- `forwardServiceTypes`
unfoldable pub is_forward_type : Bytes → Bool
unfolding bytes_eq
is_forward_type t =
    bytes_eq t (text "urn:schemas-upnp-org:service:WANIPConnection:1")
    || bytes_eq t (text "urn:schemas-upnp-org:service:WANIPConnection:2")
    || bytes_eq t (text "urn:schemas-upnp-org:service:WANPPPConnection:1")

-- `IsForward`
unfoldable pub is_forward : Service → Bool
unfolding is_forward_type
is_forward s =
    is_forward_type s.service_type && not (is_empty s.service_id) && not (is_empty s.control_url)

abbrev upper : ℕ → ℕ
upper c = if leb b'a' c && leb c b'z' then c - 32 else c

-- `mappingProtocol`
unfoldable pub mapping_protocol : Bytes → Option Bytes
unfolding trim_space bytes_eq
mapping_protocol value =
    let protocol = map upper (trim_space value) in
    if is_empty protocol
    then some (text "TCP")
    else if not (bytes_eq protocol (text "TCP")) && not (bytes_eq protocol (text "UDP"))
    then none
    else some protocol

-- `validateMapping`
unfoldable pub validate_mapping : PortMapping → Bool
validate_mapping m =
    in_range m.external_port 65535
    && in_range m.internal_port 65535
    && in_range m.lease_duration max_lease_duration

-- What is sent to a router.
pub data Request : Type 0 where
  add_port_mapping_request : Bytes → Bytes → PortMapping → Bytes → Bytes → Request
  delete_port_mapping_request : Bytes → Bytes → Bytes → ℤ → Bytes → Request

abbrev described : Bytes → Bytes
described [] = text "QNatter"
described (c ∷ s) = c ∷ s

abbrev built : Bool → Bool → Bool → Option Bytes → (Bytes → Request) → Option Request
built forward valid url_ok none k = none
built forward valid url_ok (some protocol) k =
    if not forward
    then none
    else if not valid
    then none
    else if not url_ok
    then none
    else some (k protocol)

-- `NewAddPortMappingRequest`, or no request on an error; `url_ok` says which addresses `http.NewRequest` takes.
unfoldable pub new_add_port_mapping_request :
    (Bytes → Bool) → Service → PortMapping → Option Request
unfolding is_forward mapping_protocol validate_mapping
new_add_port_mapping_request url_ok s m =
    built (is_forward s) (validate_mapping m) (url_ok s.control_url) (mapping_protocol m.protocol)
      λ protocol.
        add_port_mapping_request s.control_url s.service_type m protocol (described m.description)

-- `NewDeletePortMappingRequest`
unfoldable pub new_delete_port_mapping_request :
    (Bytes → Bool) → Service → PortMapping → Option Request
unfolding is_forward mapping_protocol validate_mapping
new_delete_port_mapping_request url_ok s m =
    built (is_forward s) (validate_mapping m) (url_ok s.control_url) (mapping_protocol m.protocol)
      λ protocol.
        delete_port_mapping_request s.control_url s.service_type m.remote_host m.external_port
          protocol

-- What the router answers: whether the exchange failed, the length of the body, whether the body
-- names an error, and the HTTP status.
pub record SoapAnswer : Type 0 where
  pub failed : Bool
  pub body_length : ℕ
  pub fault : Bool
  pub status : ℕ

-- `doSOAP`
unfoldable pub do_soap : SoapAnswer → Option Error
do_soap a =
    if a.failed
    then some (other ∷ [])
    else if ltb (64 * 1024) a.body_length
    then some (other ∷ [])
    else if a.fault
    then some (other ∷ [])
    else if ltb a.status 200 || leb 300 a.status
    then some (other ∷ [])
    else none

-- What came of a call: its error, and the requests that went out.
abbrev pub Sent : Type 0
Sent = Option Error × List Request

abbrev pub send : (Request → SoapAnswer) → Option Request → Sent
send router (some request) = (do_soap (router request), request ∷ [])
send router none = (some (other ∷ []), [])

-- `AddPortMapping`
unfoldable pub add_port_mapping :
    (Bytes → Bool) → (Request → SoapAnswer) → Service → PortMapping → Sent
unfolding new_add_port_mapping_request do_soap
add_port_mapping url_ok router s m = send router (new_add_port_mapping_request url_ok s m)

-- `DeletePortMapping`
unfoldable pub delete_port_mapping :
    (Bytes → Bool) → (Request → SoapAnswer) → Service → PortMapping → Sent
unfolding new_delete_port_mapping_request do_soap
delete_port_mapping url_ok router s m = send router (new_delete_port_mapping_request url_ok s m)
