-- ===== src/Upnp/Description.antt =====
-- go-qnatter/internal/upnp/service.go: the services of a description and the fault of a response.
-- The tokens of `encoding/xml` are given, up to `io.EOF`.
pub mod Limit
use qnatter.Common.{
  ℕ, ◌+◌, Bool, true, false, not, ◌||◌, Option, none, some, List, [], ◌∷◌, ◌++◌, Outcome, ok, err,
  length, leb, if◌then◌else◌, Bytes, bytes_eq, text, trim_space,
}
use qnatter.Errors.{Error, other}
use qnatter.Upnp.Service.{Service, is_empty}

-- What a round of `ParseServices` reads: an element named `service`, decoded or not, another token,
-- or an error.
pub data Item : Type 0 where
  service_element : Service → Item
  bad_element : Item
  other_token : Item
  token_error : Item

-- `maxServiceCount`
abbrev pub max_service_count : ℕ
max_service_count = 512

abbrev pub incomplete : Service → Bool
incomplete s = is_empty s.service_type || is_empty s.service_id || is_empty s.control_url

-- A complete service is added, and the loop goes on while there are less than the maximum.
abbrev pub add_service :
    List Service
    → Service
    → (List Service → Outcome Error (List Service))
    → Outcome Error (List Service)
add_service services s next =
    if incomplete s
    then next services
    else if leb max_service_count (length (services ++ (s ∷ [])))
    then ok (services ++ (s ∷ []))
    else next (services ++ (s ∷ []))

module _ (resolve : Bytes → Bytes) where
  -- The service of a decoded element; `resolve` is `resolveURL` with the base.
  abbrev pub cleaned : Service → Service
  cleaned raw = record {
    service_type = trim_space raw.service_type;
    service_id = trim_space raw.service_id;
    scpd_url = resolve (trim_space raw.scpd_url);
    control_url = resolve (trim_space raw.control_url);
    event_sub_url = resolve (trim_space raw.event_sub_url);
  }

  -- The loop of `ParseServices`, with `services`.
  unfoldable pub service_loop : List Service → List Item → Outcome Error (List Service)
  service_loop services [] = ok services
  service_loop services (service_element raw ∷ items) =
      add_service services (cleaned raw) (λ services'. service_loop services' items)
  service_loop services (bad_element ∷ items) = err (other ∷ [])
  service_loop services (other_token ∷ items) = service_loop services items
  service_loop services (token_error ∷ items) = err (other ∷ [])

  -- `ParseServices`
  unfoldable pub parse_services : List Item → Outcome Error (List Service)
  unfolding service_loop
  parse_services items = service_loop [] items

-- The tokens that `parseUPnPError` tells apart.
pub data Token : Type 0 where
  start_element char_data end_element : Bytes → Token
  some_token : Token
  broken_token : Token

-- Its three variables.
pub record Fault : Type 0 where
  pub current : Bytes
  pub code : Bytes
  pub description : Bytes

abbrev read_text : Fault → Bytes → Fault
read_text f value =
    if is_empty value
    then f
    else if bytes_eq f.current (text "errorCode")
    then record f { code = value }
    else if bytes_eq f.current (text "errorDescription")
    then record f { description = value }
    else f

-- The loop of `parseUPnPError`.
unfoldable pub fault_loop : Fault → List Token → Bytes × Bytes
unfolding trim_space bytes_eq
fault_loop f [] = (f.code, f.description)
fault_loop f (start_element name ∷ tokens) = fault_loop (record f { current = name }) tokens
fault_loop f (char_data value ∷ tokens) = fault_loop (read_text f (trim_space value)) tokens
fault_loop f (end_element name ∷ tokens) =
    fault_loop (if bytes_eq f.current name then record f { current = [] } else f) tokens
fault_loop f (some_token ∷ tokens) = fault_loop f tokens
fault_loop f (broken_token ∷ tokens) = ([], [])

-- `parseUPnPError`
unfoldable pub parse_upnp_error : List Token → Bytes × Bytes
unfolding fault_loop
parse_upnp_error tokens = fault_loop (record { current = []; code = []; description = [] }) tokens
