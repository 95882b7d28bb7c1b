-- ===== src/Upnp/Device.antt =====
-- go-qnatter/internal/upnp/device.go and client.go: the description of a device, and the router
-- among the devices. The exchange of HTTP is a parameter.
pub mod Origin
use qnatter.Common.{
  ℕ, Bool, true, false, not, ◌||◌, Option, none, some, List, [], ◌∷◌, Outcome, ok, err, panic,
  stuck, ltb, leb, if◌then◌else◌, Bytes,
}
use qnatter.Errors.{Error, other, no_forward_service}
use qnatter.Upnp.Service.{Service, is_forward}
use qnatter.Upnp.Url.{Url, same_origin_services, resolve_url}
use qnatter.Upnp.Description.{Item, parse_services}

-- `Location`
pub record Location : Type 0 where
  pub ip : Bytes
  pub url : Bytes

-- `Device`; the forward service is a pointer into the services.
pub record Device : Type 0 where
  pub ip : Bytes
  pub location : Bytes
  pub services : List Service
  pub forward_service : Option Service

-- The request fails, or it is answered with a status; reading the body fails, or gives so many
-- bytes, of a description with some items.
pub data Fetched : Type 0 where
  no_response : Fetched
  responded : ℕ → Option (ℕ × List Item) → Fetched

-- `maxDescriptionSize`
abbrev pub max_description_size : ℕ
max_description_size = 1048576

-- The first service that `IsForward` accepts.
unfoldable pub first_forward : List Service → Option Service
unfolding is_forward
first_forward [] = none
first_forward (s ∷ services) =
    let rest = first_forward services in if is_forward s then some s else rest

module _ (parse_url : Bytes → Option Url) (resolve_reference : Url → Url → Url) where
  abbrev device_of : Location → List Service → Device
  device_of l services = record {
    ip = l.ip;
    location = l.url;
    services = services;
    forward_service = first_forward services;
  }

  abbrev of_services : Location → Outcome Error (List Service) → Outcome Error Device
  of_services l (ok services) = ok (device_of l (same_origin_services parse_url services l.url))
  of_services l (err e) = err e
  of_services l panic = panic
  of_services l stuck = stuck

  abbrev of_body : Location → Option (ℕ × List Item) → Outcome Error Device
  of_body l none = err (other ∷ [])
  of_body l (some (size, items)) =
      if ltb max_description_size size
      then err (other ∷ [])
      else of_services l
          (parse_services (λ value. resolve_url parse_url resolve_reference value l.url) items)

  -- `LoadDeviceDescription`
  unfoldable pub load_device_description : Location → Fetched → Outcome Error Device
  unfolding parse_services first_forward same_origin_services resolve_url
  load_device_description l no_response = err (other ∷ [])
  load_device_description l (responded status body) =
      if ltb status 200 || leb 300 status then err (other ∷ []) else of_body l body

  -- A device with a forward service is returned; one that cannot be read is passed over.
  abbrev pub or_next : Outcome Error Device → Outcome Error Device → Outcome Error Device
  or_next (ok d) next = elim d.forward_service [ some _ ↦ ok d | none ↦ next ]
  or_next (err e) next = next
  or_next panic next = panic
  or_next stuck next = stuck

  -- The loop of `DiscoverRouter` over the locations; the error is `ErrNoForwardService`.
  unfoldable pub first_router : (Location → Fetched) → List Location → Outcome Error Device
  unfolding load_device_description
  first_router fetch [] = err (no_forward_service ∷ [])
  first_router fetch (l ∷ locations) =
      or_next (load_device_description l (fetch l)) (first_router fetch locations)

  abbrev of_locations : (Location → Fetched) → Outcome Error (List Location) → Outcome Error Device
  of_locations fetch (ok locations) = first_router fetch locations
  of_locations fetch (err e) = err e
  of_locations fetch panic = panic
  of_locations fetch stuck = stuck

  -- `DiscoverRouter`, of what the discovery gives
  unfoldable pub discover_router :
      (Location → Fetched) → Outcome Error (List Location) → Outcome Error Device
  unfolding first_router
  discover_router fetch locations = of_locations fetch locations
