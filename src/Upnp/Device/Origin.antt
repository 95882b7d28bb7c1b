-- ===== src/Upnp/Device/Origin.antt =====
-- The router that is found: its forward service stands at the origin of its description.
use qnatter.Common.{
  ℕ, ◌||◌, ◌⊎◌, sym, ◌∙◌, ltb, leb, ◌≡◌, refl, Bool, true, false, Option, none, some, List, [], ◌∷◌,
  Outcome, ok, err, panic, stuck, Bytes, inl, inr, All, if◌then◌else◌,
}
use qnatter.Errors.{Error}
use qnatter.Upnp.Service.{Service, is_forward}
use qnatter.Upnp.Usable.{IsUsable, is_forward-IsUsable}
use qnatter.Upnp.Url.{Url}
use qnatter.Upnp.Url.Origin.{IsSameOrigin, same_origin_services-IsSameOrigin}
use qnatter.Upnp.Description.{Item}
use qnatter.Upnp.Device.{
  Location, Device, Fetched, no_response, responded, first_forward, load_device_description,
  of_body, of_services, first_router, discover_router, or_next, max_description_size,
}

module _ (P : Service → Type 0) where
  -- One step of the search.
  one_forward :
      (x s : Service) (rest : Option Service) (b : Bool)
      → P x
      → is_forward x ≡ b
      → (rest ≡ some s → P s × (is_forward s ≡ true))
      → (if b then some x else rest) ≡ some s
      → P s × (is_forward s ≡ true)
  one_forward x s rest true h t k e = let same : x ≡ s = cc in rw (← same) (h, t)
  one_forward x s rest false h t k e = k e

  first_forward-All :
      (services : List Service) (s : Service)
      → All P services
      → first_forward services ≡ some s
      → P s × (is_forward s ≡ true)
  unfolding first_forward
  first_forward-All [] s h e = cc
  first_forward-All (x ∷ services) s h e =
      one_forward x s (first_forward services) (is_forward x) h.0 refl
        (first_forward-All services s h.1) e

module _ (parse_url : Bytes → Option Url) (resolve_reference : Url → Url → Url) where
  -- A device of a location, whose services are of the origin of that.
  record IsLocal (l : Location) (d : Device) : Type 0 where
    pub at : d.location ≡ l.url
    pub services : All (λ s. IsSameOrigin parse_url s.control_url l.url) d.services
    pub first : d.forward_service ≡ first_forward d.services

  abbrev Loads : Location → Outcome Error Device → Type 0
  Loads l (ok d) = IsLocal l d
  Loads l _ = Unit

  of_services-Loads :
      (l : Location) (m : Outcome Error (List Service))
      → Loads l (of_services parse_url resolve_reference l m)
  of_services-Loads l (ok services) = record {
    at = refl;
    services = same_origin_services-IsSameOrigin parse_url services l.url;
    first = refl;
  }
  of_services-Loads l (err e) = tt
  of_services-Loads l panic = tt
  of_services-Loads l stuck = tt

  Loads-if :
      (l : Location) (b : Bool) (x y : Outcome Error Device)
      → Loads l x
      → Loads l y
      → Loads l (if b then x else y)
  Loads-if l true x y h k = h
  Loads-if l false x y h k = k

  of_body-Loads :
      (l : Location) (body : Option (ℕ × List Item))
      → Loads l (of_body parse_url resolve_reference l body)
  of_body-Loads l none = tt
  of_body-Loads l (some (size, items)) =
      Loads-if l (ltb max_description_size size) _ _ tt (of_services-Loads l _)

  load_device_description-Loads :
      (l : Location) (f : Fetched)
      → Loads l (load_device_description parse_url resolve_reference l f)
  unfolding load_device_description
  load_device_description-Loads l no_response = tt
  load_device_description-Loads l (responded status body) =
      Loads-if l (ltb status 200 || leb 300 status) _ _ tt (of_body-Loads l body)

  -- A router at one of some locations: its forward service is of the origin of the location.
  pub record IsRouterOf (l : Location) (d : Device) : Type 0 where
    pub at : d.location ≡ l.url
    pub service : Service
    pub forward : d.forward_service ≡ some service
    pub usable : IsUsable service
    pub same_origin : IsSameOrigin parse_url service.control_url l.url

  abbrev pub IsRouter : List Location → Device → Type 0
  IsRouter [] d = ⊥
  IsRouter (l ∷ locations) d = IsRouterOf l d ⊎ IsRouter locations d

  abbrev Finds : List Location → Outcome Error Device → Type 0
  Finds locations (ok d) = IsRouter locations d
  Finds locations _ = Unit

  later :
      (l : Location) (locations : List Location) (m : Outcome Error Device)
      → Finds locations m
      → Finds (l ∷ locations) m
  later l locations (ok d) h = inr h
  later l locations (err e) h = tt
  later l locations panic h = tt
  later l locations stuck h = tt

  or_next-Finds :
      (l : Location) (locations : List Location) (m next : Outcome Error Device)
      → Loads l m
      → Finds locations next
      → Finds (l ∷ locations) (or_next parse_url resolve_reference m next)
  or_next-Finds l locations (ok d) next h k = by_forward d.forward_service refl
    where
      by_forward :
          (o : Option Service)
          → d.forward_service ≡ o
          → Finds (l ∷ locations) (elim o [ some _ ↦ ok d | none ↦ next ])
      by_forward none e = later l locations next k
      by_forward (some s) e =
          let found =
            first_forward-All (λ t. IsSameOrigin parse_url t.control_url l.url) d.services s
              h.services (sym h.first ∙ e) in
          inl (record {
            at = h.at;
            service = s;
            forward = e;
            usable = (is_forward-IsUsable s).0 found.1;
            same_origin = found.0;
          })
  or_next-Finds l locations (err e) next h k = later l locations next k
  or_next-Finds l locations panic next h k = tt
  or_next-Finds l locations stuck next h k = tt

  first_router-Finds :
      (fetch : Location → Fetched) (locations : List Location)
      → Finds locations (first_router parse_url resolve_reference fetch locations)
  unfolding first_router
  first_router-Finds fetch [] = tt
  first_router-Finds fetch (l ∷ locations) =
      or_next-Finds l locations _ _ (load_device_description-Loads l (fetch l))
        (first_router-Finds fetch locations)

-- A router that `DiscoverRouter` returns was described at one of the discovered locations, and it
-- has a service of one of the three types that map ports, with an id and a control address, and this
-- address has the host of that location, but for the case of letters, and its port, where an address
-- without a port has the one of its scheme.
pub discover_router-IsRouter :
    (parse_url : Bytes → Option Url) (resolve_reference : Url → Url → Url)
    (fetch : Location → Fetched) (locations : List Location) (d : Device)
    → discover_router parse_url resolve_reference fetch (ok locations) ≡ ok d
    → IsRouter parse_url resolve_reference locations d
unfolding discover_router
discover_router-IsRouter parse_url resolve_reference fetch locations d e =
    rw e at (first_router-Finds parse_url resolve_reference fetch locations)
