-- ===== src/Upnp/Description/Limit.antt =====
-- How many services a description gives, and which.
use qnatter.Common.{
  ◌≤◌, ◌<◌, ◌≡◌, arith, false, List, [], ◌∷◌, ◌++◌, Outcome, ok, length, length-append, leb, Bytes,
  Bool-cases, inl, inr, All, All-append,
}
use qnatter.Errors.{Error}
use qnatter.Upnp.Service.{Service}
use qnatter.Upnp.Description.{
  Item, service_element, bad_element, other_token, token_error, max_service_count, cleaned,
  incomplete, add_service, service_loop, parse_services,
}

-- Services that can be used: they have a type, an identity and a control address.
abbrev pub AreComplete : List Service → Type 0
AreComplete services = All (λ s. incomplete s ≡ false) services

abbrev IsLimited : Outcome Error (List Service) → Type 0
IsLimited (ok services) = (length services ≤ max_service_count) × AreComplete services
IsLimited _ = Unit

add_service-IsLimited :
    (services : List Service) (s : Service) (next : List Service → Outcome Error (List Service))
    → length services < max_service_count
    → AreComplete services
    → ((more : List Service)
        → length more < max_service_count
        → AreComplete more
        → IsLimited (next more))
    → IsLimited (add_service services s next)
add_service-IsLimited services s next few whole h =
    let longer = length-append services (s ∷ []) in
    elim (Bool-cases (incomplete s)) [
      | inl bad ↦ rw bad (h services few whole)
      | inr good ↦
          let wider = All-append (λ t. incomplete t ≡ false) services (s ∷ []) whole (good, tt) in
          rw good (elim (Bool-cases (leb max_service_count (length (services ++ (s ∷ []))))) [
            | inl full ↦ rw full (omega (arith, longer), wider)
            | inr room ↦ rw room (h (services ++ (s ∷ [])) (ground arith) wider)
          ])
    ]

module _ (resolve : Bytes → Bytes) where
  service_loop-IsLimited :
      (services : List Service) (items : List Item)
      → length services < max_service_count
      → AreComplete services
      → IsLimited (service_loop resolve services items)
  unfolding service_loop
  service_loop-IsLimited services [] few whole = (omega arith, whole)
  service_loop-IsLimited services (service_element raw ∷ items) few whole =
      add_service-IsLimited services (cleaned resolve raw) (λ more. service_loop resolve more items)
        few whole (λ more. service_loop-IsLimited more items)
  service_loop-IsLimited services (bad_element ∷ items) few whole = tt
  service_loop-IsLimited services (other_token ∷ items) few whole =
      service_loop-IsLimited services items few whole
  service_loop-IsLimited services (token_error ∷ items) few whole = tt

-- However long a description is, `ParseServices` returns at most 512 services, and each of them has
-- a type, an identity and a control address.
pub parse_services_limit :
    (resolve : Bytes → Bytes) (items : List Item) (services : List Service)
    → parse_services resolve items ≡ ok services
    → (length services ≤ max_service_count) × AreComplete services
unfolding parse_services
parse_services_limit resolve items services e =
    rw e at (service_loop-IsLimited resolve [] items (omega arith) tt)
