-- ===== src/Upnp/Usable.antt =====
-- The forward services of service.go, in words of their own.
use qnatter.Common.{
  ◌≡◌, ◌≢◌, ◌⊎◌, ◌↔◌, refl, arith, Bool, true, not, ◌&&◌, [], ◌∷◌, Bytes, bytes_eq_iff, text,
}
use qnatter.Upnp.Service.{Service, is_empty, is_forward, is_forward_type}

-- One of the three types that map ports.
abbrev pub IsForwardType : Bytes → Type 0
IsForwardType t =
    (t ≡ text "urn:schemas-upnp-org:service:WANIPConnection:1")
    ⊎ ((t ≡ text "urn:schemas-upnp-org:service:WANIPConnection:2")
        ⊎ (t ≡ text "urn:schemas-upnp-org:service:WANPPPConnection:1"))

-- A service that maps ports, with an id and an address.
abbrev pub IsUsable : Service → Type 0
IsUsable s = IsForwardType s.service_type × (s.service_id ≢ []) × (s.control_url ≢ [])

is_forward_type-IsForwardType : (t : Bytes) → (is_forward_type t ≡ true) ↔ IsForwardType t
unfolding is_forward_type
is_forward_type-IsForwardType t = ground (
  arith,
  bytes_eq_iff t (text "urn:schemas-upnp-org:service:WANIPConnection:1"),
  bytes_eq_iff t (text "urn:schemas-upnp-org:service:WANIPConnection:2"),
  bytes_eq_iff t (text "urn:schemas-upnp-org:service:WANPPPConnection:1"),
)

is_empty-not : (s : Bytes) → (not (is_empty s) ≡ true) ↔ (s ≢ [])
is_empty-not [] = ((λ h e. cc h), (λ h. absurd (h refl)))
is_empty-not (c ∷ s) = ((λ h e. cc), (λ h. refl))

all_three : (a b c : Bool) → ((a && b && c) ≡ true) ↔ ((a ≡ true) × (b ≡ true) × (c ≡ true))
all_three a b c = ground arith

pub is_forward-IsUsable : (s : Service) → (is_forward s ≡ true) ↔ IsUsable s
unfolding is_forward
is_forward-IsUsable s =
    let type = is_forward_type-IsForwardType s.service_type in
    let id = is_empty-not s.service_id in
    let control = is_empty-not s.control_url in
    let three =
      all_three (is_forward_type s.service_type) (not (is_empty s.service_id))
        (not (is_empty s.control_url)) in
    (
      (λ h. let t = three.0 h in (type.0 t.0, id.0 t.1, control.0 t.2)),
      (λ h. three.1 (type.1 h.0, id.1 h.1, control.1 h.2)),
    )
