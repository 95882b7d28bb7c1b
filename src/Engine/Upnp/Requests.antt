-- ===== src/Engine/Upnp/Requests.antt =====
-- The requests that the mapper sends to a router, field by field.
use qnatter.Common.{
  Bool-cases, inl, inr, ltb, ◌≤◌, not, ◌&&◌, if◌then◌else◌, text, ◌∷◌, ℕ, ◌<◌, ◌≡◌, refl, arith,
  Bool, true, false, none, some, [], leb, Bytes, pos, ap,
}
use qnatter.Engine.Session.Flow.{UpnpMapping}
use qnatter.Upnp.Usable.{IsUsable, is_forward-IsUsable}
use qnatter.Errors.{other}
use qnatter.Upnp.Service.{
  PortMapping, add_port_mapping_request, delete_port_mapping_request, new_add_port_mapping_request,
  new_delete_port_mapping_request, do_soap, Service, Request, SoapAnswer, validate_mapping,
  mapping_protocol, add_port_mapping, delete_port_mapping,
}
use qnatter.Engine.Upnp.{UpnpClient, device, port_mapping, protocol_name, forward, renew, revoke}

-- A call of the router that succeeds: an answer of at most 64 KiB that names no error, of a status
-- from 200 to 299.
abbrev pub takes : SoapAnswer → Bool
takes a =
    not a.failed && leb a.body_length 65536 && not a.fault && leb 200 a.status && ltb a.status 300

do_soap-takes : (a : SoapAnswer) → do_soap a ≡ (if takes a then none else some (other ∷ []))
unfolding do_soap
do_soap-takes a = ground arith

-- A mapping that a session asks for, whose numbers are in range.
abbrev pub IsWithin : UpnpMapping → Type 0
IsWithin m =
    (m.external_port < 65536)
    × (m.internal_port < 65536)
    × ((lease : ℕ) × (m.lease_duration ≡ pos lease) × (lease ≤ 604800))

-- The two requests, field by field.
abbrev protocol_text : Bool → Bytes
protocol_text udp = if udp then text "UDP" else text "TCP"

abbrev pub asked : UpnpMapping → PortMapping
asked m = record {
  remote_host = [];
  external_port = pos m.external_port;
  protocol = if m.udp then text "udp" else text "tcp";
  internal_port = pos m.internal_port;
  internal_client = m.internal_client;
  description = text "QNatter";
  lease_duration = m.lease_duration;
}

abbrev pub add_request : Service → UpnpMapping → Request
add_request s m =
    add_port_mapping_request s.control_url s.service_type (asked m) (protocol_text m.udp)
      (text "QNatter")

abbrev pub delete_request : Service → UpnpMapping → Request
delete_request s m =
    delete_port_mapping_request s.control_url s.service_type [] (pos m.external_port)
      (protocol_text m.udp)

module _ (url_ok : Bytes → Bool) (router : Request → SoapAnswer) (s : Service)
    (m : UpnpMapping) where
  valid : IsWithin m → validate_mapping (port_mapping m) ≡ true
  unfolding validate_mapping port_mapping
  valid h = rw h.2.1 (ground (arith, h.0, h.1, h.2.2))

  added_protocol : (udp : Bool) → mapping_protocol (protocol_name udp) ≡ some (protocol_text udp)
  unfolding mapping_protocol protocol_name
  added_protocol true = refl
  added_protocol false = refl

  add_port_mapping-add_request :
      IsUsable s
      → url_ok s.control_url ≡ true
      → IsWithin m
      → add_port_mapping url_ok router s (port_mapping m) ≡ (
        (if takes (router (add_request s m)) then none else some (other ∷ [])),
        add_request s m ∷ [],
      )
  unfolding add_port_mapping new_add_port_mapping_request port_mapping protocol_name
  add_port_mapping-add_request u ok h =
      rw (added_protocol m.udp, (is_forward-IsUsable s).1 u, valid h, ok)
        (ap (λ e. (e, add_request s m ∷ [])) (do_soap-takes (router (add_request s m))))

  delete_port_mapping-delete_request :
      IsUsable s
      → url_ok s.control_url ≡ true
      → IsWithin m
      → delete_port_mapping url_ok router s (port_mapping m) ≡ (
        (if takes (router (delete_request s m)) then none else some (other ∷ [])),
        delete_request s m ∷ [],
      )
  unfolding delete_port_mapping new_delete_port_mapping_request port_mapping protocol_name
  delete_port_mapping-delete_request u ok h =
      rw (added_protocol m.udp, (is_forward-IsUsable s).1 u, valid h, ok)
        (ap (λ e. (e, delete_request s m ∷ [])) (do_soap-takes (router (delete_request s m))))

  -- The client behind a `Forward` that succeeded.
  abbrev held : UpnpClient
  held = record { service = some s; mapping = some (port_mapping m) }

  -- What the router's answers come to.
  module _ (taken deleted : Bool)
      (add : add_port_mapping url_ok router s (port_mapping m)
        ≡ ((if taken then none else some (other ∷ [])), add_request s m ∷ []))
      (delete : delete_port_mapping url_ok router s (port_mapping m)
        ≡ ((if deleted then none else some (other ∷ [])), delete_request s m ∷ [])) where
    forward_eq :
        (c : UpnpClient)
        → forward url_ok router (device (some s)) m c ≡ (
          (if taken then held else record c { service = none }),
          ((if taken then none else some (other ∷ [])), add_request s m ∷ []),
        )
    unfolding forward
    forward_eq c = rw add (elim (Bool-cases taken) [ inl e ↦ rw e refl | inr e ↦ rw e refl ])

    revoke_eq : revoke url_ok router held ≡ (
      (if deleted then record held { service = none } else held),
      ((if deleted then none else some (other ∷ [])), delete_request s m ∷ []),
    )
    unfolding revoke
    revoke_eq = rw delete (elim (Bool-cases deleted) [ inl e ↦ rw e refl | inr e ↦ rw e refl ])

    renew_eq :
        (renew url_ok router held).1
        ≡ ((if taken then none else some (other ∷ [])), add_request s m ∷ [])
    unfolding renew
    renew_eq = add

  revoke_idle : (c : UpnpClient) → c.service ≡ none → revoke url_ok router c ≡ (c, (none, []))
  unfolding revoke
  revoke_idle c h = rw h refl

  renew_idle : (c : UpnpClient) → c.service ≡ none → renew url_ok router c ≡ (c, (none, []))
  unfolding renew
  renew_idle c h = rw h refl

  -- What is sent by `Forward`, a renewal and a revocation behind it, and by another revocation and a
  -- renewal behind that, if the first request succeeds or not, and the second.
  abbrev pub Sends : Bool → Bool → UpnpClient → Type 0
  Sends taken deleted c =
      let forwarded = forward url_ok router (device (some s)) m c in
      let revoked = revoke url_ok router forwarded.0 in
      (forwarded.1 ≡ ((if taken then none else some (other ∷ [])), add_request s m ∷ []))
      × ((renew url_ok router forwarded.0).1 ≡ (none, (if taken then add_request s m ∷ [] else [])))
      × (revoked.1 ≡ (
        (if taken && not deleted then some (other ∷ []) else none),
        (if taken then delete_request s m ∷ [] else []),
      ))
      × ((revoke url_ok router revoked.0).1.1
          ≡ (if taken && not deleted then delete_request s m ∷ [] else []))
      × ((renew url_ok router revoked.0).1.1
          ≡ (if taken && not deleted then add_request s m ∷ [] else []))

  sends :
      (taken deleted : Bool) (c : UpnpClient)
      → add_port_mapping url_ok router s (port_mapping m)
        ≡ ((if taken then none else some (other ∷ [])), add_request s m ∷ [])
      → delete_port_mapping url_ok router s (port_mapping m)
        ≡ ((if deleted then none else some (other ∷ [])), delete_request s m ∷ [])
      → Sends taken deleted c
  sends true true c a d =
      let gone = record held { service = none } in
      rw (forward_eq true true a d c) (
        rw (revoke_eq true true a d) (
          refl,
          renew_eq true true a d,
          refl,
          ap (λ r. r.1.1) (revoke_idle gone refl),
          ap (λ r. r.1.1) (renew_idle gone refl),
        ))
  sends true false c a d = rw (forward_eq true false a d c) (
      rw (revoke_eq true false a d) (
        refl,
        renew_eq true false a d,
        refl,
        ap (λ r. r.1.1) (revoke_eq true false a d),
        ap (λ r. r.1) (renew_eq true false a d),
      ))
  sends false deleted c a d =
      let idle = record c { service = none } in
      let nothing = revoke_idle idle refl in
      rw (forward_eq false deleted a d c) (
        rw nothing (
          refl,
          ap (λ r. r.1) (renew_idle idle refl),
          refl,
          ap (λ r. r.1.1) nothing,
          ap (λ r. r.1.1) (renew_idle idle refl),
        ))

  -- On a usable service, `Forward` sends one request, which adds the mapping that the session asks
  -- for, whatever the client did before, and it succeeds exactly if the router takes the request. A
  -- renewal behind it sends the same request and a revocation the request that deletes the mapping;
  -- if the router did not take the mapping, both send nothing. Behind a revocation that the router
  -- takes, another one and a renewal send nothing; behind one that it does not, they send what they
  -- would have sent before. The ports of the mapping have sixteen bits, its lease is a week at most.
  pub forward-renew_revoke :
      (c : UpnpClient)
      → IsUsable s
      → url_ok s.control_url ≡ true
      → IsWithin m
      → Sends (takes (router (add_request s m))) (takes (router (delete_request s m))) c
  forward-renew_revoke c u ok h =
      sends (takes (router (add_request s m))) (takes (router (delete_request s m))) c
        (add_port_mapping-add_request u ok h) (delete_port_mapping-delete_request u ok h)
