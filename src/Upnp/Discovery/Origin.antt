-- ===== src/Upnp/Discovery/Origin.antt =====
-- A location that a response gives names a host that is the sender of the response.
use qnatter.Common.{
  ◌≡◌, refl, arith, true, false, not, Option, none, some, List, [], ◌∷◌, Bytes, Bool-cases, inl,
  inr, trim_space, split_at, text,
}
use qnatter.Net.{Addr}
use qnatter.Upnp.Url.{Url, equal_fold}
use qnatter.Upnp.Device.{Location}
use qnatter.Upnp.Discovery.{
  Resolver, parse_ssdp_response, read_lines, of_line, cut, same_location_host, from_url, same_host,
  looked_up, any_same_ip, same_ip, both_equal,
}

-- A response gives no location, or one of its sender whose host is the sender.
abbrev pub IsTrusted : Resolver → Location → Type 0
IsTrusted r l = same_location_host r l.ip l.url ≡ true

abbrev pub IsFrom : Resolver → Bytes → Option Location → Type 0
IsFrom r ip none = Unit
IsFrom r ip (some l) = (l.ip ≡ ip) × IsTrusted r l

of_line-IsFrom :
    (r : Resolver) (ip : Bytes) (line : Option (Bytes × Bytes)) (rest : Option Location)
    → IsFrom r ip rest
    → IsFrom r ip (of_line r ip line rest)
of_line-IsFrom r ip none rest h = h
of_line-IsFrom r ip (some (name, text_)) rest h =
    elim (Bool-cases (not (equal_fold name (text "LOCATION")))) [
      | inl other ↦ rw other h
      | inr is_location ↦
          rw is_location (elim (Bool-cases (same_location_host r ip (trim_space text_))) [
            | inl same ↦ rw same (refl, same)
            | inr strange ↦ rw strange tt
          ])
    ]

pub read_lines-IsFrom :
    (r : Resolver) (ip : Bytes) (lines : List Bytes) → IsFrom r ip (read_lines r ip lines)
unfolding read_lines
read_lines-IsFrom r ip [] = tt
read_lines-IsFrom r ip (line ∷ lines) =
    of_line-IsFrom r ip (cut (trim_space line)) _ (read_lines-IsFrom r ip lines)

pub parse_ssdp_response-IsFrom :
    (r : Resolver) (data_ ip : Bytes) → IsFrom r ip (parse_ssdp_response r data_ ip)
unfolding parse_ssdp_response
parse_ssdp_response-IsFrom r data_ ip = read_lines-IsFrom r ip (split_at 10 data_)

-- Nothing is of a sender that is no address.
same_ip_empty : (r : Resolver) (a b : Bytes) → r.parse_ip b ≡ none → same_ip r a b ≡ false
unfolding same_ip
same_ip_empty r a b h = rw h (both_none (r.parse_ip a))
  where
    both_none : (o : Option Addr) → both_equal o none ≡ false
    both_none none = refl
    both_none (some _) = refl

any_same_ip_empty :
    (r : Resolver) (b : Bytes) (addrs : List Bytes)
    → r.parse_ip b ≡ none
    → any_same_ip r b addrs ≡ false
unfolding any_same_ip
any_same_ip_empty r b [] h = refl
any_same_ip_empty r b (a ∷ addrs) h = rw (same_ip_empty r a b h) (any_same_ip_empty r b addrs h)

same_host_empty :
    (r : Resolver) (b host : Bytes) (o : Option Addr)
    → r.parse_ip b ≡ none
    → same_host r b host o ≡ false
same_host_empty r b host (some _) h = same_ip_empty r host b h
same_host_empty r b host none h = by_lookup (r.lookup_host host)
  where
    by_lookup : (o : Option (List Bytes)) → looked_up r b o ≡ false
    by_lookup none = refl
    by_lookup (some addrs) = any_same_ip_empty r b addrs h

pub same_location_host_empty :
    (r : Resolver) (b location : Bytes)
    → r.parse_ip b ≡ none
    → same_location_host r b location ≡ false
unfolding same_location_host
same_location_host_empty r b location h = by_url (r.parse_url location)
  where
    by_url : (o : Option Url) → from_url r b o ≡ false
    by_url none = refl
    by_url (some u) = ground (arith, same_host_empty r b u.hostname (r.parse_ip u.hostname) h)
