-- ===== src/Upnp/Discovery/Sender.antt =====
-- Who sent a location, without the tests of the code: lists by membership, addresses by equality.
use mathlib.Core.List.{Memᴰ}
use mathlib.Core.List.Memᴰ.{head, tail}
use qnatter.Common.{
  ◌≡◌, ◌≢◌, ◌⊎◌, inl, inr, refl, sym, ◌∙◌, arith, Bool, true, false, not, ◌&&◌, Option, none, some,
  List, [], ◌∷◌, Bytes, bytes_eq, bytes_eq_iff, text, Bool-cases, if◌then◌else◌,
}
use qnatter.Net.{Addr, addr_eq_iff}
use qnatter.Upnp.Device.{Location}
use qnatter.Upnp.Discovery.{
  Resolver, has_source, has_location, same_ip, any_same_ip, both_equal, same_host, looked_up,
  from_url, same_location_host,
}
use qnatter.Upnp.Service.{is_empty}
use qnatter.Upnp.Url.{Url}

pub has_source-Memᴰ :
    (ip : Bytes) (sources : List Bytes) → has_source ip sources ≡ true → Memᴰ ip sources
unfolding has_source
has_source-Memᴰ ip [] h = cc h
has_source-Memᴰ ip (s ∷ sources) h = elim (Bool-cases (bytes_eq s ip)) [
  | inl e ↦ head (sym ((bytes_eq_iff s ip).0 e))
  | inr e ↦ tail (has_source-Memᴰ ip sources (rw e at h))
]

pub Memᴰ-has_location : (l : Location) (ls : List Location) → Memᴰ l ls → has_location l ls ≡ true
unfolding has_location
Memᴰ-has_location l [] h = elim h [ ]
Memᴰ-has_location l (m ∷ ls) (head e) =
    rw e (ground (arith, bytes_eq_iff m.ip m.ip, bytes_eq_iff m.url m.url))
Memᴰ-has_location l (m ∷ ls) (tail h) = ground (arith, Memᴰ-has_location l ls h)

module _ (r : Resolver) where
  -- Two texts of the same address.
  abbrev pub AreSame : Bytes → Bytes → Type 0
  AreSame a b = (addr : Addr) × (r.parse_ip a ≡ some addr) × (r.parse_ip b ≡ some addr)

  -- A host is an address, or a name that is looked up, one of whose addresses is the sender's.
  pub data IsHostOf (source host : Bytes) : Type 0 where
    literal : AreSame host source → IsHostOf source host
    named :
        {addrs : List Bytes} {a : Bytes}
        → r.parse_ip host ≡ none
        → r.lookup_host host ≡ some addrs
        → Memᴰ a addrs
        → AreSame a source
        → IsHostOf source host

  -- A location is an address of HTTP whose host is the sender.
  pub record IsSent (l : Location) : Type 0 where
    pub url : Url
    pub parsed : r.parse_url l.url ≡ some url
    pub of_http : (url.scheme ≡ text "http") ⊎ (url.scheme ≡ text "https")
    pub host : url.hostname ≢ []
    pub sender : IsHostOf l.ip url.hostname

  same_ip-AreSame : (a b : Bytes) → same_ip r a b ≡ true → AreSame a b
  unfolding same_ip
  same_ip-AreSame a b h = by_both (r.parse_ip a) (r.parse_ip b) refl refl h
    where
      by_both :
          (x y : Option Addr)
          → r.parse_ip a ≡ x
          → r.parse_ip b ≡ y
          → both_equal x y ≡ true
          → AreSame a b
      by_both (some x) (some y) e g k = (x, e, g ∙ (rw ((addr_eq_iff x y).0 k) refl))
      by_both none y e g k = cc k
      by_both (some x) none e g k = cc k

  -- One of the addresses of a name.
  abbrev HasAddress : Bytes → List Bytes → Type 0
  HasAddress source addrs = (a : Bytes) × Memᴰ a addrs × AreSame a source

  any_same_ip-HasAddress :
      (source : Bytes) (addrs : List Bytes)
      → any_same_ip r source addrs ≡ true
      → HasAddress source addrs
  unfolding any_same_ip
  any_same_ip-HasAddress source [] h = cc h
  any_same_ip-HasAddress source (a ∷ addrs) h = elim (Bool-cases (same_ip r a source)) [
    | inl e ↦ (a, head refl, same_ip-AreSame a source e)
    | inr e ↦
        let later = any_same_ip-HasAddress source addrs (rw e at h) in
        (later.0, tail later.1, later.2)
  ]

  same_host-IsHostOf :
      (source host : Bytes) (o : Option Addr)
      → r.parse_ip host ≡ o
      → same_host r source host o ≡ true
      → IsHostOf source host
  same_host-IsHostOf source host (some x) e h = literal (same_ip-AreSame host source h)
  same_host-IsHostOf source host none e h = by_lookup (r.lookup_host host) refl h
    where
      by_lookup :
          (o : Option (List Bytes))
          → r.lookup_host host ≡ o
          → looked_up r source o ≡ true
          → IsHostOf source host
      by_lookup none g k = cc k
      by_lookup (some addrs) g k =
          let found = any_same_ip-HasAddress source addrs k in named e g found.1 found.2

  three :
      (x y e s : Bool)
      → (if not x && not y then false else if e then false else s) ≡ true
      → ((x ≡ true) ⊎ (y ≡ true)) × (e ≡ false) × (s ≡ true)
  three x y e s h = ground arith

  not_empty : (s : Bytes) → is_empty s ≡ false → s ≢ []
  not_empty [] h = cc h
  not_empty (c ∷ s) h = λ e. cc

  one_of : (s a b : Bytes) → (bytes_eq s a ≡ true) ⊎ (bytes_eq s b ≡ true) → (s ≡ a) ⊎ (s ≡ b)
  one_of s a b (inl h) = inl ((bytes_eq_iff s a).0 h)
  one_of s a b (inr h) = inr ((bytes_eq_iff s b).0 h)

  pub same_location_host-IsSent : (l : Location) → same_location_host r l.ip l.url ≡ true → IsSent l
  unfolding same_location_host
  same_location_host-IsSent l h = by_url (r.parse_url l.url) refl h
    where
      by_url : (o : Option Url) → r.parse_url l.url ≡ o → from_url r l.ip o ≡ true → IsSent l
      by_url none e k = cc k
      by_url (some u) e k =
          let t =
            three (bytes_eq u.scheme (text "http")) (bytes_eq u.scheme (text "https"))
              (is_empty u.hostname) (same_host r l.ip u.hostname (r.parse_ip u.hostname)) k in
          record {
            url = u;
            parsed = e;
            of_http = one_of u.scheme (text "http") (text "https") t.0;
            host = not_empty u.hostname t.1;
            sender = same_host-IsHostOf l.ip u.hostname (r.parse_ip u.hostname) refl t.2;
          }
