-- ===== src/Upnp/Url/Origin.antt =====
-- Only services of the origin of the description are kept.
use qnatter.Common.{
  arith, sym, ◌∙◌, ◌≢◌, Bool, true, false, ◌&&◌, ◌||◌, [], map, text, bytes_eq, bytes_eq_iff,
  if◌then◌else◌, ◌≡◌, refl, true, Option, none, some, List, [], ◌∷◌, Bytes, Bool-cases, inl, inr,
  All,
}
use qnatter.Upnp.Service.{Service}
use qnatter.Config.Numbers.{lower}
use mathlib.Core.Path.{subst}
use qnatter.Upnp.Service.{is_empty}
use qnatter.Upnp.Url.{
  effective_port, equal_fold, Url, with_host, of_origin, filtered, same_origin_services, from_base,
  same_host_port,
}

-- The port that an address names, or the one of its scheme, where there is no port.
pub data HasPort (u : Url) : Bytes → Type 0 where
  listed : {p : Bytes} → u.port ≡ p → p ≢ [] → HasPort u p
  secure : u.port ≡ [] → map lower u.scheme ≡ text "https" → HasPort u (text "443")
  plain : u.port ≡ [] → map lower u.scheme ≢ text "https" → HasPort u (text "80")

-- Both addresses parse and have a host; the names of the hosts are the same but for the case of
-- letters, and so are the ports.
pub record IsSameOrigin (parse_url : Bytes → Option Url) (a b : Bytes) : Type 0 where
  pub url : Url
  pub base : Url
  pub url_parsed : parse_url a ≡ some url
  pub base_parsed : parse_url b ≡ some base
  pub named : url.hostname ≢ []
  pub same_host : map lower url.hostname ≡ map lower base.hostname
  pub port : Bytes
  pub url_port : HasPort url port
  pub base_port : HasPort base port

effective_port-HasPort : (u : Url) → HasPort u (effective_port u.port u.scheme)
unfolding effective_port equal_fold
effective_port-HasPort u = by_port u.port refl
  where
    by_scheme :
        (b : Bool)
        → bytes_eq (map lower u.scheme) (text "https") ≡ b
        → u.port ≡ []
        → HasPort u (if b then text "443" else text "80")
    by_scheme true e h = secure h ((bytes_eq_iff (map lower u.scheme) (text "https")).0 e)
    by_scheme false e h =
        plain h (λ same. cc (sym e ∙ (bytes_eq_iff (map lower u.scheme) (text "https")).1 same))

    by_port : (p : Bytes) → u.port ≡ p → HasPort u (effective_port p u.scheme)
    by_port [] h = by_scheme _ refl h
    by_port (c ∷ p) h = listed h (λ e. cc)

with_host-parsed : (o : Option Url) (u : Url) → with_host o ≡ some u → o ≡ some u
with_host-parsed none u h = cc
with_host-parsed (some v) u h = elim (Bool-cases (is_empty v.host)) [
  | inl e ↦ cc (rw e at h)
  | inr e ↦ rw e at h
]

-- What `sameHostPort` finds.
record Found (a b : Url) : Type 0 where
  named : a.hostname ≢ []
  same_host : map lower a.hostname ≡ map lower b.hostname
  same_port : effective_port a.port a.scheme ≡ effective_port b.port b.scheme

three :
    (n e p : Bool) → (if n then false else (e && p)) ≡ true → (n ≡ false) × (e ≡ true) × (p ≡ true)
three n e p h = ground arith

not_empty : (s : Bytes) (b : Bool) → (is_empty s || b) ≡ false → s ≢ []
not_empty [] b h = cc h
not_empty (c ∷ s) b h = λ e. cc

same_host_port-Found : (a b : Url) → same_host_port a b ≡ true → Found a b
unfolding same_host_port equal_fold
same_host_port-Found a b h =
    let t =
      three (is_empty a.hostname || is_empty b.hostname)
        (bytes_eq (map lower a.hostname) (map lower b.hostname))
        (bytes_eq (effective_port a.port a.scheme) (effective_port b.port b.scheme)) h in
    record {
      named = not_empty a.hostname (is_empty b.hostname) t.0;
      same_host = (bytes_eq_iff (map lower a.hostname) (map lower b.hostname)).0 t.1;
      same_port =
          (bytes_eq_iff (effective_port a.port a.scheme) (effective_port b.port b.scheme)).0 t.2;
    }

module _ (parse_url : Bytes → Option Url) where
  origin :
      (a b : Bytes) (base : Url) (o : Option Url)
      → with_host (parse_url b) ≡ some base
      → with_host (parse_url a) ≡ o
      → of_origin o base ≡ true
      → IsSameOrigin parse_url a b
  origin a b base (some u) h k e =
      let found = same_host_port-Found u base e in
      record {
        url = u;
        base = base;
        url_parsed = with_host-parsed (parse_url a) u k;
        base_parsed = with_host-parsed (parse_url b) base h;
        named = found.named;
        same_host = found.same_host;
        port = effective_port base.port base.scheme;
        url_port = subst (HasPort u) found.same_port (effective_port-HasPort u);
        base_port = effective_port-HasPort base;
      }
  origin a b base none h k e = cc

  filtered-IsSameOrigin :
      (location : Bytes) (base : Url) (services : List Service)
      → with_host (parse_url location) ≡ some base
      → All (λ s. IsSameOrigin parse_url s.control_url location) (filtered parse_url base services)
  unfolding filtered
  filtered-IsSameOrigin location base [] h = tt
  filtered-IsSameOrigin location base (s ∷ services) h =
      let rest = filtered-IsSameOrigin location base services h in
      elim (Bool-cases (of_origin (with_host (parse_url s.control_url)) base)) [
        | inl e ↦ rw e (origin s.control_url location base _ h refl e, rest)
        | inr e ↦ rw e rest
      ]

  pub same_origin_services-IsSameOrigin :
      (services : List Service) (location : Bytes)
      → All
          (λ s. IsSameOrigin parse_url s.control_url location)
          (same_origin_services parse_url services location)
  unfolding same_origin_services
  same_origin_services-IsSameOrigin services location =
      by_base (with_host (parse_url location)) refl
    where
      by_base :
          (o : Option Url)
          → with_host (parse_url location) ≡ o
          → All
              (λ s. IsSameOrigin parse_url s.control_url location)
              (from_base parse_url services o)
      by_base none h = tt
      by_base (some base) h = filtered-IsSameOrigin location base services h
