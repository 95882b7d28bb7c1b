-- ===== src/Upnp/Url.antt =====
-- go-qnatter/internal/upnp/service.go and client.go: which addresses are of the same origin. The
-- parser of `net/url` and its resolution of references are parameters. Host names are ASCII.
pub mod Origin
use qnatter.Common.{
  ℕ, Bool, true, false, not, ◌&&◌, ◌||◌, Option, none, some, List, [], ◌∷◌, length, leb, ◌==◌,
  if◌then◌else◌, Bytes, bytes_eq, text, map,
}
use qnatter.Config.Numbers.{lower}
use qnatter.Upnp.Service.{Service, is_empty}

-- What the program asks of a `url.URL`: `Scheme`, `Host`, `Hostname()`, `Port()` and `String()`.
pub record Url : Type 0 where
  pub scheme : Bytes
  pub host : Bytes
  pub hostname : Bytes
  pub port : Bytes
  pub written : Bytes

-- `strings.EqualFold` on ASCII
unfoldable pub equal_fold : Bytes → Bytes → Bool
unfolding bytes_eq
equal_fold a b = bytes_eq (map lower a) (map lower b)

-- `effectivePort`
unfoldable pub effective_port : Bytes → Bytes → Bytes
unfolding equal_fold
effective_port port scheme =
    if not (is_empty port)
    then port
    else if equal_fold scheme (text "https")
    then text "443"
    else text "80"

-- `sameHostPort`, on what both calls of it pass
unfoldable pub same_host_port : Url → Url → Bool
unfolding effective_port equal_fold bytes_eq
same_host_port a b =
    if is_empty a.hostname || is_empty b.hostname
    then false
    else equal_fold a.hostname b.hostname
      && bytes_eq (effective_port a.port a.scheme) (effective_port b.port b.scheme)

-- `CheckRedirect` of `DefaultHTTPClient`, of the new request and the former ones, the first one first
unfoldable pub check_redirect : Url → List Url → Bool
unfolding same_host_port
check_redirect to [] = false
check_redirect to (origin ∷ via) =
    if not (same_host_port to origin) then false else not (leb 3 (length (origin ∷ via)))

-- A parsed address that has a host.
abbrev pub with_host : Option Url → Option Url
with_host none = none
with_host (some u) = if is_empty u.host then none else some u

abbrev pub of_origin : Option Url → Url → Bool
of_origin none base = false
of_origin (some u) base = same_host_port u base

module _ (parse_url : Bytes → Option Url) where
  -- The loop of `sameOriginServices`.
  unfoldable pub filtered : Url → List Service → List Service
  filtered base [] = []
  filtered base (s ∷ services) =
      let rest = filtered base services in
      if of_origin (with_host (parse_url s.control_url)) base then s ∷ rest else rest

  abbrev from_base : List Service → Option Url → List Service
  from_base services none = []
  from_base services (some base) = filtered base services

  -- `sameOriginServices`
  unfoldable pub same_origin_services : List Service → Bytes → List Service
  unfolding filtered
  same_origin_services services origin = from_base services (with_host (parse_url origin))

module _ (parse_url : Bytes → Option Url) (resolve_reference : Url → Url → Url) where
  abbrev resolved : Url → Url → Bytes
  resolved base to =
      if is_empty to.host then [] else if not (same_host_port to base) then [] else to.written

  abbrev from_reference : Url → Option Url → Bytes
  from_reference base none = []
  from_reference base (some reference) = resolved base (resolve_reference base reference)

  abbrev against : Bytes → Option Url → Bytes
  against value none = []
  against value (some base) = from_reference base (parse_url value)

  -- `resolveURL`
  unfoldable pub resolve_url : Bytes → Bytes → Bytes
  unfolding same_host_port
  resolve_url value base_url =
      if is_empty value then [] else against value (with_host (parse_url base_url))
