-- ===== src/Upnp/Discovery.antt =====
-- go-qnatter/internal/upnp/discovery.go: the search for devices. The parsers of `net` and `net/url`,
-- the resolver, and what each read of the socket gives are parameters. Texts are ASCII.
pub mod Origin
pub mod Sender
pub mod Quotas
use qnatter.Common.{
  ℕ, zero, suc, ◌+◌, ◌*◌, ◌≡◌, Bool, true, false, not, ◌&&◌, ◌||◌, Option, none, some, List, [],
  ◌∷◌, ◌++◌, Outcome, ok, err, stuck, length, take, ltb, leb, ◌==◌, if◌then◌else◌, Bytes, bytes_eq,
  text, trim_space, split_at,
}
use qnatter.Errors.{Error, other}
use qnatter.Net.{Addr, addr_eq}
use qnatter.Upnp.Service.{is_empty}
use qnatter.Upnp.Url.{Url, equal_fold}
use qnatter.Upnp.Device.{Location}

abbrev pub max_ssdp_replies : ℕ
max_ssdp_replies = 256

abbrev pub max_ssdp_locations : ℕ
max_ssdp_locations = 64

abbrev pub max_ssdp_sources : ℕ
max_ssdp_sources = 16

abbrev pub ssdp_read_buffer_size : ℕ
ssdp_read_buffer_size = 4096

abbrev pub max_ssdp_datagram : ℕ
max_ssdp_datagram = 65507

-- `strings.Cut` at a colon
abbrev in_front : ℕ → Option (Bytes × Bytes) → Option (Bytes × Bytes)
in_front c none = none
in_front c (some (name, value)) = some (c ∷ name, value)

unfoldable pub cut : Bytes → Option (Bytes × Bytes)
cut [] = none
cut (c ∷ s) = let rest = cut s in if c == b':' then some ([], s) else in_front c rest

-- `net.ParseIP`, with an IPv4 address in one form; `LookupHost`; `url.Parse`.
pub record Resolver : Type 0 where
  pub parse_ip : Bytes → Option Addr
  pub lookup_host : Bytes → Option (List Bytes)
  pub parse_url : Bytes → Option Url

abbrev both_equal : Option Addr → Option Addr → Bool
both_equal (some a) (some b) = addr_eq a b
both_equal _ _ = false

-- `sameIP`
unfoldable pub same_ip : Resolver → Bytes → Bytes → Bool
unfolding addr_eq
same_ip r a b = both_equal (r.parse_ip a) (r.parse_ip b)

-- The loop of `sameLocationHost` over the addresses of a name.
unfoldable pub any_same_ip : Resolver → Bytes → List Bytes → Bool
unfolding same_ip
any_same_ip r source [] = false
any_same_ip r source (a ∷ addrs) = same_ip r a source || any_same_ip r source addrs

abbrev looked_up : Resolver → Bytes → Option (List Bytes) → Bool
looked_up r source none = false
looked_up r source (some addrs) = any_same_ip r source addrs

abbrev same_host : Resolver → Bytes → Bytes → Option Addr → Bool
same_host r source host (some _) = same_ip r host source
same_host r source host none = looked_up r source (r.lookup_host host)

abbrev from_url : Resolver → Bytes → Option Url → Bool
from_url r source none = false
from_url r source (some u) =
    if not (bytes_eq u.scheme (text "http")) && not (bytes_eq u.scheme (text "https"))
    then false
    else if is_empty u.hostname
    then false
    else same_host r source u.hostname (r.parse_ip u.hostname)

-- `sameLocationHost`
unfoldable pub same_location_host : Resolver → Bytes → Bytes → Bool
unfolding any_same_ip same_ip bytes_eq
same_location_host r source location = from_url r source (r.parse_url location)

-- A line that is cut at its colon: the location in it, or the lines behind.
abbrev of_line : Resolver → Bytes → Option (Bytes × Bytes) → Option Location → Option Location
of_line r ip none rest = rest
of_line r ip (some (name, value)) rest =
    if not (equal_fold name (text "LOCATION"))
    then rest
    else if not (same_location_host r ip (trim_space value))
    then none
    else some (record { ip = ip; url = trim_space value })

-- The loop of `parseSSDPResponse` over the lines.
unfoldable pub read_lines : Resolver → Bytes → List Bytes → Option Location
unfolding cut same_location_host equal_fold trim_space
read_lines r ip [] = none
read_lines r ip (line ∷ lines) = of_line r ip (cut (trim_space line)) (read_lines r ip lines)

-- `parseSSDPResponse`; a scanner splits at line feeds, and the carriage return in front of one is
-- white space.
unfoldable pub parse_ssdp_response : Resolver → Bytes → Bytes → Option Location
unfolding read_lines
parse_ssdp_response r data_ ip = read_lines r ip (split_at 10 data_)

-- What a read of the socket gives: a timeout, another error, or the sender and the whole datagram,
-- of which the buffer takes its front.
pub data Read : Type 0 where
  timed_out : Read
  read_failed : Read
  datagram : Bytes → Bytes → Read

-- A round of the loop: whether the context is done, and the read.
pub record Round : Type 0 where
  pub cancelled : Bool
  pub read : Read

-- The variables of `DiscoverLocations`; `buffer` is the length of the buffer.
pub record State : Type 0 where
  pub locations : List Location
  pub seen : List Location
  pub sources : List Bytes
  pub buffer : ℕ
  pub replies : ℕ

unfoldable pub has_source : Bytes → List Bytes → Bool
unfolding bytes_eq
has_source ip [] = false
has_source ip (s ∷ sources) = bytes_eq s ip || has_source ip sources

abbrev pub location_eq : Location → Location → Bool
location_eq a b = bytes_eq a.ip b.ip && bytes_eq a.url b.url

unfoldable pub has_location : Location → List Location → Bool
unfolding bytes_eq
has_location l [] = false
has_location l (m ∷ ms) = location_eq m l || has_location l ms

-- The end of a round: a location that is new is added.
abbrev pub add_location : State → Option Location → State
add_location st none = st
add_location st (some l) =
    if has_location l st.seen
    then st
    else record st { seen = l ∷ st.seen; locations = st.locations ++ (l ∷ []) }

abbrev pub add_source : State → Bytes → State
add_source st ip = if has_source ip st.sources then st else record st { sources = ip ∷ st.sources }

-- The buffer after a datagram that filled it.
abbrev pub grown : ℕ → ℕ
grown n = if ltb max_ssdp_datagram (n * 2) then max_ssdp_datagram else n * 2

-- What a datagram of `size` bytes in the buffer, whose front is read, does.
unfoldable pub accept : Resolver → State → Bytes → Bytes → State
unfolding has_source has_location parse_ssdp_response
accept r st ip data_ =
    let front = take st.buffer data_ in
    if leb st.buffer (length front) && ltb st.buffer max_ssdp_datagram
    then record st { buffer = grown st.buffer }
    else if is_empty ip
    then add_location st (parse_ssdp_response r front ip)
    else if not (has_source ip st.sources) && leb max_ssdp_sources (length st.sources)
    then st
    else add_location (add_source st ip) (parse_ssdp_response r front ip)

abbrev counted : State → State
counted st = record st { replies = st.replies + 1 }

-- What follows a read.
abbrev pub after_read :
    Resolver
    → State
    → Read
    → (State → Outcome Error (List Location))
    → Outcome Error (List Location)
after_read r st timed_out next = ok st.locations
after_read r st read_failed next = err (other ∷ [])
after_read r st (datagram ip data_) next = next (accept r (counted st) ip data_)

-- The loop of `DiscoverLocations`, from round `i` on; `stuck` means that the fuel ran out.
unfoldable pub discover_loop :
    Resolver → (ℕ → Round) → ℕ → ℕ → State → Outcome Error (List Location)
unfolding accept
discover_loop r rounds zero i st = stuck
discover_loop r rounds (suc fuel) i st =
    let rest = discover_loop r rounds fuel (suc i) in
    if (rounds i).cancelled
    then ok st.locations
    else if leb max_ssdp_replies st.replies || leb max_ssdp_locations (length st.locations)
    then ok st.locations
    else after_read r st (rounds i).read rest

abbrev pub first_state : State
first_state = record {
  locations = [];
  seen = [];
  sources = [];
  buffer = ssdp_read_buffer_size;
  replies = 0;
}

-- The rounds that are enough, since each reads a reply.
abbrev pub enough_rounds : ℕ
enough_rounds = 257

-- `DiscoverLocations`, of whether the deadline can be set, whether each search message is sent, and
-- the rounds
unfoldable pub discover_locations :
    Resolver → Bool → Bool → Bool → (ℕ → Round) → Outcome Error (List Location)
unfolding discover_loop
discover_locations r deadline first_sent second_sent rounds =
    if not deadline
    then err (other ∷ [])
    else if not first_sent || not second_sent
    then err (other ∷ [])
    else discover_loop r rounds enough_rounds 0 first_state
