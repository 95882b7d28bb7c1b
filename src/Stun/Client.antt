-- ===== src/Stun/Client.antt =====
-- go-qnatter/internal/stun/client.go: `GetMapping`, which asks the servers in turn.
-- The source of transaction ids and the exchange with a server are parameters: what they give may
-- depend on how many attempts went before.
pub mod Safety
pub mod Rounds
use qnatter.Common.{
  ℕ, zero, suc, ◌+◌, Bool, true, false, not, ◌||◌, Option, none, some, List, [], ◌∷◌, ◌++◌, Outcome,
  ok, err, panic, stuck, ◌==◌, if◌then◌else◌, length, Bytes,
}
use qnatter.Errors.{Error, errors_is, no_server_available, addr_not_avail, no_dev, other}
use qnatter.Net.{AddrPort, is_valid}
use qnatter.Stun.Mapping.{Server, Mapping}
use qnatter.Stun.Message.{ParseError, build_binding_request, parse_mapped_address}

-- What an exchange gives: an error, or the local address used and the bytes of the response.
pub data Reply : Type 0 where
  refused : Error → Reply
  replied : AddrPort → Bytes → Reply

-- The calls that go out of the program. The flag of `exchange` is `network == "udp"`.
pub record Network : Type 0 where
  pub transaction_id : ℕ → Option Bytes
  pub exchange : ℕ → Bool → Server → AddrPort → Bytes → Reply

pub record Client : Type 0 where
  pub servers : List Server
  pub source : AddrPort
  pub udp : Bool
  pub initial_source : AddrPort

-- `rotateServer`
unfoldable pub rotate_server : List Server → List Server
rotate_server [] = []
rotate_server (first ∷ []) = first ∷ []
rotate_server (first ∷ second ∷ rest) = (second ∷ rest) ++ (first ∷ [])

-- What the loop has seen: the number of failures, and which system errors were among them.
pub record Failures : Type 0 where
  pub total : ℕ
  pub address_unavailable : Bool
  pub device_unavailable : Bool

abbrev pub no_failures : Failures
no_failures = record { total = 0; address_unavailable = false; device_unavailable = false }

-- A failed exchange, and a response that does not parse.
abbrev pub exchange_failed : Failures → Error → Failures
exchange_failed f e = record {
  total = f.total + 1;
  address_unavailable = f.address_unavailable || errors_is e addr_not_avail;
  device_unavailable = f.device_unavailable || errors_is e no_dev;
}

abbrev pub parse_failed : Failures → Failures
parse_failed f = record f { total = f.total + 1 }

-- The returns behind the loop.
unfoldable pub give_up : Client → Failures → Client × Outcome Error Mapping
give_up c f =
    if f.total == 0
    then (c, err (no_server_available ∷ []))
    else if f.address_unavailable
    then (record c { source = c.initial_source }, err (no_server_available ∷ addr_not_avail ∷ []))
    else if f.device_unavailable
    then (record c { source = c.initial_source }, err (no_server_available ∷ no_dev ∷ []))
    else (c, err (no_server_available ∷ []))

-- What one attempt comes to.
pub data Attempt : Type 0 where
  no_txid : Attempt
  no_exchange : Error → Attempt
  no_parse : ParseError → Attempt
  mapped : Mapping → Attempt
  broken : Outcome Error Mapping → Attempt

abbrev classify : AddrPort → Server → Outcome ParseError AddrPort → Attempt
classify inner server (ok outer) = mapped (record { inner = inner; outer = outer; server = server })
classify inner server (err e) = no_parse e
classify inner server panic = broken panic
classify inner server stuck = broken stuck

abbrev parsed : Bytes → Server → Reply → Attempt
parsed txid server (refused e) = no_exchange e
parsed txid server (replied inner response) =
    classify inner server (parse_mapped_address response txid)

abbrev asked : Network → ℕ → Bool → AddrPort → Server → Option Bytes → Attempt
asked n i udp source server none = no_txid
asked n i udp source server (some txid) =
    parsed txid server (n.exchange i udp server source (build_binding_request txid))

-- Attempt `i`, on one server.
unfoldable pub attempt : Network → ℕ → Bool → AddrPort → Server → Attempt
attempt n i udp source server = asked n i udp source server (n.transaction_id i)

abbrev pub rotated : Client → Client
rotated c = record c { servers = rotate_server c.servers }

-- What follows an attempt: the next one with the server moved to the back, or a return.
abbrev pub after_attempt :
    Attempt
    → Client
    → Failures
    → (Client → Failures → Client × Outcome Error Mapping)
    → Client × Outcome Error Mapping
after_attempt no_txid c f next = (c, err (other ∷ []))
after_attempt (no_exchange e) c f next = next (rotated c) (exchange_failed f e)
after_attempt (no_parse e) c f next = next (rotated c) (parse_failed f)
after_attempt (mapped m) c f next = (record c { source = m.inner }, ok m)
after_attempt (broken o) c f next = (c, o)

-- `server := c.Servers[0]`, which panics if there is no server.
abbrev pub with_first :
    List Server
    → Client
    → (Server → Client × Outcome Error Mapping)
    → Client × Outcome Error Mapping
with_first [] c k = (c, panic)
with_first (server ∷ _) c k = k server

-- The loop `for i := 0; i < attempts; i++`, with the attempts left.
unfoldable pub attempts : Network → ℕ → ℕ → Client → Failures → Client × Outcome Error Mapping
attempts n zero i c f = give_up c f
attempts n (suc left) i c f =
    with_first c.servers c
      λ server. after_attempt (attempt n i c.udp c.source server) c f (attempts n left (suc i))

-- `if !c.initialSource.IsValid()`, at the start of `GetMapping`.
abbrev pub prepared : Client → Client
prepared c = record c {
  initial_source = if not (is_valid c.initial_source) then c.source else c.initial_source;
}

-- `GetMapping`
unfoldable pub get_mapping : Network → Client → Client × Outcome Error Mapping
unfolding attempts attempt give_up rotate_server
get_mapping n c =
    if length c.servers == 0
    then (c, err (other ∷ []))
    else attempts n (length c.servers) 0 (prepared c) no_failures
