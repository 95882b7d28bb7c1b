-- ===== src/Stun/Transport.antt =====
-- go-qnatter/internal/stun/client.go: `NetworkTransport.Exchange`, which sends a request and reads
-- one response. What the calls of `net` give is a parameter.
pub mod Segments
pub mod Mapping
mod Tests
use qnatter.Common.{
  ℕ, zero, suc, ◌+◌, ◌-◌, Bool, true, false, Option, none, some, List, [], ◌∷◌, ◌++◌, Outcome, ok,
  err, panic, stuck, ◌>>=◌, ltb, leb, ◌==◌, if◌then◌else◌, length, take, drop, Bytes, slice, uint16,
}
use qnatter.Errors.{Error, other}
use qnatter.Net.{AddrPort}
use qnatter.Stun.Client.{Reply, refused, replied}

-- `maxMessageSize`
abbrev pub max_message_size : ℕ
max_message_size = 1500

-- `io.ReadFull`, on the bytes that the reads of a connection give, one list for each, of which a read
-- takes what fits and leaves the others; behind the last list reads fail.
abbrev in_front : Bytes → Option (Bytes × List Bytes) → Option (Bytes × List Bytes)
in_front chunk none = none
in_front chunk (some (read, rest)) = some (chunk ++ read, rest)

unfoldable pub read_full : ℕ → List Bytes → Option (Bytes × List Bytes)
read_full n [] = if n == 0 then some ([], []) else none
read_full n (chunk ∷ chunks) =
    let later = read_full (n - length chunk) chunks in
    if n == 0
    then some ([], chunk ∷ chunks)
    else if leb (length chunk) n
    then in_front chunk later
    else some (take n chunk, drop n chunk ∷ chunks)

abbrev with_body : Bytes → Option (Bytes × List Bytes) → Outcome Error Bytes
with_body header none = err (other ∷ [])
with_body header (some (body, _)) = ok (header ++ body)

-- What follows the header, of which the size is known.
abbrev pub sized : Bytes → List Bytes → ℕ → Outcome Error Bytes
sized header rest size =
    if ltb max_message_size (20 + size)
    then err (other ∷ [])
    else if ltb 0 size
    then with_body header (read_full size rest)
    else ok header

abbrev pub with_header : Option (Bytes × List Bytes) → Outcome Error Bytes
with_header none = err (other ∷ [])
with_header (some (header, rest)) = do
  field ← slice header 2 4
  size ← uint16 field
  sized header rest size

abbrev first_datagram : List Bytes → Outcome Error Bytes
first_datagram [] = err (other ∷ [])
first_datagram (datagram ∷ _) = ok (take max_message_size datagram)

-- `readResponse`; the flag says that the network is UDP.
unfoldable pub read_response : Bool → List Bytes → Outcome Error Bytes
unfolding read_full
read_response udp chunks = if udp then first_datagram chunks else with_header (read_full 20 chunks)

-- The answers to the calls of `Exchange`: whether the local address is understood, what dialing and
-- writing give, what is read, and the local address of the connection.
pub record ExchangeAnswers : Type 0 where
  pub local_address_error : Option Error
  pub dial_error : Option Error
  pub write_error : Option Error
  pub chunks : List Bytes
  pub inner : Option AddrPort

abbrev with_inner : Bytes → Option AddrPort → Reply
with_inner response none = refused (other ∷ [])
with_inner response (some inner) = replied inner response

abbrev with_response : Option AddrPort → Outcome Error Bytes → Outcome Error Reply
with_response inner (ok response) = ok (with_inner response inner)
with_response inner (err e) = ok (refused e)
with_response inner panic = panic
with_response inner stuck = stuck

abbrev unless_refused : Option Error → Outcome Error Reply → Outcome Error Reply
unless_refused (some e) reply = ok (refused e)
unless_refused none reply = reply

-- `Exchange`
unfoldable pub exchange : Bool → ExchangeAnswers → Outcome Error Reply
unfolding read_response
exchange udp a = unless_refused a.local_address_error (
    unless_refused a.dial_error
      (unless_refused a.write_error (with_response a.inner (read_response udp a.chunks))))
