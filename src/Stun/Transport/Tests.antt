-- ===== src/Stun/Transport/Tests.antt =====
-- A network over TCP, of which the first server cannot be reached and the second answers in pieces.
use qnatter.Common.{
  ℕ, zero, suc, ◌≡◌, refl, arith, false, none, some, List, [], ◌∷◌, ◌++◌, ok, take, drop, Bytes,
  pos, slice, byte_at, uint16, uint32, bytes_eq,
}
use qnatter.Errors.{other}
use qnatter.Net.{v4, AddrPort, no_addr_port}
use qnatter.Stun.Client.{Network, Client, Reply, refused, replied, get_mapping, attempt}
use qnatter.Stun.Mapping.{Server}
use qnatter.Stun.Message.{
  parse_mapped_address, read_payload, attribute_loop, read_attribute, parse_address_attribute,
  address_field, unmask_ip, unmask_port,
}
use qnatter.Stun.Transport.{ExchangeAnswers, exchange, read_response, read_full}
use qnatter.Stun.Transport.Mapping.{IsOverTcp, IsFramed, get_mapping_over_tcp}
use qnatter.Stun.Transport.Segments.{joined}

abbrev txid : Bytes
txid = 1 ∷ 2 ∷ 3 ∷ 4 ∷ 5 ∷ 6 ∷ 7 ∷ 8 ∷ 9 ∷ 10 ∷ 11 ∷ 12 ∷ []

abbrev message : Bytes
message =
    1 ∷ 1 ∷ 0 ∷ 12 ∷ 33 ∷ 18 ∷ 164 ∷ 66 ∷ 1 ∷ 2 ∷ 3 ∷ 4 ∷ 5 ∷ 6 ∷ 7 ∷ 8 ∷ 9 ∷ 10 ∷ 11 ∷ 12 ∷ 0 ∷ 1
    ∷ 0 ∷ 8 ∷ 0 ∷ 1 ∷ 156 ∷ 64 ∷ 203 ∷ 0 ∷ 113 ∷ 7 ∷ []

abbrev inner : AddrPort
inner = record { addr = v4 (192 ∷ 168 ∷ 1 ∷ 2 ∷ []); port = 5000 }

abbrev outer : AddrPort
outer = record { addr = v4 (203 ∷ 0 ∷ 113 ∷ 7 ∷ []); port = 40000 }

abbrev pieces : List Bytes
pieces = take 7 message ∷ (drop 7 message ++ (9 ∷ [])) ∷ []

abbrev answers : ℕ → ExchangeAnswers
answers zero = record {
  local_address_error = none;
  dial_error = some (other ∷ []);
  write_error = none;
  chunks = [];
  inner = none;
}
answers (suc i) = record {
  local_address_error = none;
  dial_error = none;
  write_error = none;
  chunks = pieces;
  inner = some inner;
}

abbrev replies : ℕ → Reply
replies zero = refused (other ∷ [])
replies (suc i) = replied inner message

abbrev network : Network
network = record {
  transaction_id = λ i. some txid;
  exchange = λ i udp server source request. replies i;
}

network-IsOverTcp : IsOverTcp network answers
unfolding exchange read_response read_full slice uint16
network-IsOverTcp zero server source request = refl
network-IsOverTcp (suc i) server source request = refl

abbrev silent : Server
silent = record { host = 97 ∷ []; port = pos 0 }

abbrev answering : Server
answering = record { host = 98 ∷ []; port = pos 1 }

abbrev client : Client
client = record {
  servers = silent ∷ answering ∷ [];
  source = no_addr_port;
  udp = false;
  initial_source = no_addr_port;
}

message_parses : parse_mapped_address message txid ≡ ok outer
unfolding parse_mapped_address read_payload attribute_loop read_attribute parse_address_attribute
    address_field unmask_ip unmask_port slice byte_at uint16 uint32 bytes_eq
message_parses = refl

message-IsFramed : IsFramed message
unfolding uint16
message-IsFramed = (12, refl, refl, omega arith)

get_mapping_over_tcp_example : get_mapping network client ≡ (
  record client { servers = answering ∷ silent ∷ []; source = inner },
  ok (record { inner = inner; outer = outer; server = answering }),
)
get_mapping_over_tcp_example =
    get_mapping_over_tcp network answers client (silent ∷ []) [] answering txid message (9 ∷ [])
      inner outer network-IsOverTcp refl refl (unfold attempt in (refl, tt)) refl
      (refl, refl, refl, refl) message-IsFramed (unfold joined in refl) message_parses
