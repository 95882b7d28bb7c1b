-- ===== src/Stun/Tests.antt =====
-- Messages and clients that the theorems on STUN are tried on.
use qnatter.Common.{
  ℕ, suc, ◌≡◌, refl, arith, true, none, some, List, [], ◌∷◌, ok, err, Returns, ◌>>=◌, length,
  put_uint16, put_uint32, Bytes, ℤ, pos,
}
use qnatter.Errors.{errors_is, addr_not_avail, no_server_available}
use qnatter.Net.{v4, AddrPort, no_addr_port}
use qnatter.Stun.Mapping.{Server, Mapping}
use qnatter.Stun.Message.{
  attr_xor_mapped_address, xor_mask, require_address, parse_address_attribute, parse_mapped_address,
  checksum_ieee,
}
use qnatter.Stun.Message.Encode.{
  Attribute, AllAttributes, encode_attribute, encode_attributes, read_all, response,
  response_header,
}
use qnatter.Stun.Message.Decode.{parse_mapped_address-response}
use qnatter.Stun.Message.Safety.{parse_mapped_address-Returns}
use qnatter.Stun.Message.RoundTrip.{IsEndpoint, encode_address, parse-encode_address}
use qnatter.Stun.Message.Reading.{
  address_attribute, fingerprint_attribute, parse_mapped_address_first,
  parse_mapped_address_fingerprint,
}
use qnatter.Stun.Client.{Network, Client, Reply, refused, replied, get_mapping, attempt, mapped}
use qnatter.Stun.Client.Safety.{get_mapping-Returns}
use qnatter.Stun.Client.Rounds.{get_mapping_first}
use qnatter.Stun.Client.Rounds.Reasons.{get_mapping_none}

abbrev txid : Bytes
txid = 1 ∷ 2 ∷ 3 ∷ 4 ∷ 5 ∷ 6 ∷ 7 ∷ 8 ∷ 9 ∷ 10 ∷ 11 ∷ 12 ∷ []

abbrev outer : AddrPort
outer = record { addr = v4 (203 ∷ 0 ∷ 113 ∷ 7 ∷ []); port = 40000 }

abbrev inner : AddrPort
inner = record { addr = v4 (192 ∷ 168 ∷ 1 ∷ 2 ∷ []); port = 5000 }

-- A `SOFTWARE` attribute of five bytes.
abbrev software : Attribute
software = record { typ = 0x8022; content = 113 ∷ 110 ∷ 97 ∷ 116 ∷ 116 ∷ [] }

abbrev attrs : List Attribute
attrs = software ∷ address_attribute attr_xor_mapped_address (xor_mask txid) outer ∷ []

abbrev message : Bytes
message = response txid attrs

checksum_ieee_check : checksum_ieee (49 ∷ 50 ∷ 51 ∷ 52 ∷ 53 ∷ 54 ∷ 55 ∷ 56 ∷ 57 ∷ []) ≡ 0xcbf43926
unfolding checksum_ieee
checksum_ieee_check = refl

attrs-AllAttributes : AllAttributes attrs
unfolding encode_address put_uint16 put_uint32
attrs-AllAttributes = (
  record { typ_fits = omega arith; length_fits = omega arith },
  (record { typ_fits = omega arith; length_fits = omega arith }, tt),
)

outer-IsEndpoint : IsEndpoint outer.addr outer.port
outer-IsEndpoint =
    (refl, (omega arith, (omega arith, (omega arith, (omega arith, tt)))), omega arith)

length-attrs : length (encode_attributes attrs) ≡ 24
unfolding encode_attributes encode_attribute encode_address put_uint16 put_uint32
length-attrs = refl

parse_mapped_address-response_example : parse_mapped_address message txid ≡ (
    read_all (xor_mask txid) (response_header txid (length (encode_attributes attrs))) attrs none
    >>= require_address)
parse_mapped_address-response_example =
    parse_mapped_address-response txid attrs refl attrs-AllAttributes (omega (arith, length-attrs))

parse_mapped_address-Returns_example : Returns (parse_mapped_address message txid)
parse_mapped_address-Returns_example = parse_mapped_address-Returns message txid

parse-encode_address_example :
    parse_address_attribute attr_xor_mapped_address
      (encode_address attr_xor_mapped_address (xor_mask txid) outer.addr outer.port)
      (xor_mask txid)
    ≡ ok outer
parse-encode_address_example =
    parse-encode_address attr_xor_mapped_address (xor_mask txid) outer outer-IsEndpoint

parse_mapped_address_first_example : parse_mapped_address message txid ≡ ok outer
parse_mapped_address_first_example =
    parse_mapped_address_first txid attr_xor_mapped_address outer (software ∷ []) [] refl refl
      outer-IsEndpoint ((refl, refl), tt) tt attrs-AllAttributes (omega (arith, length-attrs))

-- The same message with a fingerprint.
abbrev marked : ℕ → List Attribute
marked w =
    software
    ∷ address_attribute attr_xor_mapped_address (xor_mask txid) outer
    ∷ fingerprint_attribute w
    ∷ []

marked-AllAttributes : AllAttributes (marked 10882606)
unfolding put_uint32
marked-AllAttributes = (
  attrs-AllAttributes.0,
  (attrs-AllAttributes.1.0, (record { typ_fits = omega arith; length_fits = omega arith }, tt)),
)

length-marked : length (encode_attributes (marked 10882606)) ≡ 32
unfolding encode_attributes encode_attribute encode_address put_uint16 put_uint32
length-marked = refl

parse_mapped_address_fingerprint_example :
    parse_mapped_address (response txid (marked 10882606)) txid ≡ ok outer
unfolding checksum_ieee response_header put_uint16 put_uint32 encode_attributes encode_attribute
    encode_address
parse_mapped_address_fingerprint_example =
    parse_mapped_address_fingerprint txid attr_xor_mapped_address outer (software ∷ []) [] 10882606
      refl refl outer-IsEndpoint ((refl, refl), tt) tt marked-AllAttributes
      (omega (arith, length-marked)) (omega arith)

-- Two servers: the first refuses, the second answers.
abbrev silent : Server
silent = record { host = 97 ∷ []; port = pos 0 }

abbrev answering : Server
answering = record { host = 98 ∷ []; port = pos 1 }

abbrev servers : List Server
servers = silent ∷ answering ∷ []

abbrev client : Client
client = record {
  servers = servers;
  source = no_addr_port;
  udp = true;
  initial_source = no_addr_port;
}

abbrev answers : ℤ → Reply
answers (pos (suc n)) = replied inner message
answers _ = refused (addr_not_avail ∷ [])

abbrev network : Network
network = record {
  transaction_id = λ i. some txid;
  exchange = λ i udp server source request. answers server.port;
}

-- A network where nobody answers.
abbrev dead : Network
dead = record {
  transaction_id = λ i. some txid;
  exchange = λ i udp server source request. refused (addr_not_avail ∷ []);
}

abbrev mapping : Mapping
mapping = record { inner = inner; outer = outer; server = answering }

get_mapping-Returns_example : Returns (get_mapping network client).1
get_mapping-Returns_example = get_mapping-Returns network client

answering_maps : attempt network 1 true no_addr_port answering ≡ mapped mapping
unfolding attempt
answering_maps = rw parse_mapped_address_first_example

get_mapping_first_example :
    (get_mapping network client
      ≡ (record client { servers = answering ∷ silent ∷ []; source = inner }, ok mapping))
    × (answering ≡ answering)
get_mapping_first_example =
    get_mapping_first network client (silent ∷ []) [] answering mapping refl
      (unfold attempt in (refl, tt)) answering_maps

get_mapping_none_example :
    get_mapping dead client ≡ (client, err (no_server_available ∷ addr_not_avail ∷ []))
unfolding attempt errors_is
get_mapping_none_example = get_mapping_none dead client (λ e. cc) ((refl, (refl, tt)))
