-- ===== src/Stun/Message.antt =====
-- go-qnatter/internal/stun/message.go: the binding request and the parser of binding responses.
pub mod Safety
pub mod Encode
pub mod Decode
pub mod RoundTrip
pub mod Reading
use qnatter.Common.{
  ℕ, zero, suc, ◌+◌, ◌-◌, ◌*◌, ◌/◌, ◌%◌, ◌^◌, bit_xor, bit_and, Bool, true, false, not, ◌&&◌, ◌||◌,
  Option, none, some, List, [], ◌∷◌, ◌++◌, Outcome, ok, err, stuck, ◌>>=◌, ◌>>◌, ltb, ◌==◌,
  if◌then◌else◌, length, take, drop, Bytes, byte_at, slice, bytes_eq, uint16, uint32, put_uint16,
  put_uint32, is_some,
}
use qnatter.Net.{Addr, v4, v6, AddrPort}

abbrev pub binding_request : ℕ
binding_request = 0x0001

abbrev pub binding_success : ℕ
binding_success = 0x0101

abbrev pub attr_mapped_address : ℕ
attr_mapped_address = 0x0001

abbrev pub attr_xor_mapped_address : ℕ
attr_xor_mapped_address = 0x0020

abbrev pub attr_fingerprint : ℕ
attr_fingerprint = 0x8028

abbrev pub fingerprint_xor : ℕ
fingerprint_xor = 0x5354554e

abbrev pub magic_cookie : ℕ
magic_cookie = 0x2112a442

-- The errors of the parser, one for each message text.
pub data ParseError : Type 0 where
  short_response bad_type not_success bad_cookie txid_mismatch truncated_attributes : ParseError
  truncated_attribute truncated_padding not_found : ParseError
  fingerprint_length fingerprint_position fingerprint_mismatch : ParseError
  short_address short_ipv4 short_ipv6 unsupported_family : ParseError

-- `BuildBindingRequest`; the transaction id has twelve bytes.
unfoldable pub build_binding_request : Bytes → Bytes
unfolding put_uint16 put_uint32
build_binding_request txid =
    put_uint16 binding_request ++ (put_uint16 0 ++ (put_uint32 magic_cookie ++ txid))

-- `crc32.ChecksumIEEE` of the standard library: the reflected polynomial, a bit at a time.
crc_shift : ℕ → ℕ → ℕ
crc_shift zero c = c
crc_shift (suc n) c = crc_shift n (if c % 2 == 1 then bit_xor (c / 2) 0xedb88320 else c / 2)

crc_update : ℕ → Bytes → ℕ
crc_update c [] = c
crc_update c (b ∷ bs) = crc_update (crc_shift 8 (bit_xor c b)) bs

unfoldable pub checksum_ieee : Bytes → ℕ
unfolding crc_shift crc_update
checksum_ieee bs = bit_xor (crc_update 0xffffffff bs) 0xffffffff

-- `verifyFingerprint`
unfoldable pub verify_fingerprint : Bytes → Bytes → Outcome ParseError (Unit {0})
verify_fingerprint head value =
    if not (length value == 4)
    then err fingerprint_length
    else if ltb (length head) 20
    then err fingerprint_position
    else do
      want ← uint32 value
      let got = bit_xor (checksum_ieee head) fingerprint_xor
      if not (want == got) then err fingerprint_mismatch else ok tt

-- `for i := range ip { ip[i] ^= xorMask[i] }`; the mask has sixteen bytes.
unfoldable pub xor_bytes : Bytes → Bytes → Bytes
xor_bytes [] mask = []
xor_bytes ip [] = ip
xor_bytes (b ∷ ip) (m ∷ mask) = bit_xor b m ∷ xor_bytes ip mask

-- `port ^= uint16(MagicCookie >> 16)`, and the address, where the attribute is the XOR form.
unfoldable pub unmask_port : ℕ → ℕ → ℕ
unmask_port typ port =
    if typ == attr_xor_mapped_address then bit_xor port (magic_cookie / 65536 % 65536) else port

unfoldable pub unmask_ip : ℕ → Bytes → Bytes → Bytes
unfolding xor_bytes
unmask_ip typ ip mask = if typ == attr_xor_mapped_address then xor_bytes ip mask else ip

-- The address field of `parseAddressAttribute`, from byte 4 up to `stop`.
unfoldable pub address_field :
    (Bytes → Addr) → ParseError → ℕ → ℕ → Bytes → Bytes → ℕ → Outcome ParseError AddrPort
unfolding unmask_port unmask_ip
address_field family short stop typ value mask port =
    if ltb (length value) stop then err short else do
      ip ← slice value 4 stop
      ok (record { addr = family (unmask_ip typ ip mask); port = unmask_port typ port })

-- `parseAddressAttribute`
unfoldable pub parse_address_attribute : ℕ → Bytes → Bytes → Outcome ParseError AddrPort
unfolding address_field
parse_address_attribute typ value mask = if ltb (length value) 4 then err short_address else do
  port_field ← slice value 2 4
  port ← uint16 port_field
  family ← byte_at value 1
  if family == 1
      then address_field v4 short_ipv4 8 typ value mask port
      else if family == 2
      then address_field v6 short_ipv6 20 typ value mask port
      else err unsupported_family

-- The `switch` of the attribute loop: the first mapped address is read, and every fingerprint is
-- checked against the message up to the attribute. The flag `found` and the variable `address`
-- are one option.
unfoldable pub read_attribute :
    Bytes → Bytes → ℕ → ℕ → Bytes → Option AddrPort → Outcome ParseError (Option AddrPort)
read_attribute msg mask offset typ value found =
    if not (is_some found) && (typ == attr_mapped_address || typ == attr_xor_mapped_address)
    then parse_address_attribute typ value mask >>= (λ parsed. ok (some parsed))
    else if typ == attr_fingerprint
    then (slice msg 0 (20 + offset) >>= λ head. verify_fingerprint head value >> ok found)
    else ok found

-- `(n + 3) &^ 3`
abbrev pub padded_to_four : ℕ → ℕ
padded_to_four n = (n + 3) / 4 * 4

-- The loop `for len(payload) >= 4`; `stuck` means that the rounds ran out.
unfoldable pub attribute_loop :
    ℕ → Bytes → Bytes → ℕ → Bytes → Option AddrPort → Outcome ParseError (Option AddrPort)
attribute_loop zero msg mask offset payload found = stuck
attribute_loop (suc rounds) msg mask offset payload found =
    if ltb (length payload) 4 then ok found else do
      type_field ← slice payload 0 2
      typ ← uint16 type_field
      length_field ← slice payload 2 4
      attr_len ← uint16 length_field
      if ltb (length payload) (4 + attr_len) then err truncated_attribute else do
        value ← slice payload 4 (4 + attr_len)
        found' ← read_attribute msg mask offset typ value found
        let padded = padded_to_four attr_len
        if ltb (length payload) (4 + padded) then err truncated_padding else do
          rest ← slice payload (4 + padded) (length payload)
          attribute_loop rounds msg mask (offset + (4 + padded)) rest found'

-- The mask of the XOR form: the magic cookie and the transaction id.
abbrev pub xor_mask : Bytes → Bytes
xor_mask txid = put_uint32 magic_cookie ++ txid

-- `if !found`, at the end of `ParseMappedAddress`
abbrev pub require_address : Option AddrPort → Outcome ParseError AddrPort
require_address (some address) = ok address
require_address none = err not_found

-- What is left of `ParseMappedAddress` once the header is accepted.
unfoldable pub read_payload : Bytes → Bytes → Outcome ParseError AddrPort
read_payload msg txid = do
  length_field ← slice msg 2 4
  size ← uint16 length_field
  if ltb (length msg) (20 + size) then err truncated_attributes else do
    payload ← slice msg 20 (20 + size)
    found ← attribute_loop (suc (length payload)) msg (xor_mask txid) 0 payload none
    elim found [ some address ↦ ok address | none ↦ err not_found ]

-- `ParseMappedAddress`
unfoldable pub parse_mapped_address : Bytes → Bytes → Outcome ParseError AddrPort
parse_mapped_address msg txid = if ltb (length msg) 20 then err short_response else do
  first ← byte_at msg 0
  if not (bit_and first 0xc0 == 0) then err bad_type else do
    type_field ← slice msg 0 2
    typ ← uint16 type_field
    if not (typ == binding_success) then err not_success else do
      cookie_field ← slice msg 4 8
      cookie ← uint32 cookie_field
      if not (cookie == magic_cookie) then err bad_cookie else do
        id ← slice msg 8 20
        if not (bytes_eq id txid) then err txid_mismatch else read_payload msg txid
