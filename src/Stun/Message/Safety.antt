-- ===== src/Stun/Message/Safety.antt =====
-- The parser of binding responses comes back on every input: no index or slice is out of range.
use qnatter.Common.{
  ℕ, zero, suc, ◌+◌, ◌≤◌, ◌<◌, arith, not, ◌==◌, ltb, Option, none, some, value, error, Returns,
  length, Bytes, Returns-if, Returns-slice, Returns-byte_at, Returns-uint16, Returns-uint32,
  Returns-bind, bit_xor, bit_and, bytes_eq, ◌&&◌, ◌||◌, is_some,
}
use qnatter.Net.{Addr, AddrPort, v4, v6}
use qnatter.Stun.Message.{
  ParseError, parse_address_attribute, address_field, read_attribute, attribute_loop, read_payload,
  parse_mapped_address, verify_fingerprint, padded_to_four, xor_mask, checksum_ieee,
  fingerprint_xor, short_ipv4, short_ipv6, not_found, attr_mapped_address, attr_xor_mapped_address,
  attr_fingerprint, binding_success, magic_cookie,
}

verify_fingerprint-Returns : (head value : Bytes) → Returns (verify_fingerprint head value)
unfolding verify_fingerprint
verify_fingerprint-Returns head v =
    Returns-if (not (length v == 4)) (λ _. error _)
      λ four.
        Returns-if (ltb (length head) 20) (λ _. error _)
          λ _. Returns-uint32 v (ground arith) λ want.
            Returns-if (not (want == bit_xor (checksum_ieee head) fingerprint_xor)) (λ _. error _)
              (λ _. value _)

address_field-Returns :
    (family : Bytes → Addr) (short : ParseError) (stop typ : ℕ) (v mask : Bytes) (port : ℕ)
    → 4 ≤ stop
    → Returns (address_field family short stop typ v mask port)
unfolding address_field
address_field-Returns family short stop typ v mask port h =
    Returns-if (ltb (length v) stop) (λ _. error _)
      λ long. Returns-slice v 4 stop h (ground arith) λ _ _. value _

parse_address_attribute-Returns :
    (typ : ℕ) (v mask : Bytes) → Returns (parse_address_attribute typ v mask)
unfolding parse_address_attribute
parse_address_attribute-Returns typ v mask =
    Returns-if (ltb (length v) 4) (λ _. error _)
      λ long. Returns-slice v 2 4 (omega arith) (ground arith) λ s two.
        Returns-uint16 s (omega arith) λ port. Returns-byte_at v 1 (ground arith) λ family.
          Returns-if (family == 1)
            (λ _. address_field-Returns v4 short_ipv4 8 typ v mask port (omega arith))
            λ _.
              Returns-if (family == 2)
                (λ _. address_field-Returns v6 short_ipv6 20 typ v mask port (omega arith))
                (λ _. error _)

read_attribute-Returns :
    (msg mask : Bytes) (offset typ : ℕ) (v : Bytes) (found : Option AddrPort)
    → 20 + offset ≤ length msg
    → Returns (read_attribute msg mask offset typ v found)
unfolding read_attribute
read_attribute-Returns msg mask offset typ v found h =
    Returns-if
      (not (is_some found) && (typ == attr_mapped_address || typ == attr_xor_mapped_address))
      (λ _. Returns-bind (parse_address_attribute-Returns typ v mask) (λ _. value _))
      λ _.
        Returns-if (typ == attr_fingerprint)
          (λ _.
            Returns-slice msg 0 (20 + offset) (omega arith) h
              λ head _. Returns-bind (verify_fingerprint-Returns head v) (λ _. value _))
          (λ _. value _)

attribute_loop-Returns :
    (rounds : ℕ) (msg mask : Bytes) (offset : ℕ) (payload : Bytes) (found : Option AddrPort)
    → length payload < rounds
    → 20 + offset + length payload ≤ length msg
    → Returns (attribute_loop rounds msg mask offset payload found)
unfolding attribute_loop
attribute_loop-Returns zero msg mask offset payload found h g = elim h [ ]
attribute_loop-Returns (suc rounds) msg mask offset payload found h g =
    Returns-if (ltb (length payload) 4) (λ _. value _)
      λ long.
        let four : 4 ≤ length payload = ground arith in
        Returns-slice payload 0 2 (omega arith) (omega arith) λ s two.
          Returns-uint16 s (omega arith) λ typ.
            Returns-slice payload 2 4 (omega arith) (omega arith) λ t two'.
              Returns-uint16 t (omega arith) λ n.
                Returns-if (ltb (length payload) (4 + n)) (λ _. error _)
                  λ fits.
                    let whole : 4 + n ≤ length payload = ground arith in
                    Returns-slice payload 4 (4 + n) (omega arith) whole λ v _.
                      Returns-bind
                        (read_attribute-Returns msg mask offset typ v found (omega arith))
                        λ found'.
                          Returns-if (ltb (length payload) (4 + padded_to_four n)) (λ _. error _)
                            λ padded.
                              let room : 4 + padded_to_four n ≤ length payload = ground arith in
                              Returns-slice payload (4 + padded_to_four n) (length payload) room
                                (omega arith)
                                λ rest shorter.
                                  attribute_loop-Returns rounds msg mask
                                    (offset + (4 + padded_to_four n)) rest found' (omega arith)
                                    (omega arith)

read_payload-Returns : (msg txid : Bytes) → 20 ≤ length msg → Returns (read_payload msg txid)
unfolding read_payload
read_payload-Returns msg txid h = Returns-slice msg 2 4 (omega arith) (omega arith) λ s two.
    Returns-uint16 s (omega arith) λ size.
      Returns-if (ltb (length msg) (20 + size)) (λ _. error _)
        λ fits.
          let room : 20 + size ≤ length msg = ground arith in
          Returns-slice msg 20 (20 + size) (omega arith) room λ payload n.
            Returns-bind
              (attribute_loop-Returns (suc (length payload)) msg (xor_mask txid) 0 payload none
                (omega arith) (omega arith))
              (elim [ some a ↦ value a | none ↦ error not_found ])

-- Whatever the bytes of the message and of the transaction id are, `ParseMappedAddress` comes back
-- with an address or an error: no index or slice is out of range, and its loop ends.
pub parse_mapped_address-Returns : (msg txid : Bytes) → Returns (parse_mapped_address msg txid)
unfolding parse_mapped_address
parse_mapped_address-Returns msg txid =
    Returns-if (ltb (length msg) 20) (λ _. error _)
      λ long.
        let twenty : 20 ≤ length msg = ground arith in
        Returns-byte_at msg 0 (omega arith) λ first.
          Returns-if (not (bit_and first 0xc0 == 0)) (λ _. error _)
            λ _. Returns-slice msg 0 2 (omega arith) (omega arith) λ s two.
              Returns-uint16 s (omega arith) λ typ.
                Returns-if (not (typ == binding_success)) (λ _. error _)
                  λ _. Returns-slice msg 4 8 (omega arith) (omega arith) λ t four.
                    Returns-uint32 t (omega arith) λ cookie.
                      Returns-if (not (cookie == magic_cookie)) (λ _. error _)
                        λ _. Returns-slice msg 8 20 (omega arith) (omega arith) λ id _.
                          Returns-if (not (bytes_eq id txid)) (λ _. error _)
                            λ _. read_payload-Returns msg txid twenty
