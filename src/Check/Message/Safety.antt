-- ===== src/Check/Message/Safety.antt =====
-- The parser of the NAT check comes back on every input: no index or slice is out of range.
use qnatter.Common.{
  ℕ, zero, suc, ◌+◌, ◌≤◌, ◌<◌, arith, not, ◌==◌, ◌||◌, ltb, value, error, Returns, length, Bytes,
  Returns-if, Returns-slice, Returns-byte_at, Returns-uint16, bytes_eq,
}
use qnatter.Stun.Message.{padded_to_four}
use qnatter.Check.Message.{
  parse_stun_address_attribute, stun_loop, parse_stun_mapped_address, stun_attr_mapped_address,
  stun_attr_xor_mapped_address, stun_binding_response,
}

parse_stun_address_attribute-Returns :
    (typ : ℕ) (v : Bytes) → Returns (parse_stun_address_attribute typ v)
unfolding parse_stun_address_attribute
parse_stun_address_attribute-Returns typ v =
    Returns-if (ltb (length v) 8) (λ _. error _)
      λ long. Returns-byte_at v 1 (ground arith) λ family.
        Returns-if (not (family == 1)) (λ _. error _)
          λ _. Returns-slice v 2 4 (omega arith) (ground arith) λ s two.
            Returns-uint16 s (omega arith)
              λ port. Returns-slice v 4 8 (omega arith) (ground arith) λ ip _. value _

stun_loop-Returns :
    (rounds : ℕ) (payload : Bytes) → length payload < rounds → Returns (stun_loop rounds payload)
unfolding stun_loop
stun_loop-Returns zero payload h = elim h [ ]
stun_loop-Returns (suc rounds) payload h =
    Returns-if (ltb (length payload) 4) (λ _. error _)
      λ long.
        let four : 4 ≤ length payload = ground arith in
        Returns-slice payload 0 2 (omega arith) (omega arith) λ s two.
          Returns-uint16 s (omega arith) λ typ.
            Returns-slice payload 2 4 (omega arith) (omega arith) λ t two'.
              Returns-uint16 t (omega arith) λ n.
                Returns-if (ltb (length payload) (4 + n)) (λ _. error _)
                  λ fits.
                    let whole : 4 + n ≤ length payload = ground arith in
                    Returns-slice payload 4 (4 + n) (omega arith) whole λ v _.
                      Returns-if
                        (typ == stun_attr_mapped_address || typ == stun_attr_xor_mapped_address)
                        (λ _. parse_stun_address_attribute-Returns typ v)
                        λ _.
                          Returns-if (ltb (length payload) (4 + padded_to_four n)) (λ _. error _)
                            λ padded.
                              let room : 4 + padded_to_four n ≤ length payload = ground arith in
                              Returns-slice payload (4 + padded_to_four n) (length payload) room
                                (omega arith)
                                λ rest shorter. stun_loop-Returns rounds rest (omega arith)

-- Whatever the bytes of the message and of the transaction id are, `ParseSTUNMappedAddress` comes
-- back with an address or an error: no index or slice is out of range, and its loop ends.
pub parse_stun_mapped_address-Returns :
    (msg txid : Bytes) → Returns (parse_stun_mapped_address msg txid)
unfolding parse_stun_mapped_address
parse_stun_mapped_address-Returns msg txid =
    Returns-if (ltb (length msg) 20) (λ _. error _)
      λ long.
        let twenty : 20 ≤ length msg = ground arith in
        Returns-slice msg 0 2 (omega arith) (omega arith) λ s two.
          Returns-uint16 s (omega arith) λ typ.
            Returns-if (not (typ == stun_binding_response)) (λ _. error _)
              λ _. Returns-slice msg 2 4 (omega arith) (omega arith) λ t two'.
                Returns-uint16 t (omega arith) λ n.
                  Returns-if (ltb (length msg) (20 + n)) (λ _. error _)
                    λ fits.
                      let room : 20 + n ≤ length msg = ground arith in
                      Returns-slice msg 4 20 (omega arith) (omega arith) λ id _.
                        Returns-if (not (bytes_eq id txid)) (λ _. error _)
                          λ _. Returns-slice msg 20 (20 + n) (omega arith) room λ payload m.
                            stun_loop-Returns (suc (length payload)) payload (omega arith)
