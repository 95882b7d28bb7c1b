-- ===== src/Stun/Message/RoundTrip.antt =====
-- A mapped address that a server writes is the address that the parser gives.
use qnatter.Common.{
  bit_xor, ℕ, suc, ◌+◌, ◌<◌, ◌≡◌, refl, ap, ◌∙◌, arith, bit_xor-lt, bit_xor_twice, [], ◌∷◌, ◌++◌,
  ok, err, le→ltb, ◌==◌, if◌then◌else◌, length, Bytes, slice, put_uint16, uint16-put_uint16,
  slice-append, slice-append_last, byte_at,
}
use qnatter.Net.{Addr, no_addr, v4, v6, AddrPort}
use qnatter.Stun.Message.{
  ParseError, parse_address_attribute, address_field, unmask_ip, unmask_port, xor_bytes, short_ipv4,
  short_ipv6, unsupported_family,
}

abbrev pub AllBytes : Bytes → Type 0
AllBytes [] = Unit {0}
AllBytes (b ∷ bs) = (b < 256) × AllBytes bs

-- Four or sixteen bytes, and a port of sixteen bits.
abbrev pub IsEndpoint : Addr → ℕ → Type 0
IsEndpoint no_addr port = ⊥
IsEndpoint (v4 ip) port = (length ip ≡ 4) × AllBytes ip × (port < 65536)
IsEndpoint (v6 ip) port = (length ip ≡ 16) × AllBytes ip × (port < 65536)

-- The port and the address as RFC 5389 writes them: as they are in MAPPED-ADDRESS, of type 0x0001,
-- and in XOR-MAPPED-ADDRESS, of type 0x0020, the port with the upper half of the magic cookie and
-- the address, byte by byte, with the mask.
unfoldable pub masked_port : ℕ → ℕ → ℕ
masked_port typ port = if typ == 0x0020 then bit_xor port 0x2112 else port

unfoldable pub masked_bytes : Bytes → Bytes → Bytes
masked_bytes [] mask = []
masked_bytes (b ∷ ip) [] = b ∷ ip
masked_bytes (b ∷ ip) (m ∷ mask) = bit_xor b m ∷ masked_bytes ip mask

unfoldable pub masked_ip : ℕ → Bytes → Bytes → Bytes
unfolding masked_bytes
masked_ip typ ip mask = if typ == 0x0020 then masked_bytes ip mask else ip

-- The value of a mapped address attribute of type `typ`.
unfoldable pub encode_address : ℕ → Bytes → Addr → ℕ → Bytes
unfolding masked_ip masked_port
encode_address typ mask no_addr port = []
encode_address typ mask (v4 ip) port =
    0 ∷ 1 ∷ (put_uint16 (masked_port typ port) ++ masked_ip typ ip mask)
encode_address typ mask (v6 ip) port =
    0 ∷ 2 ∷ (put_uint16 (masked_port typ port) ++ masked_ip typ ip mask)

xor_bytes-masked_bytes :
    (ip mask : Bytes) → AllBytes ip → xor_bytes (masked_bytes ip mask) mask ≡ ip
unfolding xor_bytes masked_bytes
xor_bytes-masked_bytes [] mask h = refl
xor_bytes-masked_bytes (b ∷ ip) [] h = refl
xor_bytes-masked_bytes (b ∷ ip) (m ∷ mask) h =
    rw (bit_xor_twice 8 b m (omega (arith, h.0)), xor_bytes-masked_bytes ip mask h.1)

length-masked_bytes : (ip mask : Bytes) → length (masked_bytes ip mask) ≡ length ip
unfolding masked_bytes
length-masked_bytes [] mask = refl
length-masked_bytes (b ∷ ip) [] = refl
length-masked_bytes (b ∷ ip) (m ∷ mask) = ap suc (length-masked_bytes ip mask)

unmask_ip-masked_ip :
    (typ : ℕ) (ip mask : Bytes) → AllBytes ip → unmask_ip typ (masked_ip typ ip mask) mask ≡ ip
unfolding unmask_ip masked_ip
unmask_ip-masked_ip typ ip mask h = ground (arith, xor_bytes-masked_bytes ip mask h)

length-masked_ip : (typ : ℕ) (ip mask : Bytes) → length (masked_ip typ ip mask) ≡ length ip
unfolding masked_ip
length-masked_ip typ ip mask = ground (arith, length-masked_bytes ip mask)

unmask_port-masked_port :
    (typ port : ℕ) → port < 65536 → unmask_port typ (masked_port typ port) ≡ port
unfolding unmask_port masked_port
unmask_port-masked_port typ port h = ground (arith, bit_xor_twice 16 port 0x2112 h)

masked_port-lt : (typ port : ℕ) → port < 65536 → masked_port typ port < 65536
unfolding masked_port
masked_port-lt typ port h = ground (arith, bit_xor-lt 16 port 0x2112 h (omega arith))

-- The address field behind a family byte and the port.
module _ (typ port : ℕ) (ip mask : Bytes) (h : AllBytes ip) (fits : port < 65536) where
  abbrev field : ℕ → Bytes
  field fam = 0 ∷ fam ∷ (put_uint16 (masked_port typ port) ++ masked_ip typ ip mask)

  length-field : (fam : ℕ) → length (field fam) ≡ 4 + length ip
  length-field fam = unfold put_uint16 in omega (arith, length-masked_ip typ ip mask)

  field_port :
      (fam : ℕ) → slice {E = ParseError} (field fam) 2 4 ≡ ok (put_uint16 (masked_port typ port))
  field_port fam =
      unfold put_uint16 in
      slice-append (0 ∷ fam ∷ []) (put_uint16 (masked_port typ port)) (masked_ip typ ip mask) 2 4
        refl refl

  address_field-encode :
      (fam : ℕ) (family : Bytes → Addr) (short : ParseError) (stop : ℕ)
      → 4 + length ip ≡ stop
      → address_field family short stop typ (field fam) mask (masked_port typ port)
        ≡ ok (record { addr = family ip; port = port })
  unfolding address_field put_uint16
  address_field-encode fam family short stop e = rw (
    le→ltb (length (field fam)) stop (omega (arith, length-field fam)),
    slice-append_last {E = ParseError} (0 ∷ fam ∷ put_uint16 (masked_port typ port))
        (masked_ip typ ip mask) 4 stop refl (omega (arith, length-masked_ip typ ip mask)),
    unmask_ip-masked_ip typ ip mask h,
    unmask_port-masked_port typ port fits,
  )

  parse_field :
      (fam : ℕ)
      → parse_address_attribute typ (field fam) mask ≡ (
          if fam == 1
          then address_field v4 short_ipv4 8 typ (field fam) mask (masked_port typ port)
          else if fam == 2
          then address_field v6 short_ipv6 20 typ (field fam) mask (masked_port typ port)
          else err unsupported_family)
  unfolding parse_address_attribute
  parse_field fam =
      rw
        (
          le→ltb (length (field fam)) 4 (omega (arith, length-field fam)),
          field_port fam,
          uint16-put_uint16 {E = ParseError} (masked_port typ port) (masked_port-lt typ port fits),
        )
        (unfold byte_at in refl)

-- An address that is written as RFC 5389 says, IPv4 or IPv6, plain in an attribute of any type but
-- 0x0020 and masked in one of type 0x0020, is read back as that address.
pub parse-encode_address :
    (typ : ℕ) (mask : Bytes) (a : AddrPort)
    → IsEndpoint a.addr a.port
    → parse_address_attribute typ (encode_address typ mask a.addr a.port) mask ≡ ok a
unfolding encode_address
parse-encode_address typ mask a = at a.addr refl
  where
    at :
        (x : Addr)
        → a.addr ≡ x
        → IsEndpoint x a.port
        → parse_address_attribute typ (encode_address typ mask x a.port) mask
          ≡ ok (record { addr = x; port = a.port })
    at no_addr e h = elim h [ ]
    at (v4 ip) e h =
        parse_field typ a.port ip mask h.1 h.2 1
        ∙ address_field-encode typ a.port ip mask h.1 h.2 1 v4 short_ipv4 8 (omega arith)
    at (v6 ip) e h =
        parse_field typ a.port ip mask h.1 h.2 2
        ∙ address_field-encode typ a.port ip mask h.1 h.2 2 v6 short_ipv6 20 (omega arith)
