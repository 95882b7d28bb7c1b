-- ===== src/Stun/Message/Reading.antt =====
-- Which attribute gives the address of a response, and what a fingerprint decides.
use qnatter.Common.{
  All, ℕ, ◌≤◌, ◌<◌, ◌≡◌, refl, ap, ◌∙◌, arith, bit_xor, Bool, true, false, some, none, List, [],
  ◌∷◌, ◌++◌, append-nil, append_assoc, ok, err, ◌>>=◌, le→ltb, ◌==◌, if◌then◌else◌, length, Bytes,
  put_uint32, uint32-put_uint32, length-append, Bool-cases, inl, inr,
}
use qnatter.Net.{AddrPort}
use qnatter.Stun.Message.Encode.{
  Attribute, AllAttributes, encode_attribute, encode_attributes, is_address, read_one, read_all,
  response, response_header,
}
use qnatter.Stun.Message.Decode.{parse_mapped_address-response, length-response_header}
use qnatter.Stun.Message.RoundTrip.{IsEndpoint, encode_address, parse-encode_address}
use qnatter.Stun.Message.{
  ParseError, attr_fingerprint, xor_mask, parse_mapped_address, require_address, verify_fingerprint,
  fingerprint_mismatch, fingerprint_xor, checksum_ieee,
}

abbrev pub IsNoFingerprint : Attribute → Type 0
IsNoFingerprint a = (a.typ == attr_fingerprint) ≡ false

-- Neither a mapped address nor a fingerprint.
abbrev pub IsUnknown : Attribute → Type 0
IsUnknown a = (is_address a.typ ≡ false) × IsNoFingerprint a

-- An attribute that holds `a` in the form of type `typ`.
abbrev pub address_attribute : ℕ → Bytes → AddrPort → Attribute
address_attribute typ mask a = record { typ = typ; content = encode_address typ mask a.addr a.port }

abbrev pub fingerprint_attribute : ℕ → Attribute
fingerprint_attribute w = record { typ = attr_fingerprint; content = put_uint32 w }

encode_attributes-append :
    (xs ys : List Attribute)
    → encode_attributes (xs ++ ys) ≡ encode_attributes xs ++ encode_attributes ys
unfolding encode_attributes
encode_attributes-append [] ys = refl
encode_attributes-append (x ∷ xs) ys = simp (encode_attributes-append xs ys, append_assoc)

if_require :
    (b : Bool) (a : AddrPort)
    → ((if b then ok (some a) else err fingerprint_mismatch) >>= require_address)
      ≡ (if b then ok a else err fingerprint_mismatch)
if_require true a = refl
if_require false a = refl

module _ (mask : Bytes) where
  read_all_unknown :
      (head : Bytes) (before attrs : List Attribute)
      → All IsUnknown before
      → read_all mask head (before ++ attrs) none
        ≡ read_all mask (head ++ encode_attributes before) attrs none
  unfolding encode_attributes read_all read_one
  read_all_unknown head [] attrs h = rw append-nil
  read_all_unknown head (a ∷ before) attrs h =
      rw (h.0.0, h.0.1)
        (read_all_unknown (head ++ encode_attribute a) before attrs h.1 ∙ rw append_assoc)

  read_all_found :
      (head : Bytes) (after attrs : List Attribute) (a : AddrPort)
      → All IsNoFingerprint after
      → read_all mask head (after ++ attrs) (some a)
        ≡ read_all mask (head ++ encode_attributes after) attrs (some a)
  unfolding encode_attributes read_all read_one
  read_all_found head [] attrs a h = rw append-nil
  read_all_found head (x ∷ after) attrs a h =
      rw h.0 (read_all_found (head ++ encode_attribute x) after attrs a h.1 ∙ rw append_assoc)

  read_all_address :
      (head : Bytes) (typ : ℕ) (a : AddrPort) (attrs : List Attribute)
      → is_address typ ≡ true
      → IsEndpoint a.addr a.port
      → read_all mask head (address_attribute typ mask a ∷ attrs) none
        ≡ read_all mask (head ++ encode_attribute (address_attribute typ mask a)) attrs (some a)
  unfolding read_all read_one
  read_all_address head typ a attrs h e = rw (h, parse-encode_address typ mask a e)

  -- Unknown attributes, an address, and whatever is no fingerprint, in front of `rest`.
  read_all_through :
      (head : Bytes) (typ : ℕ) (a : AddrPort) (before after rest : List Attribute)
      → is_address typ ≡ true
      → IsEndpoint a.addr a.port
      → All IsUnknown before
      → All IsNoFingerprint after
      → read_all mask head (before ++ (address_attribute typ mask a ∷ (after ++ rest))) none
        ≡ read_all mask
            (head ++ encode_attributes (before ++ (address_attribute typ mask a ∷ after)))
            rest
            (some a)
  unfolding encode_attributes
  read_all_through head typ a before after rest t e u n =
      read_all_unknown head before _ u
      ∙ read_all_address (head ++ encode_attributes before) typ a (after ++ rest) t e
      ∙ read_all_found
          (head ++ encode_attributes before ++ encode_attribute (address_attribute typ mask a))
          after rest a n
      ∙ rw (
        encode_attributes-append before (address_attribute typ mask a ∷ after),
        append_assoc (head ++ encode_attributes before)
            (encode_attribute (address_attribute typ mask a)) (encode_attributes after),
        append_assoc head (encode_attributes before)
            (encode_attribute (address_attribute typ mask a) ++ encode_attributes after),
      )

  read_all_fingerprint :
      (head : Bytes) (w : ℕ) (a : AddrPort)
      → w < 4294967296
      → 20 ≤ length head
      → read_all mask head (fingerprint_attribute w ∷ []) (some a) ≡ (
          if w == bit_xor (checksum_ieee head) fingerprint_xor
          then ok (some a)
          else err fingerprint_mismatch)
  unfolding read_all read_one verify_fingerprint put_uint32
  read_all_fingerprint head w a h n =
      rw (le→ltb (length head) 20 n, uint32-put_uint32 {E = ParseError} w h)
        (elim (Bool-cases (w == bit_xor (checksum_ieee head) fingerprint_xor)) [
          | inl same ↦ rw same
          | inr other ↦ rw other
        ])

module _ (txid : Bytes) (typ : ℕ) (a : AddrPort) (before after : List Attribute) where
  -- The attributes of a response that carries `a`, up to a fingerprint.
  abbrev carried : List Attribute
  carried = before ++ (address_attribute typ (xor_mask txid) a ∷ after)

  -- A response that carries an address, in either form, among attributes that are unknown in front
  -- of it and no fingerprint behind it, is parsed to that address: the first one counts.
  pub parse_mapped_address_first :
      length txid ≡ 12
      → is_address typ ≡ true
      → IsEndpoint a.addr a.port
      → All IsUnknown before
      → All IsNoFingerprint after
      → AllAttributes carried
      → length (encode_attributes carried) < 65536
      → parse_mapped_address (response txid carried) txid ≡ ok a
  unfolding read_all
  parse_mapped_address_first twelve t e u n v fits =
      parse_mapped_address-response txid carried twelve v fits
      ∙ ap (λ m. m >>= require_address)
          (rw (append-nil after) at (
            read_all_through (xor_mask txid)
              (response_header txid (length (encode_attributes carried))) typ a before after [] t e
              u n))

  -- The bytes that a fingerprint of `size` bytes of attributes covers.
  abbrev covered : ℕ → Bytes
  covered size = response_header txid size ++ encode_attributes carried

  -- The attributes with a fingerprint behind them.
  abbrev with_fingerprint : ℕ → List Attribute
  with_fingerprint w =
      before
      ++ (address_attribute typ (xor_mask txid) a ∷ (after ++ (fingerprint_attribute w ∷ [])))

  -- A response that carries an address among attributes that are unknown in front of it and no
  -- fingerprint behind it, with one fingerprint at its end, is accepted exactly when that
  -- fingerprint is the checksum of all bytes in front of it, masked.
  pub parse_mapped_address_fingerprint :
      (w : ℕ)
      → length txid ≡ 12
      → is_address typ ≡ true
      → IsEndpoint a.addr a.port
      → All IsUnknown before
      → All IsNoFingerprint after
      → AllAttributes (with_fingerprint w)
      → length (encode_attributes (with_fingerprint w)) < 65536
      → w < 4294967296
      → parse_mapped_address (response txid (with_fingerprint w)) txid ≡ (
          if w
            == bit_xor
                (checksum_ieee (covered (length (encode_attributes (with_fingerprint w)))))
                fingerprint_xor
          then ok a
          else err fingerprint_mismatch)
  parse_mapped_address_fingerprint w twelve t e u n v fits h =
      let size = length (encode_attributes (with_fingerprint w)) in
      let header = response_header txid size in
      parse_mapped_address-response txid (with_fingerprint w) twelve v fits
      ∙ ap (λ m. m >>= require_address)
          (read_all_through (xor_mask txid) header typ a before after (fingerprint_attribute w ∷ [])
              t e u n
            ∙ read_all_fingerprint (xor_mask txid) (covered size) w a h (
                omega (
                  arith,
                  length-append header (encode_attributes carried),
                  length-response_header txid [] size twelve,
                )))
      ∙ if_require (w == bit_xor (checksum_ieee (covered size)) fingerprint_xor) a
