-- ===== src/Stun/Message/Decode.antt =====
-- The parser on messages of the wire format: it reads the attributes in order.
use qnatter.Common.{
  ℕ, zero, suc, ◌+◌, ◌-◌, ◌%◌, ◌<◌, ◌≡◌, refl, sym, ap, ◌∙◌, fun_ext, arith, Option, none, List, [],
  ◌∷◌, ◌++◌, append_assoc, ok, ◌>>=◌, le→ltb, length, length-append, length-replicate, replicate,
  Bytes, slice, put_uint16, put_uint32, uint16-put_uint16, uint32-put_uint32, slice-append,
  slice-append_last, byte_at, bytes_eq_iff,
}
use qnatter.Net.{AddrPort}
use qnatter.Stun.Message.Encode.{
  Attribute, IsAttribute, AllAttributes, encode_attribute, encode_attributes, read_one, read_all,
  response, response_header,
}
use qnatter.Stun.Message.{
  ParseError, read_attribute, attribute_loop, padded_to_four, xor_mask, parse_mapped_address,
  read_payload, require_address, binding_success, magic_cookie,
}

abbrev padding : Attribute → Bytes
padding a = replicate ((4 - length a.content % 4) % 4) 0

pub length-encode_attribute :
    (a : Attribute) → length (encode_attribute a) ≡ 4 + padded_to_four (length a.content)
unfolding encode_attribute put_uint16
length-encode_attribute a = omega (
  arith,
  length-append a.content (padding a),
  length-replicate {A = ℕ} ((4 - length a.content % 4) % 4) 0,
)

encode_attribute-append :
    (a : Attribute) (rest : Bytes)
    → encode_attribute a ++ rest
      ≡ put_uint16 a.typ ++ (put_uint16 (length a.content) ++ (a.content ++ (padding a ++ rest)))
unfolding encode_attribute
encode_attribute-append a rest = simp append_assoc

-- The switch of the loop reads an attribute behind `head` as `read_one` does.
read_attribute-read_one :
    (head rest mask : Bytes) (offset : ℕ) (a : Attribute) (found : Option AddrPort)
    → length head ≡ 20 + offset
    → read_attribute (head ++ rest) mask offset a.typ a.content found ≡ read_one mask head a found
unfolding read_attribute read_one
read_attribute-read_one head rest mask offset a found h =
    rw (slice-append [] head rest 0 (20 + offset) refl (omega arith))

-- The four slices that a round takes.
module _ (a : Attribute) (rest : Bytes) where
  length-round :
      length (encode_attribute a ++ rest) ≡ 4 + padded_to_four (length a.content) + length rest
  length-round = omega (arith, length-append (encode_attribute a) rest, length-encode_attribute a)

  type_slice : slice {E = ParseError} (encode_attribute a ++ rest) 0 2 ≡ ok (put_uint16 a.typ)
  unfolding put_uint16
  type_slice =
      rw (encode_attribute-append a rest) (slice-append [] (put_uint16 a.typ) _ 0 2 refl refl)

  slice-length :
      slice {E = ParseError} (encode_attribute a ++ rest) 2 4 ≡ ok (put_uint16 (length a.content))
  unfolding put_uint16
  slice-length =
      rw (encode_attribute-append a rest)
        (slice-append (put_uint16 a.typ) (put_uint16 (length a.content)) _ 2 4 refl refl)

  content_slice :
      slice {E = ParseError} (encode_attribute a ++ rest) 4 (4 + length a.content) ≡ ok a.content
  unfolding put_uint16
  content_slice = rw (encode_attribute-append a rest) (
      slice-append (put_uint16 a.typ ++ put_uint16 (length a.content)) a.content _ 4
        (4 + length a.content) refl refl)

  rest_slice :
      slice {E = ParseError}
        (encode_attribute a ++ rest)
        (4 + padded_to_four (length a.content))
        (length (encode_attribute a ++ rest))
      ≡ ok rest
  rest_slice =
      slice-append_last (encode_attribute a) rest _ _ (sym (length-encode_attribute a))
        (length-append (encode_attribute a) rest)

  -- One round of the loop.
  loop_step :
      (r : ℕ) (msg mask : Bytes) (offset : ℕ) (found : Option AddrPort)
      → IsAttribute a
      → attribute_loop (suc r) msg mask offset (encode_attribute a ++ rest) found ≡ (
          read_attribute msg mask offset a.typ a.content found >>= λ found'.
          attribute_loop r msg mask (offset + length (encode_attribute a)) rest found')
  unfolding attribute_loop
  loop_step r msg mask offset found v = rw (
    le→ltb (length (encode_attribute a ++ rest)) 4 (omega (arith, length-round)),
    type_slice,
    uint16-put_uint16 a.typ v.typ_fits,
    slice-length,
    uint16-put_uint16 (length a.content) v.length_fits,
    le→ltb (length (encode_attribute a ++ rest)) (4 + length a.content)
        (omega (arith, length-round)),
    content_slice,
    le→ltb (length (encode_attribute a ++ rest)) (4 + padded_to_four (length a.content))
        (omega (arith, length-round)),
    rest_slice,
    length-encode_attribute a,
  )

attribute_loop-read_all :
    (attrs : List Attribute) (rounds : ℕ) (head mask : Bytes) (offset : ℕ) (found : Option AddrPort)
    → AllAttributes attrs
    → length head ≡ 20 + offset
    → length (encode_attributes attrs) < rounds
    → attribute_loop rounds
        (head ++ encode_attributes attrs)
        mask
        offset
        (encode_attributes attrs)
        found
      ≡ read_all mask head attrs found
unfolding encode_attributes read_all
attribute_loop-read_all attrs zero head mask offset found v h g = elim g [ ]
attribute_loop-read_all [] (suc r) head mask offset found v h g = unfold attribute_loop in refl
attribute_loop-read_all (a ∷ attrs) (suc r) head mask offset found v h g =
    loop_step a (encode_attributes attrs) r _ mask offset found v.0
    ∙ rw
        (read_attribute-read_one head (encode_attribute a ++ encode_attributes attrs) mask offset a
          found h)
        (ap (λ k. read_one mask head a found >>= k)
          (fun_ext λ found'.
            rw (← append_assoc head (encode_attribute a) (encode_attributes attrs)) (
              attribute_loop-read_all attrs r (head ++ encode_attribute a) mask
                (offset + length (encode_attribute a)) found' v.1
                (omega (arith, length-append head (encode_attribute a)))
                (omega (
                  arith,
                  length-append (encode_attribute a) (encode_attributes attrs),
                  length-encode_attribute a,
                )))))

-- The header of a response, in front of any bytes.
module _ (txid payload : Bytes) (size : ℕ) (twelve : length txid ≡ 12) where
  pub length-response_header : length (response_header txid size) ≡ 20
  unfolding response_header put_uint16 put_uint32
  length-response_header = omega arith

  header_type :
      slice {E = ParseError} (response_header txid size ++ payload) 0 2
      ≡ ok (put_uint16 binding_success)
  unfolding response_header put_uint16 put_uint32
  header_type = slice-append [] (put_uint16 binding_success) _ 0 2 refl refl

  header_size :
      slice {E = ParseError} (response_header txid size ++ payload) 2 4 ≡ ok (put_uint16 size)
  unfolding response_header put_uint16 put_uint32
  header_size = slice-append (put_uint16 binding_success) (put_uint16 size) _ 2 4 refl refl

  header_cookie :
      slice {E = ParseError} (response_header txid size ++ payload) 4 8
      ≡ ok (put_uint32 magic_cookie)
  unfolding response_header put_uint16 put_uint32
  header_cookie =
      slice-append (put_uint16 binding_success ++ put_uint16 size) (put_uint32 magic_cookie) _ 4 8
        refl refl

  header_id : slice {E = ParseError} (response_header txid size ++ payload) 8 20 ≡ ok txid
  unfolding response_header put_uint16 put_uint32
  header_id =
      slice-append (put_uint16 binding_success ++ (put_uint16 size ++ put_uint32 magic_cookie)) txid
        payload 8 20 refl (omega arith)

  header_first : byte_at {E = ParseError} (response_header txid size ++ payload) 0 ≡ ok 1
  unfolding response_header put_uint16 put_uint32 byte_at
  header_first = refl

  parse_header :
      length payload ≡ size
      → size < 65536
      → parse_mapped_address (response_header txid size ++ payload) txid ≡ (
          attribute_loop
            (suc size)
            (response_header txid size ++ payload)
            (xor_mask txid)
            0
            payload
            none
          >>= require_address)
  unfolding parse_mapped_address read_payload
  parse_header e fits =
      let whole = length-append (response_header txid size) payload in
      rw (
        le→ltb (length (response_header txid size ++ payload)) 20
            (omega (arith, whole, length-response_header)),
        header_first,
        header_type,
        uint16-put_uint16 {E = ParseError} binding_success (omega arith),
        header_cookie,
        uint32-put_uint32 {E = ParseError} magic_cookie (omega arith),
        header_id,
        (bytes_eq_iff txid txid).1 refl,
        header_size,
        uint16-put_uint16 {E = ParseError} size fits,
        le→ltb (length (response_header txid size ++ payload)) (20 + size)
            (omega (arith, whole, length-response_header)),
        slice-append_last {E = ParseError} (response_header txid size) payload 20 (20 + size)
            (sym length-response_header) (omega (arith, length-response_header)),
        e,
      )

-- A binding success response of the wire format is parsed by reading its attributes in order, each
-- behind the bytes in front of it, and taking the address that is found.
pub parse_mapped_address-response :
    (txid : Bytes) (attrs : List Attribute)
    → length txid ≡ 12
    → AllAttributes attrs
    → length (encode_attributes attrs) < 65536
    → parse_mapped_address (response txid attrs) txid ≡ (
        read_all
          (xor_mask txid)
          (response_header txid (length (encode_attributes attrs)))
          attrs
          none
        >>= require_address)
unfolding response
parse_mapped_address-response txid attrs twelve v fits =
    let size = length (encode_attributes attrs) in
    parse_header txid (encode_attributes attrs) size twelve refl fits
    ∙ ap (λ m. m >>= require_address)
        (attribute_loop-read_all attrs (suc size) (response_header txid size) (xor_mask txid) 0 none
          v (omega (arith, length-response_header txid (encode_attributes attrs) size twelve))
          (omega arith))
