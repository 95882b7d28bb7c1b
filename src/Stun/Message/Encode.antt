-- ===== src/Stun/Message/Encode.antt =====
-- The wire format of RFC 5389, written the other way round: attributes, messages and the two forms
-- of a mapped address as bytes. These are what the parser is compared with.
use qnatter.Common.{
  ℕ, ◌-◌, ◌%◌, ◌<◌, Bool, ◌||◌, ◌&&◌, not, is_some, Option, some, List, [], ◌∷◌, ◌++◌, Outcome, ok,
  ◌>>=◌, ◌>>◌, if◌then◌else◌, ◌==◌, length, replicate, Bytes, put_uint16, put_uint32,
}
use qnatter.Net.{AddrPort}
use qnatter.Stun.Message.{
  ParseError, binding_success, attr_mapped_address, attr_xor_mapped_address, attr_fingerprint,
  magic_cookie, parse_address_attribute, verify_fingerprint,
}

-- An attribute of a message: its type and its value.
pub record Attribute : Type 0 where
  pub typ : ℕ
  pub content : Bytes

-- Type and length fit their fields.
pub record IsAttribute (a : Attribute) : Type 0 where
  pub typ_fits : a.typ < 65536
  pub length_fits : length a.content < 65536

abbrev pub AllAttributes : List Attribute → Type 0
AllAttributes [] = Unit {0}
AllAttributes (a ∷ attrs) = IsAttribute a × AllAttributes attrs

-- A header of four bytes, the value, and zeros up to a multiple of four.
unfoldable pub encode_attribute : Attribute → Bytes
encode_attribute a =
    put_uint16 a.typ
    ++ (put_uint16 (length a.content)
        ++ (a.content ++ replicate ((4 - length a.content % 4) % 4) 0))

unfoldable pub encode_attributes : List Attribute → Bytes
encode_attributes [] = []
encode_attributes (a ∷ attrs) = encode_attribute a ++ encode_attributes attrs

abbrev pub is_address : ℕ → Bool
is_address typ = typ == attr_mapped_address || typ == attr_xor_mapped_address

-- What an attribute means behind the bytes `head` of the message.
unfoldable pub read_one :
    Bytes → Bytes → Attribute → Option AddrPort → Outcome ParseError (Option AddrPort)
read_one mask head a found =
    if not (is_some found) && is_address a.typ
    then parse_address_attribute a.typ a.content mask >>= (λ parsed. ok (some parsed))
    else if a.typ == attr_fingerprint
    then verify_fingerprint head a.content >> ok found
    else ok found

-- The attributes read in order, each behind the bytes of those before it.
unfoldable pub read_all :
    Bytes → Bytes → List Attribute → Option AddrPort → Outcome ParseError (Option AddrPort)
read_all mask head [] found = ok found
read_all mask head (a ∷ attrs) found =
    read_one mask head a found >>= λ found'. read_all mask (head ++ encode_attribute a) attrs found'

-- The twenty bytes of the header of a binding success response with `size` bytes of attributes.
unfoldable pub response_header : Bytes → ℕ → Bytes
response_header txid size =
    put_uint16 binding_success ++ (put_uint16 size ++ (put_uint32 magic_cookie ++ txid))

unfoldable pub response : Bytes → List Attribute → Bytes
response txid attrs =
    response_header txid (length (encode_attributes attrs)) ++ encode_attributes attrs
