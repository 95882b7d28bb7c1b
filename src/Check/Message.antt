-- ===== src/Check/Message.antt =====
-- go-qnatter/internal/check/check.go: its own binding request, with a change request, and its own
-- parser of responses. A transaction id has sixteen bytes here, the magic cookie among them.
pub mod Agree
pub mod Keeps
pub mod Lockstep
pub mod Safety
use qnatter.Common.{
  ℕ, zero, suc, ◌+◌, ◌/◌, ◌%◌, ◌*◌, bit_xor, Bool, true, false, not, ◌&&◌, ◌||◌, List, [], ◌∷◌,
  ◌++◌, Outcome, ok, err, stuck, ◌>>=◌, ltb, ◌==◌, if◌then◌else◌, length, Bytes, byte_at, slice,
  bytes_eq, uint16, put_uint16, put_uint32,
}
use qnatter.Net.{Addr, v4, AddrPort}
use qnatter.Stun.Message.{magic_cookie, padded_to_four, xor_bytes}

abbrev pub stun_binding_request : ℕ
stun_binding_request = 0x0001

abbrev pub stun_binding_response : ℕ
stun_binding_response = 0x0101

abbrev pub stun_attr_mapped_address : ℕ
stun_attr_mapped_address = 0x0001

abbrev pub stun_attr_change_request : ℕ
stun_attr_change_request = 0x0003

abbrev pub stun_attr_xor_mapped_address : ℕ
stun_attr_xor_mapped_address = 0x0020

-- `flags`, the sum of `stunChangeIP` and `stunChangePort`
unfoldable pub change_flags : Bool → Bool → ℕ
change_flags change_ip change_port =
    (if change_ip then 0x0004 else 0) + (if change_port then 0x0002 else 0)

abbrev pub change_attribute : ℕ → Bytes
change_attribute flags =
    if not (flags == 0)
    then put_uint16 stun_attr_change_request ++ (put_uint16 4 ++ put_uint32 flags)
    else []

-- `BuildSTUNBindingRequest`
unfoldable pub build_stun_binding_request : Bytes → Bool → Bool → Bytes
unfolding put_uint16 put_uint32 change_flags
build_stun_binding_request txid change_ip change_port =
    let flags = change_flags change_ip change_port in
    put_uint16 stun_binding_request
    ++ (put_uint16 (if not (flags == 0) then 8 else 0) ++ (txid ++ change_attribute flags))

-- The errors of the parser, one for each message text.
pub data StunError : Type 0 where
  short_response not_response truncated_response txid_mismatch truncated_attribute : StunError
  truncated_padding not_found short_address unsupported_family : StunError

-- The port and the four bytes of the address, unmasked in the XOR form.
unfoldable pub stun_address : ℕ → ℕ → Bytes → AddrPort
stun_address attr_type port ip =
    if attr_type == stun_attr_xor_mapped_address
    then record {
      addr = v4 (xor_bytes ip (put_uint32 magic_cookie));
      port = bit_xor port (magic_cookie / 65536 % 65536);
    }
    else record { addr = v4 ip; port = port }

-- `parseSTUNAddressAttribute`
unfoldable pub parse_stun_address_attribute : ℕ → Bytes → Outcome StunError AddrPort
parse_stun_address_attribute attr_type value =
    if ltb (length value) 8 then err short_address else do
      family ← byte_at value 1
      if not (family == 1) then err unsupported_family else do
        port_field ← slice value 2 4
        port ← uint16 port_field
        ip ← slice value 4 8
        ok (stun_address attr_type port ip)

-- The loop `for len(payload) >= 4`, which returns at the first mapped address; `stuck` means that
-- the rounds ran out.
unfoldable pub stun_loop : ℕ → Bytes → Outcome StunError AddrPort
stun_loop zero payload = stuck
stun_loop (suc rounds) payload = if ltb (length payload) 4 then err not_found else do
  type_field ← slice payload 0 2
  attr_type ← uint16 type_field
  length_field ← slice payload 2 4
  attr_len ← uint16 length_field
  if ltb (length payload) (4 + attr_len) then err truncated_attribute else do
    value ← slice payload 4 (4 + attr_len)
    if attr_type == stun_attr_mapped_address || attr_type == stun_attr_xor_mapped_address
        then parse_stun_address_attribute attr_type value
        else do
          let padded = padded_to_four attr_len
          if ltb (length payload) (4 + padded)
              then err truncated_padding
              else do rest ← slice payload (4 + padded) (length payload); stun_loop rounds rest

-- `ParseSTUNMappedAddress`
unfoldable pub parse_stun_mapped_address : Bytes → Bytes → Outcome StunError AddrPort
parse_stun_mapped_address msg txid = if ltb (length msg) 20 then err short_response else do
  type_field ← slice msg 0 2
  typ ← uint16 type_field
  if not (typ == stun_binding_response) then err not_response else do
    length_field ← slice msg 2 4
    msg_len ← uint16 length_field
    if ltb (length msg) (20 + msg_len) then err truncated_response else do
      id ← slice msg 4 20
      if not (bytes_eq id txid)
          then err txid_mismatch
          else do payload ← slice msg 20 (20 + msg_len); stun_loop (suc (length payload)) payload
