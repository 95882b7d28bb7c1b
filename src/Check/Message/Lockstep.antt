-- ===== src/Check/Message/Lockstep.antt =====
-- The two parsers of binding responses, on the same message.
use qnatter.Common.{
  ℕ, zero, suc, ◌+◌, ◌*◌, ◌-◌, ◌≤◌, ◌<◌, ◌≡◌, refl, sym, ap, ◌∙◌, arith, Bool, true, false, not,
  ◌&&◌, none, some, [], ◌∷◌, ◌++◌, Outcome, ok, err, panic, ◌>>=◌, ltb, leb, ◌==◌, if◌then◌else◌,
  length, take, drop, Bytes, byte_at, slice, slice-eq_ok, bytes_eq, bytes_eq_iff, uint16, uint32,
  put_uint32, bit_and, Bool-cases, inl, inr,
}
use qnatter.Net.{AddrPort, is4}
use qnatter.Stun.Message.{
  ParseError, magic_cookie, binding_success, padded_to_four, xor_mask, read_attribute,
  attribute_loop, read_payload, parse_mapped_address, truncated_attribute, truncated_padding,
  truncated_attributes, not_success,
}
use qnatter.Stun.Message.RoundTrip.{AllBytes}
use qnatter.Check.Message as Check
use qnatter.Check.Message.{
  StunError, parse_stun_address_attribute, stun_loop, parse_stun_mapped_address,
}
use qnatter.Check.Message.Agree.{
  Agree, Agree-if, Agree-bind, Agree-unless, Agree-slice, Agree-uint16,
}
use qnatter.Check.Message.Keeps.{is_address, read_address, read_other, loop_keeps, address_case}

-- The loops on the same payload, before an address is found.
loop-Agree :
    (rounds : ℕ) (msg txid : Bytes) (offset : ℕ) (payload : Bytes)
    → Agree some
        (attribute_loop rounds msg (xor_mask txid) offset payload none)
        (stun_loop rounds payload)
unfolding attribute_loop stun_loop
loop-Agree zero msg txid offset payload = λ a four q. cc
loop-Agree (suc rounds) msg txid offset payload =
    Agree-if some (ltb (length payload) 4) (λ _ a four q. cc)
      λ long. rw long (
        let room : 4 ≤ length payload = ground arith in
        Agree-slice some payload 0 2 (omega arith) (omega arith) λ s _. Agree-uint16 some s λ typ.
          Agree-slice some payload 2 4 (omega arith) (omega arith) λ t _. Agree-uint16 some t λ n.
            Agree-unless some (ltb (length payload) (4 + n)) truncated_attribute
              Check.truncated_attribute
              λ fits. Agree-slice some payload 4 (4 + n) (omega arith) (ground arith) λ v _.
                Agree-bind some (read_attribute msg (xor_mask txid) offset typ v none) λ found e.
                  elim (Bool-cases (is_address typ)) [
                    | inl h ↦ rw h (
                        address_case typ n v txid payload found
                          (λ found' rest.
                            attribute_loop rounds msg (xor_mask txid)
                              (offset + (4 + padded_to_four n)) rest found')
                          (read_address msg (xor_mask txid) offset typ v h found e)
                          (λ rest a.
                            loop_keeps rounds msg (xor_mask txid) (offset + (4 + padded_to_four n))
                              rest a))
                    | inr h ↦
                        rw (h, read_other msg (xor_mask txid) offset typ v none h found e)
                          (Agree-unless some (ltb (length payload) (4 + padded_to_four n))
                            truncated_padding Check.truncated_padding
                            λ padded.
                              Agree-slice some payload (4 + padded_to_four n) (length payload)
                                (ground arith) (omega arith)
                                λ rest _.
                                  loop-Agree rounds msg txid (offset + (4 + padded_to_four n)) rest)
                  ])

-- A slice or a number that is read is read whatever the type of errors is.
module _ {ℓ κ} {E : Type ℓ} {F : Type κ} where
  test_error :
      (c : Bool) (x s : Bytes)
      → ◌≡◌ {A = Outcome E Bytes} (if c then ok x else panic) (ok s)
      → ◌≡◌ {A = Outcome F Bytes} (if c then ok x else panic) (ok s)
  test_error true x s h = cc
  test_error false x s h = cc

  slice_error :
      (b s : Bytes) (lo hi : ℕ) → slice {E = E} b lo hi ≡ ok s → slice {E = F} b lo hi ≡ ok s
  unfolding slice
  slice_error b s lo hi h =
      test_error (leb lo hi && leb hi (length b)) (take (hi - lo) (drop lo b)) s h

  uint16_error : (b : Bytes) (v : ℕ) → uint16 {E = E} b ≡ ok v → uint16 {E = F} b ≡ ok v
  unfolding uint16
  uint16_error [] v h = cc
  uint16_error (x ∷ []) v h = cc
  uint16_error (x ∷ y ∷ _) v h = cc

drop_nil : (n : ℕ) → drop {A = ℕ} n [] ≡ []
drop_nil zero = refl
drop_nil (suc n) = refl

drop-drop : (m n : ℕ) (b : Bytes) → drop m (drop n b) ≡ drop (m + n) b
drop-drop m zero b = ap (λ k. drop k b) (omega arith)
drop-drop m (suc n) [] = drop_nil m ∙ sym (drop_nil (m + suc n))
drop-drop m (suc n) (x ∷ b) =
    let e : suc (m + n) ≡ m + suc n = omega arith in drop-drop m n b ∙ ap (λ k. drop k (x ∷ b)) e

-- The cookie and the transaction id, read apart or as one.
cookie_bytes :
    (b : Bytes)
    → AllBytes b
    → uint32 {E = ParseError} (take 4 b) ≡ ok magic_cookie
    → take 16 b ≡ put_uint32 magic_cookie ++ take 12 (drop 4 b)
unfolding uint32 put_uint32
cookie_bytes (a ∷ b ∷ c ∷ d ∷ rest) h e =
    let cookie : ((a * 256 + b) * 256 + c) * 256 + d ≡ magic_cookie = cc in
    let bounds : (a < 256) × (b < 256) × (c < 256) × (d < 256) = (h.0, h.1.0, h.1.1.0, h.1.1.1.0) in
    let first : a ≡ 33 = omega arith in
    let second : b ≡ 18 = omega arith in
    let third : c ≡ 164 = omega arith in let fourth : d ≡ 66 = omega arith in cc
cookie_bytes [] h e = cc
cookie_bytes (_ ∷ []) h e = cc
cookie_bytes (_ ∷ _ ∷ []) h e = cc
cookie_bytes (_ ∷ _ ∷ _ ∷ []) h e = cc

AllBytes-drop : (n : ℕ) (b : Bytes) → AllBytes b → AllBytes (drop n b)
AllBytes-drop zero b h = h
AllBytes-drop (suc n) [] h = tt
AllBytes-drop (suc n) (x ∷ b) h = AllBytes-drop n b h.1

-- The test of the check on the header, from the two tests of the client.
header_id :
    (msg id cookie : Bytes) (txid : Bytes)
    → AllBytes msg
    → 20 ≤ length msg
    → slice {E = ParseError} msg 4 8 ≡ ok cookie
    → uint32 {E = ParseError} cookie ≡ ok magic_cookie
    → slice {E = ParseError} msg 8 20 ≡ ok id
    → bytes_eq id txid ≡ true
    → slice {E = StunError} msg 4 20 ≡ ok (put_uint32 magic_cookie ++ txid)
header_id msg id cookie txid h long c m i same =
    let c' : take 4 (drop 4 msg) ≡ cookie =
      cc (slice-eq_ok {E = ParseError} msg 4 8 (omega arith) (omega arith)) in
    let i' : take 12 (drop 8 msg) ≡ txid = cc (
      slice-eq_ok {E = ParseError} msg 8 20 (omega arith) (omega arith),
      (bytes_eq_iff id txid).0 same,
    ) in
    let whole = cookie_bytes (drop 4 msg) (AllBytes-drop 4 msg h) (rw c' m) in
    slice-eq_ok msg 4 20 (omega arith) long
    ∙ ap ok (
        whole
        ∙ ap (λ d. put_uint32 magic_cookie ++ take 12 d) (drop-drop 4 4 msg)
        ∙ ap (λ d. put_uint32 magic_cookie ++ d) i')

abbrev the_address : AddrPort → AddrPort
the_address a = a

-- What is left of the check's parser once the type is accepted.
abbrev check_payload : Bytes → Bytes → Outcome StunError AddrPort
check_payload msg txid = do
  length_field ← slice msg 2 4
  msg_len ← uint16 length_field
  if ltb (length msg) (20 + msg_len) then err Check.truncated_response else do
    id ← slice msg 4 20
    if not (bytes_eq id txid)
        then err Check.txid_mismatch
        else do payload ← slice msg 20 (20 + msg_len); stun_loop (suc (length payload)) payload

payload-Agree :
    (msg txid : Bytes)
    → 20 ≤ length msg
    → slice {E = StunError} msg 4 20 ≡ ok (put_uint32 magic_cookie ++ txid)
    → Agree the_address
        (read_payload msg txid)
        (check_payload msg (put_uint32 magic_cookie ++ txid))
unfolding read_payload
payload-Agree msg txid long id = Agree-slice the_address msg 2 4 (omega arith) (omega arith) λ s _.
    Agree-uint16 the_address s λ n.
      Agree-unless the_address (ltb (length msg) (20 + n)) truncated_attributes
        Check.truncated_response
        λ fits.
          rw
            (
              id,
              (bytes_eq_iff (put_uint32 magic_cookie ++ txid) (put_uint32 magic_cookie ++ txid)).1
                  refl,
            )
            (Agree-slice the_address msg 20 (20 + n) (omega arith) (ground arith) λ payload _.
              Agree-bind the_address
                (attribute_loop (suc (length payload)) msg (xor_mask txid) 0 payload none)
                (elim [
                  | some x ↦
                      λ e a four q. loop-Agree (suc (length payload)) msg txid 0 payload a four (cc)
                  | none ↦ λ e a four q. cc
                ]))

parsers-Agree :
    (msg txid : Bytes)
    → AllBytes msg
    → Agree the_address
        (parse_mapped_address msg txid)
        (parse_stun_mapped_address msg (put_uint32 magic_cookie ++ txid))
unfolding parse_mapped_address parse_stun_mapped_address
parsers-Agree msg txid bytes =
    Agree-if the_address (ltb (length msg) 20) (λ _ a four q. cc)
      λ long. rw long (
        let twenty : 20 ≤ length msg = ground arith in
        Agree-bind the_address (byte_at msg 0) λ first _.
          Agree-if the_address (not (bit_and first 0xc0 == 0)) (λ _ a four q. cc)
            λ _. Agree-slice the_address msg 0 2 (omega arith) (omega arith) λ s _.
              Agree-uint16 the_address s λ typ.
                Agree-unless the_address (not (typ == binding_success)) not_success
                  Check.not_response
                  λ _. Agree-bind the_address (slice msg 4 8) λ cookie_field c.
                    Agree-bind the_address (uint32 cookie_field) λ cookie m.
                      Agree-if the_address (not (cookie == magic_cookie)) (λ _ a four q. cc)
                        λ is_magic. Agree-bind the_address (slice msg 8 20) λ id i.
                          Agree-if the_address (not (bytes_eq id txid)) (λ _ a four q. cc)
                            λ same. payload-Agree msg txid twenty (
                              header_id msg id cookie_field txid bytes twenty c
                                (m ∙ ap ok (ground arith)) i (ground arith)))

-- A message of bytes in which the STUN client finds an IPv4 address, in answer to a request of its
-- transaction id, gives the same address to the parser of the NAT check, whose id is the cookie and
-- that id.
pub parse_stun_mapped_address-parse_mapped_address :
    (msg txid : Bytes) (a : AddrPort)
    → AllBytes msg
    → is4 a.addr ≡ true
    → parse_mapped_address msg txid ≡ ok a
    → parse_stun_mapped_address msg (put_uint32 magic_cookie ++ txid) ≡ ok a
parse_stun_mapped_address-parse_mapped_address msg txid a bytes four q =
    parsers-Agree msg txid bytes a four q
