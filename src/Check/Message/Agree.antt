-- ===== src/Check/Message/Agree.antt =====
-- The parser of the NAT check beside the parser of the STUN client: both read the same IPv4 address.
use qnatter.Common.{
  ℕ, ◌+◌, ◌*◌, ◌-◌, ◌≤◌, ◌≡◌, refl, arith, Bool, true, false, not, [], ◌∷◌, Outcome, ok, err, panic,
  stuck, ◌>>=◌, ltb, le→ltb, ◌==◌, if◌then◌else◌, length, take, drop, length-take, length-drop,
  Bytes, byte_at, slice, slice-eq_ok, uint16, put_uint32,
}
use qnatter.Net.{v4, v6, AddrPort, is4}
use qnatter.Stun.Message.{
  ParseError, short_ipv6, unsupported_family, xor_bytes, xor_mask, unmask_ip, unmask_port,
  address_field, parse_address_attribute,
}
use qnatter.Check.Message as Check
use qnatter.Check.Message.{
  StunError, stun_address, parse_stun_address_attribute, stun_loop, parse_stun_mapped_address,
}

-- What the first gives as an IPv4 address, the second gives too.
abbrev pub Agree {ℓ} :
    {A : Type ℓ} → (AddrPort → A) → Outcome ParseError A → Outcome StunError AddrPort → Type ℓ
Agree f m n = (a : AddrPort) → is4 a.addr ≡ true → m ≡ ok (f a) → n ≡ ok a

module _ {ℓ} {A : Type ℓ} (f : AddrPort → A) where
  pub Agree-if :
      {x y : Outcome ParseError A} {n : Outcome StunError AddrPort} (b : Bool)
      → (b ≡ true → Agree f x n)
      → (b ≡ false → Agree f y n)
      → Agree f (if b then x else y) n
  Agree-if true g h = g refl
  Agree-if false g h = h refl

  pub Agree-bind {κ} :
      {B : Type κ} {k : B → Outcome ParseError A} {n : Outcome StunError AddrPort}
      (m : Outcome ParseError B)
      → ((b : B) → m ≡ ok b → Agree f (k b) n)
      → Agree f (m >>= k) n
  Agree-bind (ok b) g a h q = g b refl a h q
  Agree-bind (err e) g a h q = cc
  Agree-bind panic g a h q = cc
  Agree-bind stuck g a h q = cc

  -- Both test the same and fail, or go on.
  pub Agree-unless :
      {x : Outcome ParseError A} {y : Outcome StunError AddrPort} (b : Bool) (e : ParseError)
      (e' : StunError)
      → (b ≡ false → Agree f x y)
      → Agree f (if b then err e else x) (if b then err e' else y)
  Agree-unless true e e' g a h q = cc
  Agree-unless false e e' g a h q = g refl a h q

  pub Agree-slice :
      (b : Bytes) (lo hi : ℕ) {k : Bytes → Outcome ParseError A}
      {l : Bytes → Outcome StunError AddrPort}
      → lo ≤ hi
      → hi ≤ length b
      → ((s : Bytes) → length s ≡ hi - lo → Agree f (k s) (l s))
      → Agree f (slice b lo hi >>= k) (slice b lo hi >>= l)
  Agree-slice b lo hi h g t =
      rw (slice-eq_ok {E = ParseError} b lo hi h g, slice-eq_ok {E = StunError} b lo hi h g)
        (t (take (hi - lo) (drop lo b))
          (omega (arith, length-take (hi - lo) (drop lo b), length-drop lo b)))

  pub Agree-uint16 :
      (b : Bytes) {k : ℕ → Outcome ParseError A} {l : ℕ → Outcome StunError AddrPort}
      → ((v : ℕ) → Agree f (k v) (l v))
      → Agree f (uint16 b >>= k) (uint16 b >>= l)
  unfolding uint16
  Agree-uint16 [] t a h q = cc
  Agree-uint16 (x ∷ []) t a h q = cc
  Agree-uint16 (x ∷ y ∷ _) t a h q = t (x * 256 + y) a h q

-- The four bytes of an IPv4 address are masked with the cookie alone.
unmask-stun_address :
    (typ port b c d e : ℕ) (txid : Bytes)
    → stun_address typ port (b ∷ c ∷ d ∷ e ∷ []) ≡ record {
      addr = v4 (unmask_ip typ (b ∷ c ∷ d ∷ e ∷ []) (xor_mask txid));
      port = unmask_port typ port;
    }
unfolding stun_address unmask_ip unmask_port xor_bytes put_uint32
unmask-stun_address typ port b c d e txid = ground arith

-- The parser of the client never gives an IPv4 address for the IPv6 family.
address_field-v6 :
    (typ port : ℕ) (v mask : Bytes) (n : Outcome StunError AddrPort)
    → Agree (λ a. a) (address_field v6 short_ipv6 20 typ v mask port) n
unfolding address_field
address_field-v6 typ port v mask n =
    Agree-if (λ a. a) (ltb (length v) 20) (λ short a four q. cc)
      λ long. Agree-bind (λ a. a) (slice v 4 20) λ ip e a four q. cc

-- An attribute of eight bytes or more, whose second byte is the family.
module _ (typ : ℕ) (txid : Bytes) (a b c d e f g h : ℕ) (rest : Bytes) where
  abbrev field : Bytes
  field = a ∷ b ∷ c ∷ d ∷ e ∷ f ∷ g ∷ h ∷ rest

  client_field : parse_address_attribute typ field (xor_mask txid) ≡ (
      if b == 1
      then ok (record {
        addr = v4 (unmask_ip typ (e ∷ f ∷ g ∷ h ∷ []) (xor_mask txid));
        port = unmask_port typ (c * 256 + d);
      })
      else if b == 2
      then address_field v6 short_ipv6 20 typ field (xor_mask txid) (c * 256 + d)
      else err unsupported_family)
  unfolding parse_address_attribute byte_at uint16
  client_field =
      rw
        (
          le→ltb (length field) 4 (omega arith),
          slice-eq_ok {E = ParseError} field 2 4 (omega arith) (omega arith),
        )
        (unfold address_field in
          rw (
            le→ltb (length field) 8 (omega arith),
            slice-eq_ok {E = ParseError} field 4 8 (omega arith) (omega arith),
          ))

  check_field : parse_stun_address_attribute typ field ≡ (
      if not (b == 1)
      then err Check.unsupported_family
      else ok (record {
        addr = v4 (unmask_ip typ (e ∷ f ∷ g ∷ h ∷ []) (xor_mask txid));
        port = unmask_port typ (c * 256 + d);
      }))
  unfolding parse_stun_address_attribute byte_at uint16
  check_field = rw (
    le→ltb (length field) 8 (omega arith),
    slice-eq_ok {E = StunError} field 2 4 (omega arith) (omega arith),
    slice-eq_ok {E = StunError} field 4 8 (omega arith) (omega arith),
    unmask-stun_address typ (c * 256 + d) e f g h txid,
  )

  field-Agree :
      Agree
        (λ x. x)
        (parse_address_attribute typ field (xor_mask txid))
        (parse_stun_address_attribute typ field)
  field-Agree = rw client_field (
      Agree-if (λ x. x) (b == 1) (λ one x four q. rw (check_field, one) (ground arith))
        λ other.
          Agree-if (λ x. x) (b == 2)
            (λ two. address_field-v6 typ (c * 256 + d) field (xor_mask txid) _) (λ no x four q. cc))

pub parse_address_attribute-Agree :
    (typ : ℕ) (v txid : Bytes)
    → Agree
        (λ a. a)
        (parse_address_attribute typ v (xor_mask txid))
        (parse_stun_address_attribute typ v)
parse_address_attribute-Agree typ (a ∷ b ∷ c ∷ d ∷ e ∷ f ∷ g ∷ h ∷ rest) txid x four q =
    field-Agree typ txid a b c d e f g h rest x four q
parse_address_attribute-Agree typ _ txid x four q =
    unfold parse_address_attribute address_field byte_at uint16 slice in ground arith
