-- ===== src/Config/Normal.antt =====
-- Normalized IPv4 addresses stay as they are.
use qnatter.Common.{
  ℕ, ◌+◌, ◌*◌, ◌/◌, ◌%◌, ◌<◌, ◌≡◌, refl, sym, ap, ◌∙◌, arith, false, Option, none, some, [], ◌∷◌,
  ◌++◌, le→ltb, ◌==◌, Bytes,
}
use qnatter.Config.Numbers.{read_digits, parse_uint32}
use qnatter.Config.Validate.{
  split_dots, numbers, decimal_byte, dotted, normalize_ipv4, address_of, address_of_option,
  dotted_address,
}

abbrev NoDot : Bytes → Type 0
NoDot [] = Unit {0}
NoDot (c ∷ s) = ((c == b'.') ≡ false) × NoDot s

decimal_byte-NoDot : (n : ℕ) → n < 256 → NoDot (decimal_byte n)
unfolding decimal_byte
decimal_byte-NoDot n h = ground arith

split_dots-NoDot : (p : Bytes) → NoDot p → split_dots p ≡ p ∷ []
unfolding split_dots
split_dots-NoDot [] h = refl
split_dots-NoDot (c ∷ p) h = rw (h.0, split_dots-NoDot p h.1)

split_dots-append : (p s : Bytes) → NoDot p → split_dots (p ++ (b'.' ∷ s)) ≡ p ∷ split_dots s
unfolding split_dots
split_dots-append [] s h = refl
split_dots-append (c ∷ p) s h = rw (h.0, split_dots-append p s h.1)

parse_uint32-decimal_byte : (n : ℕ) → n < 256 → parse_uint32 (decimal_byte n) ≡ some n
unfolding parse_uint32 read_digits decimal_byte
parse_uint32-decimal_byte n h = ground arith

split_dots-dotted :
    (a b c d : ℕ)
    → a < 256
    → b < 256
    → c < 256
    → d < 256
    → split_dots (dotted a b c d)
      ≡ decimal_byte a ∷ decimal_byte b ∷ decimal_byte c ∷ decimal_byte d ∷ []
unfolding dotted
split_dots-dotted a b c d ha hb hc hd = rw (
  split_dots-append (decimal_byte a)
      (decimal_byte b ++ (b'.' ∷ (decimal_byte c ++ (b'.' ∷ decimal_byte d))))
      (decimal_byte-NoDot a ha),
  split_dots-append (decimal_byte b) (decimal_byte c ++ (b'.' ∷ decimal_byte d))
      (decimal_byte-NoDot b hb),
  split_dots-append (decimal_byte c) (decimal_byte d) (decimal_byte-NoDot c hc),
  split_dots-NoDot (decimal_byte d) (decimal_byte-NoDot d hd),
)

numbers-bytes :
    (a b c d : ℕ)
    → a < 256
    → b < 256
    → c < 256
    → d < 256
    → numbers (decimal_byte a ∷ decimal_byte b ∷ decimal_byte c ∷ decimal_byte d ∷ [])
      ≡ some (a ∷ b ∷ c ∷ d ∷ [])
unfolding numbers
numbers-bytes a b c d ha hb hc hd = rw (
  parse_uint32-decimal_byte a ha,
  parse_uint32-decimal_byte b hb,
  parse_uint32-decimal_byte c hc,
  parse_uint32-decimal_byte d hd,
)

address_of-bytes :
    (a b c d : ℕ)
    → a < 256
    → b < 256
    → c < 256
    → d < 256
    → dotted_address (address_of (a ∷ b ∷ c ∷ d ∷ [])) ≡ some (dotted a b c d)
address_of-bytes a b c d ha hb hc hd =
    let ip = a * 0x1000000 + b * 0x10000 + c * 0x100 + d in
    let ea : ip / 0x1000000 % 256 ≡ a = omega arith in
    let eb : ip / 0x10000 % 256 ≡ b = omega arith in
    let ec : ip / 0x100 % 256 ≡ c = omega arith in
    let ed : ip % 256 ≡ d = omega arith in
    rw (
      le→ltb 255 a (omega arith),
      le→ltb 255 b (omega arith),
      le→ltb 255 c (omega arith),
      le→ltb 255 d (omega arith),
      ea,
      eb,
      ec,
      ed,
    )

-- The dotted form of four bytes is its own normal form.
pub normalize_ipv4-dotted :
    (a b c d : ℕ)
    → a < 256
    → b < 256
    → c < 256
    → d < 256
    → normalize_ipv4 (dotted a b c d) ≡ some (dotted a b c d)
unfolding normalize_ipv4
normalize_ipv4-dotted a b c d ha hb hc hd = rw (
  split_dots-dotted a b c d ha hb hc hd,
  numbers-bytes a b c d ha hb hc hd,
  address_of-bytes a b c d ha hb hc hd,
)

-- Normalizing twice is normalizing once.
pub normalize_ipv4_idempotent :
    (s t : Bytes) → normalize_ipv4 s ≡ some t → normalize_ipv4 t ≡ some t
unfolding normalize_ipv4
normalize_ipv4_idempotent s t h = again (address_of_option (numbers (split_dots s))) h
  where
    some-injective : {x y : Bytes} → some x ≡ some y → x ≡ y
    some-injective e = cc

    again : (o : Option ℕ) → dotted_address o ≡ some t → normalize_ipv4 t ≡ some t
    again none e = cc
    again (some ip) e =
        let same = some-injective e in
        ap normalize_ipv4 (sym same)
        ∙ normalize_ipv4-dotted (ip / 0x1000000 % 256) (ip / 0x10000 % 256) (ip / 0x100 % 256)
            (ip % 256) (omega arith) (omega arith) (omega arith) (omega arith)
        ∙ ap some same
