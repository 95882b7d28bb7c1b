-- ===== src/Forward/PortConflict/Table.antt =====
-- An endpoint in a table of /proc/net is read as it was written.
use qnatter.Common.{
  ℕ, ◌+◌, ◌*◌, ◌/◌, ◌%◌, ◌^◌, ◌<◌, ◌≡◌, refl, ap, ◌∙◌, arith, Bool, true, false, some, [], ◌∷◌,
  ◌++◌, ltb, leb, ◌&&◌, ◌==◌, if◌then◌else◌, length, Bytes, lt→ltb,
}
use qnatter.Config.Numbers.{read_digits, digit_of}
use qnatter.Net.{v4}
use qnatter.Forward.PortConflict.{cut_colon, parse_hex, little_endian, parse_proc_net_endpoint}

-- A digit of `%X`
unfoldable pub hex_digit : ℕ → ℕ
hex_digit d = if ltb d 10 then 48 + d else 55 + d

-- A number below 256 as two digits
unfoldable pub hex_byte : ℕ → Bytes
unfolding hex_digit
hex_byte b = hex_digit (b / 16) ∷ hex_digit (b % 16) ∷ []

-- How the kernel writes `a.b.c.d:port`.
unfoldable pub proc_net_endpoint : ℕ → ℕ → ℕ → ℕ → ℕ → Bytes
proc_net_endpoint a b c d port =
    hex_byte d
    ++ (hex_byte c
        ++ (hex_byte b
            ++ (hex_byte a ++ (b':' ∷ (hex_byte (port / 256) ++ (hex_byte (port % 256) ++ []))))))

and_false : (b : Bool) → (b && false) ≡ false
and_false true = refl
and_false false = refl

digit_of-hex_digit : (d : ℕ) → d < 16 → digit_of (hex_digit d) ≡ some d
unfolding hex_digit
digit_of-hex_digit d h = ground arith

lt→leb : (d : ℕ) → d < 16 → leb 16 d ≡ false
lt→leb d h = ground arith

read_hex_digit :
    (limit n d : ℕ) (s : Bytes)
    → d < 16
    → n * 16 + d < limit
    → read_digits false 16 limit n (hex_digit d ∷ s) ≡ read_digits false 16 limit (n * 16 + d) s
unfolding read_digits
read_hex_digit limit n d s h g = rw (
  and_false (hex_digit d == b'_'),
  digit_of-hex_digit d h,
  lt→leb d h,
  lt→ltb (n * 16 + d) limit g,
)

hex_digit-ne-colon : (d : ℕ) → d < 16 → (hex_digit d == b':') ≡ false
unfolding hex_digit
hex_digit-ne-colon d h = ground arith

read_hex_byte :
    (limit n b : ℕ) (s : Bytes)
    → b < 256
    → n * 256 + b < limit
    → read_digits false 16 limit n (hex_byte b ++ s) ≡ read_digits false 16 limit (n * 256 + b) s
unfolding hex_byte
read_hex_byte limit n b s h g =
    read_hex_digit limit n (b / 16) (hex_digit (b % 16) ∷ s) (omega arith) (omega arith)
    ∙ read_hex_digit limit (n * 16 + b / 16) (b % 16) s (omega arith) (omega arith)
    ∙ ap (λ k. read_digits false 16 limit k s) (omega arith)

cut_hex_byte :
    (b : ℕ) (s front rest : Bytes)
    → b < 256
    → cut_colon s ≡ some (front, rest)
    → cut_colon (hex_byte b ++ s) ≡ some (hex_byte b ++ front, rest)
unfolding cut_colon hex_byte
cut_hex_byte b s front rest h e =
    rw (hex_digit-ne-colon (b / 16) (omega arith), hex_digit-ne-colon (b % 16) (omega arith), e)

starts_with_byte :
    (limit b : ℕ) (s : Bytes)
    → parse_hex limit (hex_byte b ++ s) ≡ read_digits false 16 limit 0 (hex_byte b ++ s)
unfolding parse_hex hex_byte
starts_with_byte limit b s = refl

parse_hex_byte :
    (limit b : ℕ) (s : Bytes)
    → b < 256
    → b < limit
    → parse_hex limit (hex_byte b ++ s) ≡ read_digits false 16 limit b s
parse_hex_byte limit b s h g =
    starts_with_byte limit b s
    ∙ read_hex_byte limit 0 b s h (omega arith)
    ∙ ap (λ k. read_digits false 16 limit k s) (omega arith)

end_of_digits : (limit n : ℕ) → read_digits false 16 limit n [] ≡ some n
unfolding read_digits
end_of_digits limit n = refl

-- The eight digits of an address.
abbrev host : ℕ → ℕ → ℕ → ℕ → Bytes
host a b c d = hex_byte d ++ (hex_byte c ++ (hex_byte b ++ (hex_byte a ++ [])))

length-host : (a b c d : ℕ) → length (host a b c d) ≡ 8
unfolding hex_byte
length-host a b c d = refl

parse_hex-host :
    (a b c d : ℕ)
    → a < 256
    → b < 256
    → c < 256
    → d < 256
    → parse_hex (2 ^ 32) (host a b c d) ≡ some (((d * 256 + c) * 256 + b) * 256 + a)
parse_hex-host a b c d ha hb hc hd =
    parse_hex_byte (2 ^ 32) d _ hd (omega arith)
    ∙ read_hex_byte (2 ^ 32) d c _ hc (omega arith)
    ∙ read_hex_byte (2 ^ 32) (d * 256 + c) b _ hb (omega arith)
    ∙ read_hex_byte (2 ^ 32) ((d * 256 + c) * 256 + b) a [] ha (omega arith)
    ∙ end_of_digits (2 ^ 32) _

parse_hex-port :
    (port : ℕ)
    → port < 65536
    → parse_hex (2 ^ 16) (hex_byte (port / 256) ++ (hex_byte (port % 256) ++ [])) ≡ some port
parse_hex-port port h =
    parse_hex_byte (2 ^ 16) (port / 256) _ (omega arith) (omega arith)
    ∙ read_hex_byte (2 ^ 16) (port / 256) (port % 256) [] (omega arith) (omega arith)
    ∙ end_of_digits (2 ^ 16) _
    ∙ ap some (omega arith)

little_endian-bytes :
    (a b c d : ℕ)
    → a < 256
    → b < 256
    → c < 256
    → d < 256
    → little_endian (((d * 256 + c) * 256 + b) * 256 + a) ≡ v4 (a ∷ b ∷ c ∷ d ∷ [])
unfolding little_endian
little_endian-bytes a b c d ha hb hc hd =
    let raw = ((d * 256 + c) * 256 + b) * 256 + a in
    let ea : raw % 256 ≡ a = omega arith in
    let eb : raw / 256 % 256 ≡ b = omega arith in
    let ec : raw / 65536 % 256 ≡ c = omega arith in
    let ed : raw / 16777216 % 256 ≡ d = omega arith in rw (ea, eb, ec, ed)

colon_first : (s : Bytes) → cut_colon (b':' ∷ s) ≡ some ([], s)
unfolding cut_colon
colon_first s = refl

cut_colon-endpoint :
    (a b c d : ℕ) (s : Bytes)
    → a < 256
    → b < 256
    → c < 256
    → d < 256
    → cut_colon (hex_byte d ++ (hex_byte c ++ (hex_byte b ++ (hex_byte a ++ (b':' ∷ s)))))
      ≡ some (host a b c d, s)
cut_colon-endpoint a b c d s ha hb hc hd =
    cut_hex_byte d _ _ s hd
      (cut_hex_byte c _ _ s hc (cut_hex_byte b _ _ s hb (cut_hex_byte a _ [] s ha (colon_first s))))

-- The address and the port that the kernel writes into a table, the address as four bytes in
-- little-endian order, are the ones that are read.
pub parse-proc_net_endpoint :
    (a b c d port : ℕ)
    → a < 256
    → b < 256
    → c < 256
    → d < 256
    → port < 65536
    → parse_proc_net_endpoint (proc_net_endpoint a b c d port)
      ≡ some (v4 (a ∷ b ∷ c ∷ d ∷ []), port)
unfolding proc_net_endpoint parse_proc_net_endpoint
parse-proc_net_endpoint a b c d port ha hb hc hd hp = rw (
  cut_colon-endpoint a b c d (hex_byte (port / 256) ++ (hex_byte (port % 256) ++ [])) ha hb hc hd,
  length-host a b c d,
  parse_hex-host a b c d ha hb hc hd,
  parse_hex-port port hp,
  little_endian-bytes a b c d ha hb hc hd,
)
