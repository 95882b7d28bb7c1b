-- ===== src/Status/Slug/Decode.antt =====
-- A reader of slugs: it takes the escapes apart, and gives the instance name back.
use qnatter.Common.{
  ℕ, zero, suc, ◌+◌, ◌-◌, ◌*◌, ◌/◌, ◌%◌, ◌^◌, ◌≤◌, ◌<◌, ◌≡◌, refl, sym, ap, lt→ltb, take-append,
  drop-append, ◌∙◌, arith, true, false, ◌&&◌, [], ◌∷◌, ◌++◌, ltb, leb, ◌==◌, if◌then◌else◌, length,
  take, drop, Bool-cases, inl, inr, ◌≢◌,
}
use qnatter.Status.Slug.{
  Runes, codes, is_hex, all_hex, marked_hex, has_hex_escape_prefix, hex_digit, hex_digits,
  format_04x, is_plain, slug_rune, slug_runes,
}

-- The digit that a character stands for.
unfoldable pub hex_value : ℕ → ℕ
hex_value c = if leb c b'9' then c - b'0' else c - 87

unfoldable pub read_hex : ℕ → Runes → ℕ
unfolding hex_value
read_hex acc [] = acc
read_hex acc (c ∷ cs) = read_hex (acc * 16 + hex_value c) cs

-- `_x` and two digits, `_u` and four digits, or a character that stands for itself. The first
-- argument bounds the number of characters.
unfoldable pub decode : ℕ → Runes → Runes
unfolding read_hex
decode zero runes = []
decode (suc n) [] = []
decode (suc n) (c ∷ rest) =
    if c == b'_' && marked_hex b'x' 2 rest
    then read_hex 0 (take 2 (drop 1 rest)) ∷ decode n (drop 3 rest)
    else if c == b'_' && marked_hex b'u' 4 rest
    then read_hex 0 (take 4 (drop 1 rest)) ∷ decode n (drop 5 rest)
    else c ∷ decode n rest

is_hex-hex_digit : (d : ℕ) → d < 16 → is_hex (hex_digit d) ≡ true
unfolding is_hex hex_digit
is_hex-hex_digit d h = ground arith

hex_value-hex_digit : (d : ℕ) → d < 16 → hex_value (hex_digit d) ≡ d
unfolding hex_value hex_digit
hex_value-hex_digit d h = ground arith

-- How one code point is written.
pub data Written (c : ℕ) (rest : Runes) : Runes → Type 0 where
  escaped_mark : c ≡ b'_' → has_hex_escape_prefix rest ≡ true → Written c rest (codes "_x5f")
  plain :
      is_plain c ≡ true
      → (c == b'_' && has_hex_escape_prefix rest) ≡ false
      → Written c rest (c ∷ [])
  ascii : is_plain c ≡ false → c < 128 → Written c rest (codes "_x" ++ hex_digits 2 c)
  wide : is_plain c ≡ false → 128 ≤ c → Written c rest (codes "_u" ++ format_04x c)

pub written : (c : ℕ) (rest : Runes) → Written c rest (slug_rune c rest)
unfolding slug_rune
written c rest = elim (Bool-cases (c == b'_' && has_hex_escape_prefix rest)) [
  | inl mark ↦ rw mark (escaped_mark (ground arith) (ground arith))
  | inr other ↦ elim (Bool-cases (is_plain c)) [
    | inl p ↦ rw (other, p) (plain p other)
    | inr np ↦ elim (Bool-cases (ltb c 128)) [
      | inl low ↦ rw (other, np, low) (ascii np (ground arith))
      | inr high ↦ rw (other, np, high) (wide np (ground arith))
    ]
  ]
]

is_hex-is_plain : (c : ℕ) → is_hex c ≡ true → is_plain c ≡ true
unfolding is_hex is_plain
is_hex-is_plain c h = ground arith

==_false : (a b : ℕ) → a ≢ b → (a == b) ≡ false
==_false a b h = ground arith

plain_ne : (c m : ℕ) → is_plain c ≡ false → is_plain m ≡ true → (c == m) ≡ false
plain_ne c m h g = ground arith

-- The digits in front of a name are those in front of its slug.
all_hex-slug_runes : (n : ℕ) (s : Runes) → all_hex n (slug_runes s) ≡ all_hex n s
unfolding slug_runes all_hex
all_hex-slug_runes zero s = refl
all_hex-slug_runes (suc n) [] = refl
all_hex-slug_runes (suc n) (c ∷ rest) =
    after (slug_rune c rest) (written c rest) (all_hex-slug_runes n rest)
  where
    after :
        (w : Runes)
        → Written c rest w
        → all_hex n (slug_runes rest) ≡ all_hex n rest
        → all_hex (suc n) (w ++ slug_runes rest) ≡ (is_hex c && all_hex n rest)
    after _ (escaped_mark e m) ih = ground arith
    after _ (plain p m) ih = ap (λ b. is_hex c && b) ih
    after _ (ascii p low) ih = ground (arith, is_hex-is_plain c)
    after _ (wide p high) ih = ground (arith, is_hex-is_plain c)

marked_hex-slug_runes :
    (m n : ℕ) (s : Runes)
    → is_plain m ≡ true
    → m ≢ b'_'
    → marked_hex m n (slug_runes s) ≡ marked_hex m n s
unfolding slug_runes marked_hex
marked_hex-slug_runes m n [] p d = refl
marked_hex-slug_runes m n (c ∷ rest) p d =
    after (slug_rune c rest) (written c rest) (all_hex-slug_runes n rest)
  where
    after :
        (w : Runes)
        → Written c rest w
        → all_hex n (slug_runes rest) ≡ all_hex n rest
        → marked_hex m n (w ++ slug_runes rest) ≡ (c == m && all_hex n rest)
    after _ (escaped_mark e x) ih = ground arith
    after _ (plain q x) ih = ap (λ b. c == m && b) ih
    after _ (ascii q low) ih = rw (==_false b'_' m (λ e. d (sym e)), plain_ne c m q p)
    after _ (wide q high) ih = rw (==_false b'_' m (λ e. d (sym e)), plain_ne c m q p)

prefix-slug_runes : (s : Runes) → has_hex_escape_prefix (slug_runes s) ≡ has_hex_escape_prefix s
unfolding has_hex_escape_prefix
prefix-slug_runes s = rw (
  marked_hex-slug_runes b'x' 2 s (unfold is_plain in refl) (omega arith),
  marked_hex-slug_runes b'u' 4 s (unfold is_plain in refl) (omega arith),
)

length-hex_digits : (n c : ℕ) → length (hex_digits n c) ≡ n
unfolding hex_digits
length-hex_digits zero c = refl
length-hex_digits (suc n) c = ap suc (length-hex_digits n c)

all_hex-hex_digits : (n c : ℕ) (r : Runes) → all_hex n (hex_digits n c ++ r) ≡ true
unfolding hex_digits all_hex
all_hex-hex_digits zero c r = refl
all_hex-hex_digits (suc n) c r =
    rw (is_hex-hex_digit (c / 16 ^ n % 16) (omega arith), all_hex-hex_digits n c r)

read_hex_two : (c : ℕ) → c < 256 → read_hex 0 (hex_digits 2 c) ≡ c
unfolding read_hex hex_digits
read_hex_two c h =
    rw
      (
        hex_value-hex_digit (c / 16 % 16) (omega arith),
        hex_value-hex_digit (c / 1 % 16) (omega arith),
      )
      (omega arith)

read_hex_four : (c : ℕ) → c < 65536 → read_hex 0 (hex_digits 4 c) ≡ c
unfolding read_hex hex_digits
read_hex_four c h =
    rw
      (
        hex_value-hex_digit (c / 4096 % 16) (omega arith),
        hex_value-hex_digit (c / 256 % 16) (omega arith),
        hex_value-hex_digit (c / 16 % 16) (omega arith),
        hex_value-hex_digit (c / 1 % 16) (omega arith),
      )
      (omega arith)

-- One code point is read back, whatever follows it.
module _ (n c : ℕ) (rest : Runes) where
  decode_mark :
      c ≡ b'_' → decode (suc n) (codes "_x5f" ++ slug_runes rest) ≡ c ∷ decode n (slug_runes rest)
  unfolding decode marked_hex is_hex
  decode_mark e = rw e

  decode_plain :
      (c == b'_' && has_hex_escape_prefix rest) ≡ false
      → decode (suc n) (c ∷ slug_runes rest) ≡ c ∷ decode n (slug_runes rest)
  unfolding decode has_hex_escape_prefix
  decode_plain h = ground (arith, prefix-slug_runes rest)

  decode_ascii :
      c < 128
      → decode (suc n) ((codes "_x" ++ hex_digits 2 c) ++ slug_runes rest)
        ≡ c ∷ decode n (slug_runes rest)
  unfolding decode marked_hex
  decode_ascii h = rw (
    all_hex-hex_digits 2 c (slug_runes rest),
    take-append 2 (hex_digits 2 c) (slug_runes rest) (sym (length-hex_digits 2 c)),
    drop-append 2 (hex_digits 2 c) (slug_runes rest) (sym (length-hex_digits 2 c)),
    read_hex_two c (omega arith),
  )

  decode_wide :
      c < 65536
      → decode (suc n) ((codes "_u" ++ format_04x c) ++ slug_runes rest)
        ≡ c ∷ decode n (slug_runes rest)
  unfolding decode marked_hex format_04x
  decode_wide h = rw (
    lt→ltb c 65536 h,
    all_hex-hex_digits 4 c (slug_runes rest),
    take-append 4 (hex_digits 4 c) (slug_runes rest) (sym (length-hex_digits 4 c)),
    drop-append 4 (hex_digits 4 c) (slug_runes rest) (sym (length-hex_digits 4 c)),
    read_hex_four c h,
  )

-- Code points of the basic multilingual plane.
abbrev pub IsBasic : Runes → Type 0
IsBasic [] = Unit {0}
IsBasic (c ∷ s) = (c < 65536) × IsBasic s

pub decode-slug_runes : (s : Runes) (n : ℕ) → IsBasic s → length s ≤ n → decode n (slug_runes s) ≡ s
unfolding slug_runes
decode-slug_runes [] zero b h = unfold decode in refl
decode-slug_runes [] (suc n) b h = unfold decode in refl
decode-slug_runes (c ∷ rest) zero b h = absurd (omega arith)
decode-slug_runes (c ∷ rest) (suc n) b h =
    back (slug_rune c rest) (written c rest)
    ∙ ap (◌∷◌ c) (decode-slug_runes rest n b.1 (omega arith))
  where
    back :
        (w : Runes)
        → Written c rest w
        → decode (suc n) (w ++ slug_runes rest) ≡ c ∷ decode n (slug_runes rest)
    back _ (escaped_mark e m) = decode_mark n c rest e
    back _ (plain p m) = decode_plain n c rest m
    back _ (ascii p low) = decode_ascii n c rest low
    back _ (wide p high) = decode_wide n c rest b.0
