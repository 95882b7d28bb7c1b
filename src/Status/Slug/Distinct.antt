-- ===== src/Status/Slug/Distinct.antt =====
-- What the file names promise: their characters, and that different instances have different files.
use qnatter.Common.{
  ℕ, zero, suc, ◌+◌, ◌/◌, ◌%◌, ◌^◌, ◌≤◌, ◌<◌, ◌≡◌, ◌≢◌, refl, sym, ap, ◌∙◌, arith, true, false, [],
  ◌∷◌, ◌++◌, length, ◌==◌, le→ltb, lt→ltb,
}
use qnatter.Status.Slug.Decode.{
  decode, IsBasic, decode-slug_runes, Written, escaped_mark, plain, ascii, wide, written,
}
use qnatter.Status.Slug.{
  Runes, codes, hex_digit, hex_digits, format_04x, is_plain, slug_rune, slug_runes, runtime_slug,
  default_if_empty,
}

-- Letters, digits and underscores only.
abbrev pub AllPlain : Runes → Type 0
AllPlain [] = Unit {0}
AllPlain (c ∷ s) = (is_plain c ≡ true) × AllPlain s

AllPlain-append : (s t : Runes) → AllPlain s → AllPlain t → AllPlain (s ++ t)
AllPlain-append [] t h g = g
AllPlain-append (c ∷ s) t h g = (h.0, AllPlain-append s t h.1 g)

hex_digits-AllPlain : (n c : ℕ) → AllPlain (hex_digits n c)
unfolding hex_digits
hex_digits-AllPlain zero c = tt
hex_digits-AllPlain (suc n) c = (digit (c / 16 ^ n % 16) (omega arith), hex_digits-AllPlain n c)
  where
    digit : (d : ℕ) → d < 16 → is_plain (hex_digit d) ≡ true
    digit d h = unfold is_plain hex_digit in ground arith

slug_rune-AllPlain : (c : ℕ) (rest w : Runes) → Written c rest w → AllPlain w
slug_rune-AllPlain c rest _ (escaped_mark e m) =
    unfold is_plain in (refl, (refl, (refl, (refl, tt))))
slug_rune-AllPlain c rest _ (plain p m) = (p, tt)
slug_rune-AllPlain c rest _ (ascii p low) =
    unfold is_plain in (refl, (refl, hex_digits-AllPlain 2 c))
slug_rune-AllPlain c rest _ (wide p high) =
    unfold is_plain format_04x in
    ground (arith, hex_digits-AllPlain 4 c, hex_digits-AllPlain 5 c, hex_digits-AllPlain 6 c)

slug_runes-AllPlain : (s : Runes) → AllPlain (slug_runes s)
unfolding slug_runes
slug_runes-AllPlain [] = tt
slug_runes-AllPlain (c ∷ s) =
    AllPlain-append (slug_rune c s) (slug_runes s) (slug_rune-AllPlain c s _ (written c s))
      (slug_runes-AllPlain s)

slug_runes-ne-nil : (c : ℕ) (s : Runes) → slug_runes (c ∷ s) ≢ []
unfolding slug_runes
slug_runes-ne-nil c s e = nonempty (slug_rune c s) (written c s) e
  where
    nonempty : (w : Runes) → Written c s w → w ++ slug_runes s ≢ []
    nonempty _ (escaped_mark x m) q = cc
    nonempty _ (plain p m) q = cc
    nonempty _ (ascii p low) q = cc
    nonempty _ (wide p high) q = cc

slug_runes-default : (c : ℕ) (s : Runes) → runtime_slug (c ∷ s) ≡ slug_runes (c ∷ s)
unfolding runtime_slug
slug_runes-default c s = keep (slug_runes (c ∷ s)) (slug_runes-ne-nil c s)
  where
    keep : (w : Runes) → w ≢ [] → default_if_empty w ≡ w
    keep [] h = absurd (h refl)
    keep (x ∷ w) h = refl

-- The name of a status file is never empty, and has only letters, digits and underscores: it holds
-- no dot and no path separator, whatever the instance is called.
pub runtime_slug-AllPlain : (s : Runes) → AllPlain (runtime_slug s) × (runtime_slug s ≢ [])
unfolding runtime_slug
runtime_slug-AllPlain s =
    named (slug_runes (default_if_empty s)) (slug_runes-AllPlain (default_if_empty s))
  where
    named : (w : Runes) → AllPlain w → AllPlain (default_if_empty w) × (default_if_empty w ≢ [])
    named [] h =
        (unfold is_plain in (refl, (refl, (refl, (refl, (refl, (refl, (refl, tt))))))), λ e. cc)
    named (c ∷ w) h = (h, λ e. cc)

decode-runtime_slug :
    (s : Runes) (n : ℕ) → s ≢ [] → IsBasic s → length s ≤ n → decode n (runtime_slug s) ≡ s
decode-runtime_slug [] n ne b h = absurd (ne refl)
decode-runtime_slug (c ∷ s) n ne b h = rw (slug_runes-default c s) (decode-slug_runes (c ∷ s) n b h)

-- Two different names that are not empty and have only code points of the basic multilingual plane
-- have different slugs.
pub runtime_slug_injective :
    (s t : Runes)
    → s ≢ []
    → t ≢ []
    → IsBasic s
    → IsBasic t
    → runtime_slug s ≡ runtime_slug t
    → s ≡ t
runtime_slug_injective s t hs ht bs bt e =
    sym (decode-runtime_slug s (length s + length t) hs bs (omega arith))
    ∙ ap (decode (length s + length t)) e
    ∙ decode-runtime_slug t (length s + length t) ht bt (omega arith)

slug_rune_wide :
    (c : ℕ) (rest : Runes)
    → is_plain c ≡ false
    → 128 ≤ c
    → slug_rune c rest ≡ codes "_u" ++ format_04x c
unfolding slug_rune
slug_rune_wide c rest h g = rw (not_mark c (omega arith), h, le→ltb c 128 g)
  where
    not_mark : (x : ℕ) → 95 < x → (x == b'_') ≡ false
    not_mark x k = ground arith

wide_plain : (c : ℕ) → 128 ≤ c → is_plain c ≡ false
unfolding is_plain
wide_plain c h = ground arith

digit_plain : (d : ℕ) (rest : Runes) → d < 16 → slug_rune (hex_digit d) rest ≡ hex_digit d ∷ []
unfolding slug_rune
digit_plain d rest h = rw (not_mark d h, plain_digit d h)
  where
    not_mark : (x : ℕ) → x < 16 → (hex_digit x == b'_') ≡ false
    not_mark x k = unfold hex_digit in ground arith

    plain_digit : (x : ℕ) → x < 16 → is_plain (hex_digit x) ≡ true
    plain_digit x k = unfold is_plain hex_digit in ground arith

-- Five digits are the four digits of the quotient and the last one.
five_digits :
    (c : ℕ) (r : Runes) → hex_digits 5 c ++ r ≡ hex_digits 4 (c / 16) ++ (hex_digit (c % 16) ∷ r)
unfolding hex_digits
five_digits c r = rw (
  digit (c / 65536 % 16) (c / 16 / 4096 % 16) (omega arith),
  digit (c / 4096 % 16) (c / 16 / 256 % 16) (omega arith),
  digit (c / 256 % 16) (c / 16 / 16 % 16) (omega arith),
  digit (c / 16 % 16) (c / 16 / 1 % 16) (omega arith),
  digit (c / 1 % 16) (c % 16) (omega arith),
)
  where
    digit : (a b : ℕ) → a ≡ b → hex_digit a ≡ hex_digit b
    digit a b e = ap hex_digit e

-- Beyond that plane the escapes are not told apart: a code point of five hexadecimal digits has the
-- status file of the two code points that its first four digits and its last digit spell.
pub runtime_slug_collision :
    (c : ℕ) (rest : Runes)
    → 0x10000 ≤ c
    → c < 0x100000
    → runtime_slug (c ∷ rest) ≡ runtime_slug (c / 16 ∷ hex_digit (c % 16) ∷ rest)
unfolding slug_runes format_04x
runtime_slug_collision c rest lo hi =
    rw
      (
        slug_runes-default c rest,
        slug_runes-default (c / 16) (hex_digit (c % 16) ∷ rest),
        slug_rune_wide c rest (wide_plain c (omega arith)) (omega arith),
        slug_rune_wide (c / 16) (hex_digit (c % 16) ∷ rest) (wide_plain (c / 16) (omega arith))
            (omega arith),
        digit_plain (c % 16) rest (omega arith),
        le→ltb c 0x10000 lo,
        lt→ltb c 0x100000 hi,
        lt→ltb (c / 16) 0x10000 (omega arith),
      )
      (ap (λ w. b'_' ∷ b'u' ∷ w) (five_digits c (slug_runes rest)))
