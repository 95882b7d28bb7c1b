-- ===== src/Status/Slug.antt =====
-- go-qnatter/internal/status/status.go: `RuntimeSlug`, which makes a file name of an instance name.
-- A name is the list of its code points.
pub mod Decode
pub mod Distinct
use Prim.Native.Char.{code}
use Prim.Native.String.{String}
use qnatter.Common.{
  ℕ, zero, suc, ◌/◌, ◌%◌, ◌+◌, ◌^◌, Bool, true, false, ◌&&◌, ◌||◌, List, [], ◌∷◌, ◌++◌, ltb, leb,
  ◌==◌, if◌then◌else◌,
}

abbrev pub Runes : Type 0
Runes = List ℕ

-- The code points of a text of the source.
abbrev pub codes : String → Runes
codes String.[] = []
codes (String.◌∷◌ c s) = code c ∷ codes s

abbrev within : ℕ → ℕ → ℕ → Bool
within lo hi c = leb lo c && leb c hi

-- `isHex`
unfoldable pub is_hex : ℕ → Bool
is_hex c = within b'0' b'9' c || within b'a' b'f' c || within b'A' b'F' c

-- `n` hexadecimal digits stand in front.
unfoldable pub all_hex : ℕ → Runes → Bool
unfolding is_hex
all_hex zero runes = true
all_hex (suc n) [] = false
all_hex (suc n) (c ∷ runes) = is_hex c && all_hex n runes

-- A mark and `n` hexadecimal digits stand in front.
unfoldable pub marked_hex : ℕ → ℕ → Runes → Bool
unfolding all_hex
marked_hex mark n [] = false
marked_hex mark n (c ∷ runes) = c == mark && all_hex n runes

-- `hasHexEscapePrefix`
unfoldable pub has_hex_escape_prefix : Runes → Bool
unfolding marked_hex
has_hex_escape_prefix runes = marked_hex b'x' 2 runes || marked_hex b'u' 4 runes

-- The character of a digit below 16 in `%x`.
unfoldable pub hex_digit : ℕ → ℕ
hex_digit d = if ltb d 10 then b'0' + d else 87 + d

-- The lowest `n` digits of `c`, the highest first.
unfoldable pub hex_digits : ℕ → ℕ → Runes
unfolding hex_digit
hex_digits zero c = []
hex_digits (suc n) c = hex_digit (c / 16 ^ n % 16) ∷ hex_digits n c

-- `%04x`: four digits, or as many as the number has; a code point has six at most.
unfoldable pub format_04x : ℕ → Runes
format_04x c =
    if ltb c 0x10000
    then hex_digits 4 c
    else if ltb c 0x100000
    then hex_digits 5 c
    else hex_digits 6 c

-- A letter, a digit or an underscore of ASCII.
unfoldable pub is_plain : ℕ → Bool
is_plain c = within b'A' b'Z' c || within b'a' b'z' c || within b'0' b'9' c || c == b'_'

-- What the loop writes for one code point in front of the others.
unfoldable pub slug_rune : ℕ → Runes → Runes
slug_rune c rest =
    if c == b'_' && has_hex_escape_prefix rest
    then codes "_x5f"
    else if is_plain c
    then c ∷ []
    else if ltb c 128
    then codes "_x" ++ hex_digits 2 c
    else codes "_u" ++ format_04x c

-- The loop of `RuntimeSlug`.
unfoldable pub slug_runes : Runes → Runes
slug_runes [] = []
slug_runes (c ∷ rest) = slug_rune c rest ++ slug_runes rest

abbrev default_if_empty : Runes → Runes
default_if_empty [] = codes "default"
default_if_empty (c ∷ name) = c ∷ name

-- `RuntimeSlug`
unfoldable pub runtime_slug : Runes → Runes
unfolding slug_runes slug_rune has_hex_escape_prefix is_plain format_04x hex_digits
runtime_slug name = default_if_empty (slug_runes (default_if_empty name))
