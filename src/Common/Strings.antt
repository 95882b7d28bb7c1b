-- ===== src/Common/Strings.antt =====
-- Texts of the source as byte strings; they are ASCII.
use Prim.Native.Char.{code}
use Prim.Native.String.{String}
use Prim.Native.Nat.{ℕ}
use mathlib.Core.Bool.{Bool, ◌&&◌, ◌||◌}
use mathlib.Core.List.{List, [], ◌∷◌}
use qnatter.Common.Tests.{leb, ◌==◌, if◌then◌else◌}
use qnatter.Common.Slices.{Bytes}

abbrev pub text : String → Bytes
text String.[] = []
text (String.◌∷◌ c s) = code c ∷ text s

-- The white space of ASCII
abbrev pub is_space : ℕ → Bool
is_space c = leb 9 c && leb c 13 || c == 32

trim_left : Bytes → Bytes
trim_left [] = []
trim_left (c ∷ s) = let rest = trim_left s in if is_space c then rest else c ∷ s

-- A text with the spaces at its end taken off.
abbrev with_front : ℕ → Bytes → Bytes
with_front c [] = if is_space c then [] else c ∷ []
with_front c (d ∷ s) = c ∷ d ∷ s

trim_right : Bytes → Bytes
trim_right [] = []
trim_right (c ∷ s) = with_front c (trim_right s)

-- `strings.TrimSpace` on ASCII
unfoldable pub trim_space : Bytes → Bytes
unfolding trim_left trim_right
trim_space s = trim_right (trim_left s)

-- `strings.Split` at one character, which stands between the parts.
abbrev with_char : ℕ → List Bytes → List Bytes
with_char c [] = (c ∷ []) ∷ []
with_char c (part ∷ parts) = (c ∷ part) ∷ parts

unfoldable pub split_at : ℕ → Bytes → List Bytes
split_at sep [] = [] ∷ []
split_at sep (c ∷ s) =
    let parts = split_at sep s in if c == sep then [] ∷ parts else with_char c parts

abbrev flush : Bytes → List Bytes → List Bytes
flush [] words = words
flush (c ∷ w) words = (c ∷ w) ∷ words

-- The word that has begun, and the words behind it.
scan_words : Bytes → Bytes × List Bytes
scan_words [] = ([], [])
scan_words (c ∷ s) =
    let later = scan_words s in
    if is_space c then ([], flush later.0 later.1) else (c ∷ later.0, later.1)

-- `strings.Fields` on ASCII
unfoldable pub fields : Bytes → List Bytes
unfolding scan_words
fields s = flush (scan_words s).0 (scan_words s).1
