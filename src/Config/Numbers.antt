-- ===== src/Config/Numbers.antt =====
-- What the configuration uses of Go's `strconv`, and ports as go-qnatter/internal/endpoint reads
-- them.
use qnatter.Common.{
  ℕ, suc, ◌+◌, ◌-◌, ◌*◌, ◌^◌, Bool, true, false, ◌&&◌, ◌||◌, Option, none, some, [], ◌∷◌, ltb, leb,
  ◌==◌, if◌then◌else◌, ◌≡◌, ◌≤◌, arith, drop, Bytes, ℤ, pos, negsuc,
}

abbrev within : ℕ → ℕ → ℕ → Bool
within lo hi c = leb lo c && leb c hi

-- `c | ('x' - 'X')`
abbrev pub lower : ℕ → ℕ
lower c = if within b'A' b'Z' c then c + 32 else c

-- The digit that a character stands for, up to base 36.
abbrev pub digit_of : ℕ → Option ℕ
digit_of c =
    if within b'0' b'9' c
    then some (c - b'0')
    else if within b'a' b'z' (lower c)
    then some (lower c - 87)
    else none

-- One digit more, below `limit`.
abbrev pub push_digit : ℕ → ℕ → ℕ → Option ℕ → Option ℕ
push_digit base limit n none = none
push_digit base limit n (some d) =
    if leb base d then none else if ltb (n * base + d) limit then some (n * base + d) else none

abbrev pub or_none {ℓ} : {A : Type ℓ} → Option ℕ → (ℕ → Option A) → Option A
or_none none f = none
or_none (some n) f = f n

-- The digits of a text in a base; a value from `limit` on is out of range. With `skip` underscores
-- are passed over.
unfoldable pub read_digits : Bool → ℕ → ℕ → ℕ → Bytes → Option ℕ
read_digits skip base limit n [] = some n
read_digits skip base limit n (c ∷ s) =
    if c == b'_' && skip
    then read_digits skip base limit n s
    else or_none (push_digit base limit n (digit_of c)) λ n'. read_digits skip base limit n' s

-- `ParseUint(s, 10, 32)`
unfoldable pub parse_uint32 : Bytes → Option ℕ
unfolding read_digits
parse_uint32 [] = none
parse_uint32 (c ∷ s) = read_digits false 10 (2 ^ 32) 0 (c ∷ s)

-- What `underscoreOK` saw last.
pub data Saw : Type 0 where
  saw_start saw_digit saw_underscore saw_other : Saw

abbrev ends_well : Saw → Bool
ends_well saw_underscore = false
ends_well _ = true

abbrev after_digit : Saw → Bool
after_digit saw_digit = true
after_digit _ = false

underscores : Bool → Saw → Bytes → Bool
underscores hex saw [] = ends_well saw
underscores hex saw (c ∷ s) =
    if within b'0' b'9' c || hex && within b'a' b'f' (lower c)
    then underscores hex saw_digit s
    else if c == b'_'
    then after_digit saw && underscores hex saw_underscore s
    else ends_well saw && underscores hex saw_other s

-- A base prefix: `0b`, `0o` or `0x`.
abbrev prefix_base : ℕ → Option ℕ
prefix_base c =
    if lower c == b'b'
    then some 2
    else if lower c == b'o'
    then some 8
    else if lower c == b'x'
    then some 16
    else none

abbrev sound : Bool → Saw → Bytes → Option ℕ → Option ℕ
sound hex saw s none = none
sound hex saw s (some n) = if underscores hex saw s then some n else none

abbrev with_prefix : Bytes → ℕ → Bytes → Option ℕ → Option ℕ
with_prefix s c rest (some base) =
    sound (base == 16) saw_digit rest (read_digits true base (2 ^ 32) 0 rest)
with_prefix s c rest none = sound false saw_start s (read_digits true 8 (2 ^ 32) 0 (drop 1 s))

-- `ParseUint(s, 0, 32)`: the base is that of the prefix.
unfoldable pub parse_uint32_any : Bytes → Option ℕ
unfolding read_digits underscores
parse_uint32_any [] = none
parse_uint32_any (c ∷ []) = sound false saw_start (c ∷ []) (read_digits true 10 (2 ^ 32) 0 (c ∷ []))
parse_uint32_any (c ∷ d ∷ []) =
    let s = c ∷ d ∷ [] in
    if c == b'0'
    then sound false saw_start s (read_digits true 8 (2 ^ 32) 0 (d ∷ []))
    else sound false saw_start s (read_digits true 10 (2 ^ 32) 0 s)
parse_uint32_any (c ∷ d ∷ e ∷ rest) =
    let s = c ∷ d ∷ e ∷ rest in
    if c == b'0'
    then with_prefix s d (e ∷ rest) (prefix_base d)
    else sound false saw_start s (read_digits true 10 (2 ^ 32) 0 s)

-- `Atoi` without its sign: the value of an `int64` that is not negative.
unsigned : ℕ → Bytes → Option ℕ
unfolding read_digits
unsigned limit [] = none
unsigned limit (c ∷ s) = read_digits false 10 limit 0 (c ∷ s)

abbrev negated : Option ℕ → Option ℤ
negated none = none
negated (some (suc n)) = some (negsuc n)
negated (some _) = some (pos 0)

abbrev positive : Option ℕ → Option ℤ
positive none = none
positive (some n) = some (pos n)

-- `strconv.Atoi`
unfoldable pub atoi : Bytes → Option ℤ
unfolding unsigned
atoi [] = none
atoi (c ∷ s) =
    if c == b'-'
    then negated (unsigned (2 ^ 63 + 1) s)
    else if c == b'+'
    then positive (unsigned (2 ^ 63) s)
    else positive (unsigned (2 ^ 63) (c ∷ s))

abbrev port_of : Option ℤ → Option ℕ
port_of (some (pos n)) = if ltb n 1 || ltb 65535 n then none else some n
port_of _ = none

-- `endpoint.ParsePort`
unfoldable pub parse_port : Bytes → Option ℕ
parse_port s = port_of (atoi s)

port_of_range : (z : Option ℤ) (n : ℕ) → port_of z ≡ some n → (1 ≤ n) × (n ≤ 65535)
port_of_range none n h = cc
port_of_range (some (negsuc k)) n h = cc
port_of_range (some (pos k)) n h = ground arith

-- A port that `ParsePort` reads is between 1 and 65535.
pub parse_port_range : (s : Bytes) (n : ℕ) → parse_port s ≡ some n → (1 ≤ n) × (n ≤ 65535)
unfolding parse_port
parse_port_range s n h = port_of_range (atoi s) n h
