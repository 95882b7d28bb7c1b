-- ===== src/Config/Validate.antt =====
-- go-qnatter/internal/config/config.go: `validateConfig` and what it uses.
use qnatter.Common.{
  ℕ, ◌+◌, ◌*◌, ◌/◌, ◌%◌, Bool, true, false, not, ◌&&◌, ◌||◌, Option, none, some, List, [], ◌∷◌,
  ◌++◌, Outcome, ok, err, ◌>>=◌, ◌>>◌, ltb, leb, ◌==◌, if◌then◌else◌, length, Bytes, is_some, ℤ,
  is_positive, in_range,
}
use qnatter.Config.{Config}
use qnatter.Config.Numbers.{parse_uint32, parse_uint32_any}

-- The errors of `validateConfig`, one for each message.
pub data ConfigError : Type 0 where
  incomplete_route_policy invalid_route_mark invalid_route_table invalid_route_priority :
      ConfigError
  not_positive interval_too_large invalid_bind_port invalid_target_port : ConfigError
  notify_not_found invalid_bind_address invalid_interface invalid_target_address : ConfigError

-- `maxKeepAliveInterval`
abbrev pub max_keep_alive_interval : ℕ
max_keep_alive_interval = 24 * 60 * 60

abbrev pub is_empty : Bytes → Bool
is_empty [] = true
is_empty (_ ∷ _) = false

abbrev pub require : Bool → ConfigError → Outcome ConfigError (Unit {0})
require b e = if b then ok tt else err e

-- `validateRoutePolicy`
unfoldable pub validate_route_policy : Config → Outcome ConfigError (Unit {0})
validate_route_policy cfg =
    if is_empty cfg.route_mark && is_empty cfg.route_table && is_empty cfg.route_priority
    then ok tt
    else if is_empty cfg.route_mark || is_empty cfg.route_table || is_empty cfg.route_priority
    then err incomplete_route_policy
    else require (is_some (parse_uint32_any cfg.route_mark)) invalid_route_mark
      >> require (is_some (parse_uint32 cfg.route_table)) invalid_route_table
      >> require (is_some (parse_uint32 cfg.route_priority)) invalid_route_priority

-- `validPort`
abbrev pub valid_port : ℤ → Bool
valid_port p = in_range p 65535

abbrev is_digit : ℕ → Bool
is_digit c = leb b'0' c && leb c b'9'

literal_chars : Bool → Bytes → Bool
literal_chars has_dot [] = has_dot
literal_chars has_dot (c ∷ s) =
    if c == b'.' then literal_chars true s else is_digit c && literal_chars has_dot s

-- `looksLikeIPv4Literal`
unfoldable pub looks_like_ipv4_literal : Bytes → Bool
unfolding literal_chars
looks_like_ipv4_literal s = literal_chars false s

abbrev pub is_name_letter : ℕ → Bool
is_name_letter c =
    leb b'a' c && leb c b'z'
    || leb b'A' c && leb c b'Z'
    || c == b'_'
    || c == b'.'
    || c == b':'
    || c == b'@'
    || c == b'-'

interface_chars : Bool → Bytes → Bool
interface_chars has_letter [] = has_letter
interface_chars has_letter (c ∷ s) =
    if is_name_letter c then interface_chars true s else is_digit c && interface_chars has_letter s

-- `validInterfaceName`
unfoldable pub valid_interface_name : Bytes → Bool
unfolding interface_chars
valid_interface_name s = if is_empty s || ltb 64 (length s) then false else interface_chars false s

-- `strings.Split(value, ".")`: the part in front, and those behind.
abbrev pub with_char : ℕ → List Bytes → List Bytes
with_char c [] = (c ∷ []) ∷ []
with_char c (part ∷ parts) = (c ∷ part) ∷ parts

unfoldable pub split_dots : Bytes → List Bytes
split_dots [] = [] ∷ []
split_dots (c ∷ s) = let parts = split_dots s in if c == b'.' then [] ∷ parts else with_char c parts

abbrev pub cons_option : Option ℕ → Option (List ℕ) → Option (List ℕ)
cons_option (some n) (some ns) = some (n ∷ ns)
cons_option _ _ = none

-- The numbers of all parts.
unfoldable pub numbers : List Bytes → Option (List ℕ)
numbers [] = some []
numbers (part ∷ parts) = cons_option (parse_uint32 part) (numbers parts)

-- The 32 bits of an address with one to four parts, where the last part fills what is left.
abbrev pub address_of : List ℕ → Option ℕ
address_of (a ∷ []) = some a
address_of (a ∷ b ∷ []) = if ltb 255 a || ltb 0xffffff b then none else some (a * 0x1000000 + b)
address_of (a ∷ b ∷ c ∷ []) =
    if ltb 255 a || ltb 255 b || ltb 0xffff c then none else some (a * 0x1000000 + b * 0x10000 + c)
address_of (a ∷ b ∷ c ∷ d ∷ []) =
    if ltb 255 a || ltb 255 b || ltb 255 c || ltb 255 d
    then none
    else some (a * 0x1000000 + b * 0x10000 + c * 0x100 + d)
address_of _ = none

abbrev pub address_of_option : Option (List ℕ) → Option ℕ
address_of_option none = none
address_of_option (some ns) = address_of ns

-- A number below 256 in decimal.
unfoldable pub decimal_byte : ℕ → Bytes
decimal_byte n =
    if ltb n 10
    then (48 + n) ∷ []
    else if ltb n 100
    then (48 + n / 10) ∷ (48 + n % 10) ∷ []
    else (48 + n / 100) ∷ (48 + n / 10 % 10) ∷ (48 + n % 10) ∷ []

-- `net.IP.String` of four bytes
unfoldable pub dotted : ℕ → ℕ → ℕ → ℕ → Bytes
dotted a b c d =
    decimal_byte a
    ++ (b'.' ∷ (decimal_byte b ++ (b'.' ∷ (decimal_byte c ++ (b'.' ∷ decimal_byte d)))))

abbrev pub dotted_address : Option ℕ → Option Bytes
dotted_address none = none
dotted_address (some ip) =
    some (dotted (ip / 0x1000000 % 256) (ip / 0x10000 % 256) (ip / 0x100 % 256) (ip % 256))

-- `normalizeIPv4`
unfoldable pub normalize_ipv4 : Bytes → Option Bytes
normalize_ipv4 value = dotted_address (address_of_option (numbers (split_dots value)))

abbrev pub bound_value : Bytes → Option Bytes → Outcome ConfigError Bytes
bound_value value (some normalized) = ok normalized
bound_value value none =
    if looks_like_ipv4_literal value
    then err invalid_bind_address
    else if not (valid_interface_name value)
    then err invalid_interface
    else ok value

abbrev pub target_value : Option Bytes → Outcome ConfigError Bytes
target_value (some normalized) = ok normalized
target_value none = err invalid_target_address

-- `validateConfig`, with the configuration that it leaves; `is_file` is `os.Stat` with a test that
-- the path is no directory.
unfoldable pub validate_config : (Bytes → Bool) → Config → Outcome ConfigError Config
validate_config is_file cfg =
    validate_route_policy cfg
    >> require (is_positive cfg.keep_alive_interval) not_positive
    >> require (in_range cfg.keep_alive_interval max_keep_alive_interval) interval_too_large
    >> require (valid_port cfg.bind_port) invalid_bind_port
    >> require (valid_port cfg.target_port) invalid_target_port
    >> require (is_empty cfg.notify_path || is_file cfg.notify_path) notify_not_found
    >> bound_value cfg.bind_value (normalize_ipv4 cfg.bind_value)
    >>= λ bind. target_value (normalize_ipv4 cfg.target_ip) >>= λ target.
        ok (record cfg { bind_value = bind; target_ip = target })
