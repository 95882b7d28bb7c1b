-- ===== src/Forward/PortConflict.antt =====
-- go-qnatter/internal/forward/portconflict.go: whether somebody listens on a port already, by the
-- tables of /proc/net.
pub mod Table
use qnatter.Common.{
  ℕ, suc, ◌+◌, ◌*◌, ◌/◌, ◌%◌, ◌^◌, Bool, true, false, not, ◌&&◌, ◌||◌, Option, none, some, List, [],
  ◌∷◌, ltb, leb, ◌==◌, if◌then◌else◌, length, take, drop, Bytes, bytes_eq, text, split_at, fields,
  map, ℤ, is_positive,
}
use qnatter.Config.Numbers.{read_digits, lower}
use qnatter.Engine.Wire.{uint16_of_int}
use qnatter.Net.{Addr, no_addr, v4, v6, addr_eq, is4}

-- An address and a port of a table, of which the addresses are IPv4.
abbrev pub Entry : Type 0
Entry = Addr × ℕ

-- `strings.Cut` at a colon
unfoldable pub cut_colon : Bytes → Option (Bytes × Bytes)
cut_colon [] = none
cut_colon (c ∷ s) =
    let later = cut_colon s in
    if c == b':'
    then some ([], s)
    else elim later [ none ↦ none | some (front, rest) ↦ some (c ∷ front, rest) ]

-- `ParseUint(s, 16, …)`, below a limit
unfoldable pub parse_hex : ℕ → Bytes → Option ℕ
unfolding read_digits
parse_hex limit [] = none
parse_hex limit (c ∷ s) = read_digits false 16 limit 0 (c ∷ s)

-- The four bytes of a little-endian number.
unfoldable pub little_endian : ℕ → Addr
little_endian raw = v4 (raw % 256 ∷ raw / 256 % 256 ∷ raw / 65536 % 256 ∷ raw / 16777216 % 256 ∷ [])

abbrev pub entry_of : Option ℕ → Option ℕ → Option Entry
entry_of (some raw) (some port) = some (little_endian raw, port)
entry_of _ _ = none

abbrev pub cut_entry : Option (Bytes × Bytes) → Option Entry
cut_entry none = none
cut_entry (some (host, port)) =
    if not (length host == 8)
    then none
    else entry_of (parse_hex (2 ^ 32) host) (parse_hex (2 ^ 16) port)

-- `parseProcNetEndpoint`
unfoldable pub parse_proc_net_endpoint : Bytes → Option Entry
parse_proc_net_endpoint field = cut_entry (cut_colon field)

abbrev all_zero : Bytes → Bool
all_zero [] = true
all_zero (b ∷ s) = b == 0 && all_zero s

-- `IsUnspecified`
abbrev pub is_unspecified : Addr → Bool
is_unspecified no_addr = false
is_unspecified (v4 ip) = all_zero ip
is_unspecified (v6 ip) = all_zero ip

-- `addrConflicts`
unfoldable pub addr_conflicts : Addr → Addr → Bool
addr_conflicts want entry = if is_unspecified entry then true else addr_eq want entry

-- `strings.EqualFold(state, "0A")`
abbrev pub is_listening : Bytes → Bool
is_listening state = bytes_eq (map lower state) (text "0a")

-- The remote end is not set: the port that `parseProcNetPort` reads is 0.
abbrev pub is_unconnected : Option Entry → Bool
is_unconnected none = false
is_unconnected (some (addr, port)) = port == 0

abbrev pub same_place : Addr → ℕ → Option Entry → Bool
same_place want port none = false
same_place want port (some (addr, p)) = p == port && addr_conflicts want addr

-- Whether the fields of one line are a listener in the way.
unfoldable pub is_conflict : Addr → ℕ → Bool → List Bytes → Bool
is_conflict want port udp (sl ∷ local ∷ remote ∷ state ∷ _) =
    if not (same_place want port (parse_proc_net_endpoint local))
    then false
    else if udp
    then is_unconnected (parse_proc_net_endpoint remote)
    else is_listening state
is_conflict want port udp _ = false

unfoldable pub any_conflict : Addr → ℕ → Bool → List Bytes → Bool
any_conflict want port udp [] = false
any_conflict want port udp (line ∷ lines) =
    let later = any_conflict want port udp lines in
    if is_conflict want port udp (fields line) then true else later

-- `hasProcNetListener`; the first line is the header.
unfoldable pub has_proc_net_listener : Bytes → Addr → ℕ → Bool → Bool
has_proc_net_listener content want port udp =
    any_conflict want port udp (drop 1 (split_at b'\n' content))

-- `parseBindAddress`
unfoldable pub parse_bind_address : (Bytes → Option Addr) → Bytes → Option Addr
parse_bind_address parse_addr [] = some (v4 (0 ∷ 0 ∷ 0 ∷ 0 ∷ []))
parse_bind_address parse_addr (c ∷ s) = elim (parse_addr (c ∷ s)) [
  | none ↦ none
  | some addr ↦ if is4 addr then some addr else none
]

abbrev read_table : ℕ → Bool → Option Addr → Option Bytes → Bool
read_table port udp (some want) (some content) = has_proc_net_listener content want port udp
read_table port udp _ _ = false

-- `sharedListenPortError` on Linux, true for an error: of the address and port to listen on, and
-- the table of /proc/net, if it can be read.
unfoldable pub shared_listen_port_error :
    (Bytes → Option Addr) → Option Bytes → Bytes → ℤ → Bool → Bool
unfolding parse_bind_address
shared_listen_port_error parse_addr table ip port udp =
    if not (is_positive port)
    then false
    else read_table (uint16_of_int port) udp (parse_bind_address parse_addr ip) table
