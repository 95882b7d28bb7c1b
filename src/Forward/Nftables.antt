-- ===== src/Forward/Nftables.antt =====
-- go-qnatter/internal/forward/nftables.go: the texts of the rules, and the handles in what `nft`
-- prints. Addresses are texts.
pub mod Executor
pub mod Start
mod Tests
use qnatter.Common.{
  ℕ, zero, suc, ◌+◌, ◌/◌, ◌%◌, Bool, true, false, not, ◌&&◌, Option, none, some, List, [], ◌∷◌,
  ◌++◌, ltb, leb, if◌then◌else◌, is_some, Bytes, bytes_eq, text, split_at, ℤ, pos, negsuc,
}
use qnatter.Config.Numbers.{atoi}
use qnatter.Config.Servers.{strip}
use qnatter.Forward.Options.{StartOptions}

-- `%d`; the fuel is more than the number of digits.
unfoldable pub digits : ℕ → ℕ → Bytes
digits zero n = []
digits (suc fuel) n =
    let front = digits fuel (n / 10) in
    if ltb n 10 then (b'0' + n) ∷ [] else front ++ ((b'0' + n % 10) ∷ [])

unfoldable pub decimal : ℤ → Bytes
unfolding digits
decimal (pos n) = digits (suc n) n
decimal (negsuc n) = b'-' ∷ digits (suc (suc n)) (suc n)

-- `protocolName`
abbrev pub protocol_name : Bool → Bytes
protocol_name udp = if udp then text "udp" else text "tcp"

-- `ip daddr <address> <protocol> dport <port>`, the front of three specs
abbrev destination : Bytes → Bool → ℤ → Bytes
destination ip udp port =
    text "ip daddr "
    ++ (ip ++ (text " " ++ (protocol_name udp ++ (text " dport " ++ decimal port))))

-- `NftablesDNATSpec`
unfoldable pub nftables_dnat_spec : StartOptions → Bytes
unfolding decimal
nftables_dnat_spec o =
    destination o.ip o.udp o.port
    ++ (text " dnat to " ++ (o.target_ip ++ (text ":" ++ decimal o.target_port)))

-- `NftablesSNATSpec`
unfoldable pub nftables_snat_spec : StartOptions → Bytes
unfolding decimal bytes_eq
nftables_snat_spec o =
    destination o.target_ip o.udp o.target_port
    ++ (text " snat to " ++ (if bytes_eq o.snat_ip [] then o.ip else o.snat_ip))

-- `NftablesConnMarkSpec`
unfoldable pub nftables_conn_mark_spec : StartOptions → Bytes → Bytes
unfolding decimal
nftables_conn_mark_spec o mark = destination o.ip o.udp o.port ++ (text " ct mark set " ++ mark)

-- `NftablesRouteMarkSpec`
unfoldable pub nftables_route_mark_spec : StartOptions → Bytes → Bytes
unfolding decimal
nftables_route_mark_spec o mark =
    text "ip saddr "
    ++ (o.target_ip
        ++ (text " "
            ++ (protocol_name o.udp
                ++ (text " sport "
                    ++ (decimal o.target_port
                        ++ (text " ct mark " ++ (mark ++ (text " meta mark set " ++ mark))))))))

abbrev is_digit : ℕ → Bool
is_digit c = leb b'0' c && leb c b'9'

unfoldable pub leading_digits : Bytes → Bytes
leading_digits [] = []
leading_digits (c ∷ s) = let rest = leading_digits s in if is_digit c then c ∷ rest else []

-- `# handle ([0-9]+)` at the start of a text: its digits.
abbrev some_digits : Bytes → Option Bytes
some_digits [] = none
some_digits (c ∷ s) = some (c ∷ s)

abbrev after_mark : Option Bytes → Option Bytes
after_mark none = none
after_mark (some s) = some_digits (leading_digits s)

abbrev or_else : Option Bytes → Option Bytes → Option Bytes
or_else (some s) _ = some s
or_else none o = o

-- `nftablesHandlePattern.FindStringSubmatch`, the first match
unfoldable pub find_handle : Bytes → Option Bytes
unfolding leading_digits strip
find_handle [] = none
find_handle (c ∷ s) =
    let rest = find_handle s in or_else (after_mark (strip (text "# handle ") (c ∷ s))) rest

abbrev natural : Option ℤ → Option ℕ
natural (some (pos n)) = some n
natural _ = none

abbrev number : Option Bytes → Option ℕ
number none = none
number (some s) = natural (atoi s)

-- `ParseNftablesHandle`
unfoldable pub parse_nftables_handle : Bytes → Option ℕ
unfolding find_handle atoi
parse_nftables_handle output = number (find_handle output)

-- `strings.Contains`
unfoldable pub contains : Bytes → Bytes → Bool
unfolding strip
contains [] spec = is_some (strip spec [])
contains (c ∷ s) spec =
    let rest = contains s spec in if is_some (strip spec (c ∷ s)) then true else rest

abbrev or_later : Option ℕ → Option ℕ → Option ℕ
or_later (some h) _ = some h
or_later none o = o

-- The loop of `LookupRuleHandle` over the lines.
unfoldable pub lookup_lines : Bytes → List Bytes → Option ℕ
unfolding contains parse_nftables_handle
lookup_lines spec [] = none
lookup_lines spec (line ∷ lines) =
    let rest = lookup_lines spec lines in
    if not (contains line spec) then rest else or_later (parse_nftables_handle line) rest

-- `LookupRuleHandle`
unfoldable pub lookup_rule_handle : Bytes → Bytes → Option ℕ
unfolding lookup_lines bytes_eq
lookup_rule_handle output spec =
    if bytes_eq spec [] then none else lookup_lines spec (split_at 10 output)
