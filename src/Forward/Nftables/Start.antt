-- ===== src/Forward/Nftables/Start.antt =====
-- go-qnatter/internal/forward/nftables_executor.go: `Start`, and the source address of a route.
pub mod Accounts
use qnatter.Common.{
  ℕ, Bool, true, false, not, ◌&&◌, Option, none, some, List, [], ◌∷◌, ltb, if◌then◌else◌, length,
  Bytes, bytes_eq, text, trim_space, fields, is_some, ◌||◌,
}
use qnatter.Errors.{Error, other}
use qnatter.Net.{Addr}
use qnatter.Forward.Options.{StartOptions, same_address}
use qnatter.Forward.Nftables.{
  parse_nftables_handle, lookup_rule_handle, nftables_dnat_spec, nftables_snat_spec,
  nftables_conn_mark_spec, nftables_route_mark_spec,
}
use qnatter.Forward.Nftables.Executor.{
  System, Exec, ◌>>=◌, return, run, failed, insert_rule, ensure_route_policy,
  ensure_route_mark_chain, RoutePolicy, route_policy_from_options, Slot, dnat_slot, snat_slot,
  conn_mark_slot, route_mark_slot, chain_of, get, remember, stop, give_up, list_table,
  initial_rules,
}

-- A rule is inserted, its handle is remembered, and the rest follows; `or_fail` is what follows an
-- error.
abbrev kept : Slot → Exec (Option Error) → Exec (Option Error) → Option ℕ → Exec (Option Error)
kept slot or_fail next none = or_fail
kept slot or_fail next (some h) = remember slot h >>= (λ _. next)

unfoldable pub insert_slot :
    System → Slot → Bytes → Exec (Option Error) → Exec (Option Error) → Exec (Option Error)
unfolding insert_rule
insert_slot sys slot spec or_fail next =
    insert_rule sys (chain_of slot) spec >>= kept slot or_fail next

abbrev pub unless_error : System → Exec (Option Error) → Option Error → Exec (Option Error)
unless_error sys next (some e) = give_up sys
unless_error sys next none = next

-- The two rules of the mark chain, behind the chain.
abbrev pub insert_marks : System → StartOptions → RoutePolicy → Exec (Option Error)
insert_marks sys o policy =
    insert_slot sys conn_mark_slot (nftables_conn_mark_spec o policy.mark) (give_up sys) (
      insert_slot sys route_mark_slot (nftables_route_mark_spec o policy.mark) (give_up sys)
        (return none))

abbrev pub chain_and_marks : System → StartOptions → RoutePolicy → Exec (Option Error)
chain_and_marks sys o policy =
    ensure_route_mark_chain sys >>= unless_error sys (insert_marks sys o policy)

-- The part of `Start` for an interface.
unfoldable pub start_marks : System → StartOptions → Exec (Option Error)
unfolding stop ensure_route_policy ensure_route_mark_chain insert_slot route_policy_from_options
    nftables_conn_mark_spec nftables_route_mark_spec bytes_eq
start_marks sys o =
    if bytes_eq o.interface []
    then return none
    else let policy = route_policy_from_options o in
      ensure_route_policy sys o.interface policy >>= unless_error sys (chain_and_marks sys o policy)

abbrev source_ip : Option Bytes → Bytes
source_ip none = []
source_ip (some ip) = ip

-- `snatOptions`
abbrev snat_options : System → StartOptions → StartOptions
snat_options sys o =
    if bytes_eq o.snat_ip [] then record o { snat_ip = source_ip sys.route_source_ip } else o

-- The part of `Start` behind the first rule.
unfoldable pub start_snat : System → Bool → StartOptions → Exec (Option Error)
unfolding stop insert_slot start_marks nftables_snat_spec bytes_eq
start_snat sys snat o =
    if snat
    then insert_slot sys snat_slot (nftables_snat_spec (snat_options sys o)) (give_up sys)
        (start_marks sys o)
    else start_marks sys o

-- `checkIPForward`, true for an error
abbrev not_one : Option Bytes → Bool
not_one none = false
not_one (some value) = not (bytes_eq (trim_space value) (text "1"))

unfoldable pub check_ip_forward : System → StartOptions → Bool
unfolding bytes_eq trim_space
check_ip_forward sys o = if bytes_eq o.ip o.target_ip then false else not_one sys.ip_forward

-- The table is made if it is not listed.
abbrev made_table : Exec (Option Error) → Option Bytes → Exec (Option Error)
made_table next (some _) = next
made_table next none = return failed

abbrev pub with_table : System → Exec (Option Error) → Option Bytes → Exec (Option Error)
with_table sys next (some _) = next
with_table sys next none = run sys initial_rules >>= made_table next

-- `Start` behind its checks.
abbrev pub start_rules : System → Bool → StartOptions → Exec (Option Error)
start_rules sys snat o =
    run sys list_table
    >>= with_table sys
        (insert_slot sys dnat_slot (nftables_dnat_spec o) (return failed) (start_snat sys snat o))

-- `Start`, of a forwarder with or without `SNAT`
unfoldable pub start : System → Bool → StartOptions → Exec (Option Error)
unfolding insert_slot start_snat check_ip_forward nftables_dnat_spec same_address
start sys snat o =
    if same_address o
    then return failed
    else if is_some sys.version_error
    then return sys.version_error
    else if check_ip_forward sys o
    then return failed
    else start_rules sys snat o

-- `parseRouteSourceIP`, of the fields of what `ip route get` prints
unfoldable pub source_field : (Bytes → Option Addr) → List Bytes → Option Bytes
unfolding bytes_eq
source_field parse_addr [] = none
source_field parse_addr (f ∷ []) = none
source_field parse_addr (f ∷ g ∷ rest) =
    let later = source_field parse_addr (g ∷ rest) in
    if not (bytes_eq f (text "src"))
    then later
    else elim (parse_addr g) [ some _ ↦ some g | none ↦ none ]

unfoldable pub parse_route_source_ip : (Bytes → Option Addr) → Bytes → Option Bytes
unfolding source_field fields
parse_route_source_ip parse_addr output = source_field parse_addr (fields output)
