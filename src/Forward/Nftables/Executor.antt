-- ===== src/Forward/Nftables/Executor.antt =====
-- go-qnatter/internal/forward/nftables_executor.go: the forwarder that puts rules into nftables. What
-- `nft` and `ip` print is a parameter, which may depend on how many commands went before; the
-- texts of commands are left out, but for the specs in them.
pub mod Accounts
use qnatter.Common.{
  ℕ, Bool, true, false, not, ◌&&◌, Option, none, some, List, [], ◌∷◌, ltb, if◌then◌else◌, length,
  Bytes, bytes_eq, text, trim_space, fields, is_some, ◌||◌,
}
use qnatter.Errors.{Error, other}
use qnatter.Net.{Addr}
use qnatter.Forward.Options.{StartOptions, same_address}
use qnatter.Forward.Nftables.{
  parse_nftables_handle, lookup_rule_handle, nftables_dnat_spec, nftables_snat_spec,
  nftables_conn_mark_spec, nftables_route_mark_spec,
}

pub data Chain : Type 0 where
  qnatter_dnat qnatter_snat qnatter_mark : Chain

-- The commands. A rule is deleted with the same text by `Stop`, by its handle, and by
-- `deleteRuleBySpec`, by a handle that was looked up; they have a name each.
pub data Command : Type 0 where
  list_table initial_rules route_mark_initial_rules : Command
  insert_rule_command : Chain → Bytes → Command
  list_chain : Chain → Command
  delete_rule delete_listed_rule : Chain → ℕ → Command
  ip_command : List Bytes → Command

-- The handles that the forwarder remembers, zero for none.
pub record Handles : Type 0 where
  pub dnat : ℕ
  pub snat : ℕ
  pub conn_mark : ℕ
  pub route_mark : ℕ

-- What a command printed, or nothing for an error.
abbrev pub Call : Type 0
Call = Command × Option Bytes

-- The handles, and the calls so far with the last one first.
pub record World : Type 0 where
  pub handles : Handles
  pub calls : List Call

pub record System : Type 0 where
  pub run : ℕ → Command → Option Bytes
  pub version_error : Option Error
  pub ip_forward : Option Bytes
  pub route_source_ip : Option Bytes

-- Code that runs commands.
abbrev pub Exec : Type 0 → Type 0
Exec A = World → A × World

infixr 30 ◌>>=◌
abbrev pub ◌>>=◌ {ℓ} :
    {A : Type 0} {B : Type ℓ} → (World → A × World) → (A → World → B × World) → World → B × World
(m >>= k) w = let r = m w in k r.0 r.1

abbrev pub return : {A : Type 0} → A → Exec A
return a w = (a, w)

-- `runner.Run` and `RunIP`
unfoldable pub run : System → Command → Exec (Option Bytes)
run sys c w = let r = sys.run (length w.calls) c in (r, record w { calls = (c, r) ∷ w.calls })

abbrev pub failed : Option Error
failed = some (other ∷ [])

abbrev pub error_of : Option Bytes → Option Error
error_of (some _) = none
error_of none = failed

-- `deleteRuleBySpec`
abbrev delete_listed : System → Chain → Option ℕ → Exec (Option Error)
delete_listed sys chain none = return failed
delete_listed sys chain (some h) =
    run sys (delete_listed_rule chain h) >>= (λ r. return (error_of r))

abbrev pub listed_handle : Bytes → Option Bytes → Option ℕ
listed_handle spec none = none
listed_handle spec (some output) = lookup_rule_handle output spec

unfoldable pub delete_rule_by_spec : System → Chain → Bytes → Exec (Option Error)
unfolding lookup_rule_handle
delete_rule_by_spec sys chain spec =
    run sys (list_chain chain) >>= (λ r. delete_listed sys chain (listed_handle spec r))

-- `insertRule`: the handle, or nothing for an error
abbrev pub inserted_handle : Option Bytes → Option ℕ
inserted_handle none = none
inserted_handle (some output) = parse_nftables_handle output

abbrev rolled_back : System → Chain → Bytes → Option ℕ → Exec (Option ℕ)
rolled_back sys chain spec (some h) = return (some h)
rolled_back sys chain spec none = delete_rule_by_spec sys chain spec >>= (λ _. return none)

abbrev after_insert : System → Chain → Bytes → Option Bytes → Exec (Option ℕ)
after_insert sys chain spec none = return none
after_insert sys chain spec (some output) =
    rolled_back sys chain spec (parse_nftables_handle output)

unfoldable pub insert_rule : System → Chain → Bytes → Exec (Option ℕ)
unfolding delete_rule_by_spec parse_nftables_handle
insert_rule sys chain spec =
    run sys (insert_rule_command chain spec) >>= after_insert sys chain spec

-- `ensureRouteMarkChain`
abbrev pub made_chain : System → Option Bytes → Exec (Option Error)
made_chain sys (some _) = return none
made_chain sys none = run sys route_mark_initial_rules >>= (λ r. return (error_of r))

unfoldable pub ensure_route_mark_chain : System → Exec (Option Error)
ensure_route_mark_chain sys = run sys (list_chain qnatter_mark) >>= made_chain sys

-- `routePolicy`
pub record RoutePolicy : Type 0 where
  pub mark : Bytes
  pub table : Bytes
  pub priority : Bytes

-- `routePolicyFromOptions`, with the policy of slot 0
unfoldable pub route_policy_from_options : StartOptions → RoutePolicy
unfolding bytes_eq
route_policy_from_options o =
    if not (bytes_eq o.route_mark [])
      && not (bytes_eq o.route_table [])
      && not (bytes_eq o.route_priority [])
    then record { mark = o.route_mark; table = o.route_table; priority = o.route_priority }
    else record { mark = text "0x4e000000"; table = text "20000"; priority = text "20000" }

abbrev pub rule_arguments : Bytes → RoutePolicy → List Bytes
rule_arguments verb p =
    text "rule"
    ∷ verb
    ∷ text "priority"
    ∷ p.priority
    ∷ text "fwmark"
    ∷ p.mark
    ∷ text "lookup"
    ∷ p.table
    ∷ []

-- `ensureRoutePolicy`
abbrev pub replaced_rule : System → RoutePolicy → Option Bytes → Exec (Option Error)
replaced_rule sys p none = return failed
replaced_rule sys p (some _) =
    run sys (ip_command (rule_arguments (text "del") p))
    >>= (λ _. run sys (ip_command (rule_arguments (text "add") p)) >>= (λ r. return (error_of r)))

unfoldable pub ensure_route_policy : System → Bytes → RoutePolicy → Exec (Option Error)
ensure_route_policy sys interface p =
    run sys (
      ip_command (
        text "route"
        ∷ text "replace"
        ∷ text "default"
        ∷ text "dev"
        ∷ interface
        ∷ text "table"
        ∷ p.table
        ∷ []))
    >>= replaced_rule sys p

-- The four fields, with the chain of each.
pub data Slot : Type 0 where
  dnat_slot snat_slot conn_mark_slot route_mark_slot : Slot

abbrev pub chain_of : Slot → Chain
chain_of dnat_slot = qnatter_dnat
chain_of snat_slot = qnatter_snat
chain_of conn_mark_slot = qnatter_mark
chain_of route_mark_slot = qnatter_mark

abbrev pub get : Slot → Handles → ℕ
get dnat_slot h = h.dnat
get snat_slot h = h.snat
get conn_mark_slot h = h.conn_mark
get route_mark_slot h = h.route_mark

abbrev pub set : Slot → ℕ → Handles → Handles
set dnat_slot n h = record h { dnat = n }
set snat_slot n h = record h { snat = n }
set conn_mark_slot n h = record h { conn_mark = n }
set route_mark_slot n h = record h { route_mark = n }

abbrev pub remember : Slot → ℕ → Exec (Unit {0})
remember slot n w = (tt, record w { handles = set slot n w.handles })

-- One of the four blocks of `Stop`, whose error is the first one.
abbrev cleared : Slot → Option Error → Option Bytes → Exec (Option Error)
cleared slot first r =
    remember slot 0 >>= (λ _. return (if is_some first then first else error_of r))

unfoldable pub stop_slot : System → Slot → Option Error → Exec (Option Error)
stop_slot sys slot first w =
    let handle = get slot w.handles in
    if ltb 0 handle
    then (run sys (delete_rule (chain_of slot) handle) >>= cleared slot first) w
    else (first, w)

-- `Stop`
unfoldable pub stop : System → Exec (Option Error)
unfolding stop_slot
stop sys = stop_slot sys dnat_slot none >>= (λ e.
    stop_slot sys snat_slot e
    >>= (λ e'. stop_slot sys conn_mark_slot e' >>= stop_slot sys route_mark_slot))

-- `_ = f.Stop(); return err`
abbrev pub give_up : System → Exec (Option Error)
give_up sys = stop sys >>= (λ _. return failed)
