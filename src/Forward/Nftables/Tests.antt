-- ===== src/Forward/Nftables/Tests.antt =====
-- A system that the theorems on nftables are tried on.
use qnatter.Common.{
  ◌≡◌, refl, true, false, Option, none, some, [], ◌∷◌, ◌++◌, Bytes, bytes_eq, text, pos, split_at,
  trim_space,
}
use qnatter.Config.Numbers.{atoi, read_digits}
use qnatter.Config.Servers.{strip}
use qnatter.Errors.{other}
use qnatter.Forward.Options.{StartOptions, same_address}
use qnatter.Forward.Nftables.{
  parse_nftables_handle, lookup_rule_handle, lookup_lines, find_handle, leading_digits, contains,
  digits, decimal, nftables_dnat_spec, nftables_snat_spec,
}
use qnatter.Forward.Nftables.Executor.{
  Command, insert_rule_command, qnatter_dnat, list_chain, System, World, stop, stop_slot,
  insert_rule, delete_rule_by_spec, run,
}
use qnatter.Forward.Nftables.Start.{start, start_snat, start_marks, insert_slot, check_ip_forward}
use qnatter.Forward.Nftables.Executor.Accounts.{no_handles}
use qnatter.Forward.Nftables.Start.Accounts.{new_world, AreMatched, start_fails, start-stop}

abbrev options : StartOptions
options = record {
  ip = text "10.0.0.2";
  snat_ip = [];
  port = pos 4000;
  target_ip = text "10.0.0.3";
  target_port = pos 80;
  udp = false;
  interface = [];
  route_mark = [];
  route_table = [];
  route_priority = [];
}

-- The rule of the first chain is echoed with its handle, the one of the second chain is not, and is
-- found in the list of its chain.
printed : Command → Option Bytes
unfolding nftables_snat_spec decimal digits bytes_eq
printed (insert_rule_command qnatter_dnat spec) = some (text "insert rule # handle 5")
printed (insert_rule_command _ spec) = some []
printed (list_chain _) = some (nftables_snat_spec options ++ text " # handle 7")
printed _ = some []

abbrev system : System
system = record {
  run = λ i c. printed c;
  version_error = none;
  ip_forward = some (text "1");
  route_source_ip = none;
}

parse_example : parse_nftables_handle (text "insert rule # handle 5") ≡ some 5
unfolding parse_nftables_handle find_handle leading_digits strip atoi read_digits
parse_example = refl

lookup_example :
    lookup_rule_handle
      (nftables_snat_spec options ++ text " # handle 7")
      (nftables_snat_spec options)
    ≡ some 7
unfolding lookup_rule_handle lookup_lines contains parse_nftables_handle find_handle leading_digits
    strip atoi read_digits nftables_snat_spec decimal digits bytes_eq split_at
lookup_example = refl

abbrev failed_world : World
failed_world = (start system true options new_world).1

start_fails_example : AreMatched failed_world × (failed_world.handles ≡ no_handles)
start_fails_example = start_fails system true options (other ∷ []) failed_world (
    unfold start start_snat start_marks stop stop_slot insert_slot insert_rule delete_rule_by_spec
      check_ip_forward run printed same_address parse_nftables_handle lookup_rule_handle
      lookup_lines contains find_handle leading_digits strip atoi read_digits nftables_dnat_spec
      nftables_snat_spec decimal digits bytes_eq split_at trim_space in
    refl)

abbrev started_world : World
started_world = (start system false options new_world).1

start-stop_example :
    AreMatched (stop system started_world).1 × ((stop system started_world).1.handles ≡ no_handles)
start-stop_example = start-stop system false options started_world (
    unfold start start_snat start_marks insert_slot insert_rule check_ip_forward run printed
      same_address parse_nftables_handle find_handle leading_digits strip atoi read_digits
      nftables_dnat_spec decimal digits bytes_eq trim_space in
    refl)
