-- ===== src/Forward/Tests.antt =====
-- Tables of listeners that the theorems on port conflicts are tried on.
use qnatter.Common.{
  ◌≡◌, refl, arith, true, false, some, [], ◌∷◌, ◌++◌, Bytes, bytes_eq, text, split_at, fields,
}
use qnatter.Net.{v4, addr_eq}
use qnatter.Forward.PortConflict.{
  parse_proc_net_endpoint, has_proc_net_listener, any_conflict, is_conflict, cut_colon, parse_hex,
  little_endian, addr_conflicts,
}
use qnatter.Forward.PortConflict.Table.{proc_net_endpoint, parse-proc_net_endpoint}

abbrev table : Bytes
table =
    text "sl local_address rem_address st"
    ++ (10 ∷ (text " 0: 0100007F:1F90 00000000:0000 0A 0:0" ++ (10 ∷ [])))

check_listener : has_proc_net_listener table (v4 (127 ∷ 0 ∷ 0 ∷ 1 ∷ [])) 8080 false ≡ true
unfolding has_proc_net_listener any_conflict is_conflict split_at fields parse_proc_net_endpoint
    cut_colon parse_hex little_endian addr_conflicts addr_eq bytes_eq
check_listener = refl

check_other_port : has_proc_net_listener table (v4 (127 ∷ 0 ∷ 0 ∷ 1 ∷ [])) 8081 false ≡ false
unfolding has_proc_net_listener any_conflict is_conflict split_at fields parse_proc_net_endpoint
    cut_colon parse_hex little_endian addr_conflicts addr_eq bytes_eq
check_other_port = refl

parse-proc_net_endpoint_example :
    parse_proc_net_endpoint (proc_net_endpoint 127 0 0 1 8080)
    ≡ some (v4 (127 ∷ 0 ∷ 0 ∷ 1 ∷ []), 8080)
parse-proc_net_endpoint_example =
    parse-proc_net_endpoint 127 0 0 1 8080 (omega arith) (omega arith) (omega arith) (omega arith)
      (omega arith)
