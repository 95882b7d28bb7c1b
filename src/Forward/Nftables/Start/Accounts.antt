-- ===== src/Forward/Nftables/Start/Accounts.antt =====
-- `Start` and `Stop` leave no rule behind whose handle `nft` gave.
use qnatter.Common.{
  ℕ, ◌<◌, ◌≡◌, refl, ◌∙◌, arith, Bool, true, false, Option, none, some, [], if◌then◌else◌, Bytes,
  bytes_eq, Bool-cases, inl, inr, is_some,
}
use qnatter.Errors.{Error}
use qnatter.Forward.Options.{StartOptions, same_address}
use qnatter.Forward.Nftables.{
  nftables_dnat_spec, nftables_snat_spec, nftables_conn_mark_spec, nftables_route_mark_spec,
}
use qnatter.Forward.Nftables.Executor.{
  Chain, qnatter_mark, list_table, initial_rules, route_mark_initial_rules, list_chain, Handles,
  World, System, Exec, return, run, insert_rule, Slot, dnat_slot, snat_slot, conn_mark_slot,
  route_mark_slot, chain_of, get, set, remember, stop, give_up, failed, ensure_route_policy, ◌>>=◌,
  replaced_rule, RoutePolicy, route_policy_from_options, ensure_route_mark_chain, made_chain,
}
use qnatter.Forward.Nftables.Start.{
  insert_slot, kept, unless_error, insert_marks, chain_and_marks, made_table, start_rules,
  start_marks, start_snat, snat_options, start, with_table, check_ip_forward,
}
use qnatter.Forward.Nftables.Executor.Accounts.{
  inserted, deleted, remembered, IsBalanced, IsAt, no_handles, run-IsAt, IsInserted,
  insert_rule-IsInserted, remember-IsAt, stop-IsAt, remembered-no_handles,
}

-- What `Start` leaves: a balanced account, and no handle if it fails.
abbrev IsDone : Option Error × World → Type 0
IsDone (none, w) = IsBalanced w
IsDone (some e, w) = IsAt no_handles w

module _ (sys : System) where
  give_up-IsDone : (hs : Handles) (w : World) → IsAt hs w → IsDone (give_up sys w)
  give_up-IsDone hs w b = stop-IsAt sys hs w b

  insert_slot-IsDone :
      (slot : Slot) (spec : Bytes) (or_fail next : Exec (Option Error)) (hs : Handles)
      → get slot hs ≡ 0
      → ((w : World) → IsAt hs w → IsDone (or_fail w))
      → ((k : ℕ) (w : World) → IsAt (set slot k hs) w → IsDone (next w))
      → (w : World) → IsAt hs w
      → IsDone (insert_slot sys slot spec or_fail next w)
  unfolding insert_slot
  insert_slot-IsDone slot spec or_fail next hs z f g w b =
      by_handle (insert_rule sys (chain_of slot) spec w).0 _
        (insert_rule-IsInserted sys hs (chain_of slot) spec w b)
    where
      by_handle :
          (o : Option ℕ) (v : World)
          → IsInserted sys hs (chain_of slot) (o, v)
          → IsDone (kept slot or_fail next o v)
      by_handle none v d = f v d
      by_handle (some k) v d = g k (remember slot k v).1 (remember-IsAt slot k hs v z d)

  checked-IsDone :
      (hs : Handles) (m next : Exec (Option Error)) (w : World)
      → IsAt hs (m w).1
      → ((v : World) → IsAt hs v → IsDone (next v))
      → IsDone ((m >>= unless_error sys next) w)
  checked-IsDone hs m next w b g = by_error (m w).0 (m w).1 b
    where
      by_error : (e : Option Error) (v : World) → IsAt hs v → IsDone (unless_error sys next e v)
      by_error (some e) v c = give_up-IsDone hs v c
      by_error none v c = g v c

  ensure_route_policy-IsAt :
      (hs : Handles) (interface : Bytes) (p : RoutePolicy) (w : World)
      → IsAt hs w
      → IsAt hs (ensure_route_policy sys interface p w).1
  unfolding ensure_route_policy
  ensure_route_policy-IsAt hs interface p w b = by_output _ _ (run-IsAt sys hs _ w refl b)
    where
      by_output : (r : Option Bytes) (v : World) → IsAt hs v → IsAt hs (replaced_rule sys p r v).1
      by_output none v d = d
      by_output (some _) v d = run-IsAt sys hs _ _ refl (run-IsAt sys hs _ v refl d)

  ensure_route_mark_chain-IsAt :
      (hs : Handles) (w : World) → IsAt hs w → IsAt hs (ensure_route_mark_chain sys w).1
  unfolding ensure_route_mark_chain
  ensure_route_mark_chain-IsAt hs w b =
      by_output _ _ (run-IsAt sys hs (list_chain qnatter_mark) w refl b)
    where
      by_output : (r : Option Bytes) (v : World) → IsAt hs v → IsAt hs (made_chain sys r v).1
      by_output none v d = run-IsAt sys hs route_mark_initial_rules v refl d
      by_output (some _) v d = d

  insert_marks-IsDone :
      (o : StartOptions) (p : RoutePolicy) (hs : Handles)
      → hs.conn_mark ≡ 0
      → hs.route_mark ≡ 0
      → (w : World) → IsAt hs w
      → IsDone (insert_marks sys o p w)
  insert_marks-IsDone o p hs y z =
      insert_slot-IsDone conn_mark_slot (nftables_conn_mark_spec o p.mark) (give_up sys) _ hs y
        (give_up-IsDone hs)
        (λ k.
          insert_slot-IsDone route_mark_slot (nftables_route_mark_spec o p.mark) (give_up sys)
            (return none) (set conn_mark_slot k hs) z (give_up-IsDone (set conn_mark_slot k hs))
            (λ k' t e. e.balanced))

  start_marks-IsDone :
      (o : StartOptions) (hs : Handles) (w : World)
      → hs.conn_mark ≡ 0
      → hs.route_mark ≡ 0
      → IsAt hs w
      → IsDone (start_marks sys o w)
  unfolding start_marks
  start_marks-IsDone o hs w y z b = elim (Bool-cases (bytes_eq o.interface [])) [
    | inl no_interface ↦ rw no_interface (b.balanced)
    | inr interface ↦ rw interface (
        let p = route_policy_from_options o in
        checked-IsDone hs (ensure_route_policy sys o.interface p) (chain_and_marks sys o p) w
          (ensure_route_policy-IsAt hs o.interface p w b)
          λ v c.
            checked-IsDone hs (ensure_route_mark_chain sys) (insert_marks sys o p) v
              (ensure_route_mark_chain-IsAt hs v c) (insert_marks-IsDone o p hs y z))
  ]

  start_snat-IsDone :
      (snat : Bool) (o : StartOptions) (hs : Handles) (w : World)
      → hs.snat ≡ 0
      → hs.conn_mark ≡ 0
      → hs.route_mark ≡ 0
      → IsAt hs w
      → IsDone (start_snat sys snat o w)
  unfolding start_snat
  start_snat-IsDone true o hs w x y z b =
      insert_slot-IsDone snat_slot (nftables_snat_spec (snat_options sys o)) (give_up sys)
        (start_marks sys o) hs x (give_up-IsDone hs)
        (λ k v c. start_marks-IsDone o (set snat_slot k hs) v y z c) w b
  start_snat-IsDone false o hs w x y z b = start_marks-IsDone o hs w y z b

  with_table-IsDone :
      (hs : Handles) (next : Exec (Option Error)) (r : Option Bytes) (w : World)
      → hs ≡ no_handles
      → IsAt hs w
      → ((v : World) → IsAt hs v → IsDone (next v))
      → IsDone (with_table sys next r w)
  with_table-IsDone hs next (some _) w e b g = g w b
  with_table-IsDone hs next none w e b g = by_output _ _ (run-IsAt sys hs initial_rules w refl b)
    where
      by_output : (r : Option Bytes) (v : World) → IsAt hs v → IsDone (made_table next r v)
      by_output (some _) v c = g v c
      by_output none v c = rw (← e) c

  start_rules-IsDone :
      (snat : Bool) (o : StartOptions) (w : World)
      → IsAt no_handles w
      → IsDone (start_rules sys snat o w)
  start_rules-IsDone snat o w b =
      with_table-IsDone no_handles
        (insert_slot sys dnat_slot (nftables_dnat_spec o) (return failed) (start_snat sys snat o))
        (run sys list_table w).0 (run sys list_table w).1 refl
        (run-IsAt sys no_handles list_table w refl b)
        λ v c.
          insert_slot-IsDone dnat_slot (nftables_dnat_spec o) (return failed)
            (start_snat sys snat o) no_handles refl (λ u d. d)
            (λ k u d. start_snat-IsDone snat o (set dnat_slot k no_handles) u refl refl refl d) v c

  IsDone-if :
      (b : Bool) (x y : Exec (Option Error)) (w : World)
      → IsDone (x w)
      → IsDone (y w)
      → IsDone ((if b then x else y) w)
  IsDone-if true x y w h k = h
  IsDone-if false x y w h k = k

  version-IsDone :
      (e : Option Error) (next : Exec (Option Error)) (w : World)
      → IsAt no_handles w
      → IsDone (next w)
      → IsDone ((if is_some e then return e else next) w)
  version-IsDone (some e) next w b h = b
  version-IsDone none next w b h = h

  start-IsDone :
      (snat : Bool) (o : StartOptions) (w : World) → IsAt no_handles w → IsDone (start sys snat o w)
  unfolding start
  start-IsDone snat o w b = IsDone-if (same_address o) (return failed) _ w b (
      version-IsDone sys.version_error _ w b (
        IsDone-if (check_ip_forward sys o) (return failed) (start_rules sys snat o) w b
          (start_rules-IsDone snat o w b)))

-- A new forwarder.
abbrev pub new_world : World
new_world = record { handles = no_handles; calls = [] }

-- Every insertion with that handle is matched by a deletion by that handle.
abbrev pub AreMatched : World → Type 0
AreMatched w = (c : Chain) (h : ℕ) → 0 < h → inserted c h w.calls ≡ deleted c h w.calls

new_world-IsAt : IsAt no_handles new_world
new_world-IsAt =
    unfold inserted deleted remembered in
    record { balanced = λ c h p. ground arith; handles = refl }

matched : (w : World) → IsAt no_handles w → AreMatched w
matched w b c h p = b.balanced c h p ∙ rw b.handles (ground (arith, remembered-no_handles c h p))

-- A `Start` of a new forwarder that fails has sent a deletion for every rule that it inserted, if
-- `nft` gave a handle above zero for the rule, and it remembers no handle.
pub start_fails :
    (sys : System) (snat : Bool) (o : StartOptions) (e : Error) (w : World)
    → start sys snat o new_world ≡ (some e, w)
    → AreMatched w × (w.handles ≡ no_handles)
start_fails sys snat o e w q =
    let b = rw q at (start-IsDone sys snat o new_world new_world-IsAt) in (matched w b, b.handles)

-- A `Start` of a new forwarder that succeeds, and a `Stop` behind it, whatever fails in that, have
-- sent a deletion for every inserted rule with a handle above zero, and no handle is remembered.
pub start-stop :
    (sys : System) (snat : Bool) (o : StartOptions) (w : World)
    → start sys snat o new_world ≡ (none, w)
    → AreMatched (stop sys w).1 × ((stop sys w).1.handles ≡ no_handles)
start-stop sys snat o w q =
    let b : IsBalanced w = rw q at (start-IsDone sys snat o new_world new_world-IsAt) in
    let c = stop-IsAt sys w.handles w (record { balanced = b; handles = refl }) in
    (matched (stop sys w).1 c, c.handles)
