-- ===== src/Forward/Nftables/Executor/Accounts.antt =====
-- The account of the rules: each handle that `nft` gave is remembered or was deleted.
use qnatter.Common.{
  ℕ, ◌+◌, ◌<◌, ◌≡◌, refl, sym, ap, arith, Bool, true, false, ◌&&◌, Option, none, some, List, [],
  ◌∷◌, ltb, ◌==◌, if◌then◌else◌, length, Bytes, Bool-cases, inl, inr,
}
use qnatter.Errors.{Error}
use qnatter.Forward.Nftables.{parse_nftables_handle}
use qnatter.Forward.Nftables.Executor.{
  Chain, qnatter_dnat, qnatter_snat, qnatter_mark, Command, list_table, initial_rules,
  route_mark_initial_rules, insert_rule_command, list_chain, delete_rule, delete_listed_rule,
  ip_command, Handles, Call, World, System, run, inserted_handle, delete_rule_by_spec,
  delete_listed, listed_handle, insert_rule, after_insert, rolled_back, Slot, dnat_slot, snat_slot,
  conn_mark_slot, route_mark_slot, chain_of, get, set, remember, stop_slot, stop,
}

abbrev chain_eq : Chain → Chain → Bool
chain_eq qnatter_dnat qnatter_dnat = true
chain_eq qnatter_snat qnatter_snat = true
chain_eq qnatter_mark qnatter_mark = true
chain_eq _ _ = false

-- One if both are the same rule.
abbrev rule_eq : Chain → ℕ → Chain → ℕ → ℕ
rule_eq c h d k = if chain_eq c d && h == k then 1 else 0

abbrev of_handle : Chain → ℕ → Chain → Option ℕ → ℕ
of_handle c h d none = 0
of_handle c h d (some k) = rule_eq c h d k

-- How often a call inserts a rule with that handle, and how often it deletes it.
abbrev inserts : Chain → ℕ → Call → ℕ
inserts c h (insert_rule_command d spec, r) = of_handle c h d (inserted_handle r)
inserts c h (_, r) = 0

abbrev deletes : Chain → ℕ → Call → ℕ
deletes c h (delete_rule d k, r) = rule_eq c h d k
deletes c h (_, r) = 0

unfoldable pub inserted : Chain → ℕ → List Call → ℕ
inserted c h [] = 0
inserted c h (call ∷ calls) = inserts c h call + inserted c h calls

unfoldable pub deleted : Chain → ℕ → List Call → ℕ
deleted c h [] = 0
deleted c h (call ∷ calls) = deletes c h call + deleted c h calls

unfoldable pub remembered : Chain → ℕ → Handles → ℕ
remembered c h hs =
    rule_eq c h qnatter_dnat hs.dnat
    + (rule_eq c h qnatter_snat hs.snat
        + (rule_eq c h qnatter_mark hs.conn_mark + rule_eq c h qnatter_mark hs.route_mark))

-- Zero is no handle.
abbrev pub IsBalanced : World → Type 0
IsBalanced w =
    (c : Chain) (h : ℕ)
    → 0 < h
    → inserted c h w.calls ≡ deleted c h w.calls + remembered c h w.handles

abbrev pub no_handles : Handles
no_handles = record { dnat = 0; snat = 0; conn_mark = 0; route_mark = 0 }

-- Commands that insert no rule, and delete none by its handle.
abbrev pub leaves_rules : Command → Bool
leaves_rules (insert_rule_command d spec) = false
leaves_rules (delete_rule d k) = false
leaves_rules _ = true

plain_inserts :
    (c : Chain) (h : ℕ) (m : Command) (r : Option Bytes)
    → leaves_rules m ≡ true
    → (inserts c h (m, r) ≡ 0) × (deletes c h (m, r) ≡ 0)
plain_inserts c h list_table r e = (refl, refl)
plain_inserts c h initial_rules r e = (refl, refl)
plain_inserts c h route_mark_initial_rules r e = (refl, refl)
plain_inserts c h (insert_rule_command d spec) r e = cc
plain_inserts c h (list_chain d) r e = (refl, refl)
plain_inserts c h (delete_rule d k) r e = cc
plain_inserts c h (delete_listed_rule d k) r e = (refl, refl)
plain_inserts c h (ip_command args) r e = (refl, refl)

-- A balanced world whose handles are some given ones.
pub record IsAt (hs : Handles) (w : World) : Type 0 where
  pub balanced : IsBalanced w
  pub handles : w.handles ≡ hs

-- The same with one rule more that is to be remembered.
abbrev pub IsOwed : Handles → Chain → ℕ → World → Type 0
IsOwed hs chain k w =
    ((c : Chain) (h : ℕ)
      → 0 < h
      → inserted c h w.calls ≡ deleted c h w.calls + remembered c h w.handles + rule_eq c h chain k)
    × (w.handles ≡ hs)

module _ (sys : System) where
  pub run-IsAt :
      (hs : Handles) (m : Command) (w : World)
      → leaves_rules m ≡ true
      → IsAt hs w
      → IsAt hs (run sys m w).1
  unfolding run inserted deleted
  run-IsAt hs m w e b = record {
    balanced = λ c h p.
        let plain = plain_inserts c h m (sys.run (length w.calls) m) e in
        omega (arith, plain.0, plain.1, b.balanced c h p);
    handles = b.handles;
  }

  delete_rule_by_spec-IsAt :
      (hs : Handles) (chain : Chain) (spec : Bytes) (w : World)
      → IsAt hs w
      → IsAt hs (delete_rule_by_spec sys chain spec w).1
  unfolding delete_rule_by_spec
  delete_rule_by_spec-IsAt hs chain spec w b =
      by_handle (listed_handle spec (run sys (list_chain chain) w).0) _
        (run-IsAt hs (list_chain chain) w refl b)
    where
      by_handle : (o : Option ℕ) (v : World) → IsAt hs v → IsAt hs (delete_listed sys chain o v).1
      by_handle none v d = d
      by_handle (some h) v d = run-IsAt hs (delete_listed_rule chain h) v refl d

  -- What an insertion leaves: a balanced world if it fails, a rule to remember if it does not.
  abbrev pub IsInserted : Handles → Chain → Option ℕ × World → Type 0
  IsInserted hs chain (none, w) = IsAt hs w
  IsInserted hs chain (some k, w) = IsOwed hs chain k w

  rolled_back-IsInserted :
      (hs : Handles) (chain : Chain) (spec output : Bytes) (w : World) (o : Option ℕ)
      → IsAt hs w
      → parse_nftables_handle output ≡ o
      → IsInserted hs chain (
          rolled_back sys chain spec o
            (record w { calls = (insert_rule_command chain spec, some output) ∷ w.calls }))
  unfolding inserted deleted
  rolled_back-IsInserted hs chain spec output w (some k) b e =
      (λ c h p. rw e (omega (arith, b.balanced c h p)), b.handles)
  rolled_back-IsInserted hs chain spec output w none b e =
      delete_rule_by_spec-IsAt hs chain spec _
        (record { balanced = λ c h p. rw e (omega (arith, b.balanced c h p)); handles = b.handles })

  pub insert_rule-IsInserted :
      (hs : Handles) (chain : Chain) (spec : Bytes) (w : World)
      → IsAt hs w
      → IsInserted hs chain (insert_rule sys chain spec w)
  unfolding insert_rule run
  insert_rule-IsInserted hs chain spec w b =
      by_output (sys.run (length w.calls) (insert_rule_command chain spec))
    where
      by_output :
          (r : Option Bytes)
          → IsInserted hs chain (
              after_insert sys chain spec r
                (record w { calls = (insert_rule_command chain spec, r) ∷ w.calls }))
      by_output none =
          unfold inserted deleted in
          record { balanced = λ c h p. omega (arith, b.balanced c h p); handles = b.handles }
      by_output (some output) =
          rolled_back-IsInserted hs chain spec output w (parse_nftables_handle output) b refl

-- A field that is zero takes a handle, and a field whose rule is deleted becomes zero.
remembered-set :
    (slot : Slot) (k : ℕ) (hs : Handles) (c : Chain) (h : ℕ)
    → 0 < h
    → remembered c h (set slot k hs) + rule_eq c h (chain_of slot) (get slot hs)
      ≡ remembered c h hs + rule_eq c h (chain_of slot) k
unfolding remembered
remembered-set dnat_slot k hs c h p = omega arith
remembered-set snat_slot k hs c h p = omega arith
remembered-set conn_mark_slot k hs c h p = omega arith
remembered-set route_mark_slot k hs c h p = omega arith

rule_eq_zero : (c d : Chain) (h : ℕ) → 0 < h → rule_eq c h d 0 ≡ 0
rule_eq_zero c d h p = ground arith

pub remember-IsAt :
    (slot : Slot) (k : ℕ) (hs : Handles) (w : World)
    → get slot hs ≡ 0
    → IsOwed hs (chain_of slot) k w
    → IsAt (set slot k hs) (remember slot k w).1
remember-IsAt slot k hs w z (b, e) = record {
  balanced = λ c h p. rw e (
      let change = remembered-set slot k hs c h p in
      let zero_before : rule_eq c h (chain_of slot) (get slot hs) ≡ 0 =
        rw z (rule_eq_zero c (chain_of slot) h p) in
      omega (arith, rw e at (b c h p), change, zero_before));
  handles = ap (set slot k) e;
}

set_zero : (slot : Slot) (hs : Handles) → get slot hs ≡ 0 → set slot 0 hs ≡ hs
set_zero dnat_slot hs z = ap (λ n. record hs { dnat = n }) (sym z)
set_zero snat_slot hs z = ap (λ n. record hs { snat = n }) (sym z)
set_zero conn_mark_slot hs z = ap (λ n. record hs { conn_mark = n }) (sym z)
set_zero route_mark_slot hs z = ap (λ n. record hs { route_mark = n }) (sym z)

pub remembered-no_handles : (c : Chain) (h : ℕ) → 0 < h → remembered c h no_handles ≡ 0
unfolding remembered
remembered-no_handles c h p = ground arith

module _ (sys : System) where
  stop_slot-IsAt :
      (slot : Slot) (first : Option Error) (hs : Handles) (w : World)
      → IsAt hs w
      → IsAt (set slot 0 hs) (stop_slot sys slot first w).1
  unfolding stop_slot run inserted deleted
  stop_slot-IsAt slot first hs w b = elim (Bool-cases (ltb 0 (get slot w.handles))) [
    | inl used ↦ rw used (record {
      balanced = λ c h p.
          let change = remembered-set slot 0 w.handles c h p in
          let nothing = rule_eq_zero c (chain_of slot) h p in
          omega (arith, b.balanced c h p, change, nothing);
      handles = ap (set slot 0) b.handles;
    })
    | inr unused ↦ rw unused (rw (set_zero slot hs (rw (← b.handles) (ground arith))) b)
  ]

  pub stop-IsAt : (hs : Handles) (w : World) → IsAt hs w → IsAt no_handles (stop sys w).1
  unfolding stop
  stop-IsAt hs w b =
      let one = stop_slot sys dnat_slot none w in
      let two = stop_slot sys snat_slot one.0 one.1 in
      let three = stop_slot sys conn_mark_slot two.0 two.1 in
      let first = stop_slot-IsAt dnat_slot none hs w b in
      let second = stop_slot-IsAt snat_slot one.0 (set dnat_slot 0 hs) one.1 first in
      let third =
        stop_slot-IsAt conn_mark_slot two.0 (set snat_slot 0 (set dnat_slot 0 hs)) two.1 second in
      stop_slot-IsAt route_mark_slot three.0
        (set conn_mark_slot 0 (set snat_slot 0 (set dnat_slot 0 hs))) three.1 third
