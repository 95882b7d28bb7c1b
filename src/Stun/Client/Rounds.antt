-- ===== src/Stun/Client/Rounds.antt =====
-- One call of `GetMapping` as a walk along the server list: the rotation of the list is the order in
-- which the servers are asked.
pub mod Reasons
use qnatter.Common.{
  ℕ, suc, ◌+◌, ◌≤◌, ◌≡◌, ◌≢◌, refl, sym, ap, ◌∙◌, ap₂, arith, Bool, true, false, not, ◌||◌, List,
  [], ◌∷◌, ◌++◌, append-nil, append_assoc, Outcome, ok, err, ◌==◌, if◌then◌else◌, length,
  length-append,
}
use native.Mathlib.Nat.{zero-add, add-zero, suc-add, add-suc}
use qnatter.Errors.{Cause, errors_is, Error, no_server_available, addr_not_avail, no_dev}
use qnatter.Net.{AddrPort, is_valid}
use qnatter.Stun.Mapping.{Server, Mapping}
use qnatter.Stun.Client.{
  Network, Client, rotate_server, Failures, no_failures, exchange_failed, parse_failed, give_up,
  Attempt, no_txid, no_exchange, no_parse, mapped, broken, attempt, after_attempt, attempts,
  get_mapping, prepared,
}

rotate_server-cons :
    (first : Server) (rest : List Server) → rotate_server (first ∷ rest) ≡ rest ++ (first ∷ [])
unfolding rotate_server
rotate_server-cons first [] = refl
rotate_server-cons first (second ∷ rest) = refl

-- An attempt that moves on to the next server.
abbrev pub moves_on : Attempt → Bool
moves_on (no_exchange e) = true
moves_on (no_parse e) = true
moves_on _ = false

-- How a failed attempt is counted.
abbrev pub tally : Failures → Attempt → Failures
tally f (no_exchange e) = exchange_failed f e
tally f (no_parse e) = parse_failed f
tally f _ = f

-- The client with another server list.
abbrev pub at : Client → List Server → Client
at c servers = record c { servers = servers }

module _ (n : Network) (c : Client) where
  -- The servers fail one after the other, from attempt `i` on.
  abbrev pub AllFail : ℕ → List Server → Type 0
  AllFail i [] = Unit {0}
  AllFail i (server ∷ rest) =
      (moves_on (attempt n i c.udp c.source server) ≡ true) × AllFail (suc i) rest

  abbrev pub tally_all : ℕ → Failures → List Server → Failures
  tally_all i f [] = f
  tally_all i f (server ∷ rest) =
      tally_all (suc i) (tally f (attempt n i c.udp c.source server)) rest

  one_failed :
      (a : Attempt) (server : Server) (others : List Server) (f : Failures)
      (next : Client → Failures → Client × Outcome Error Mapping)
      → moves_on a ≡ true
      → after_attempt a (at c (server ∷ others)) f next
        ≡ next (at c (others ++ (server ∷ []))) (tally f a)
  one_failed (no_exchange e) server others f next h = rw (rotate_server-cons server others)
  one_failed (no_parse e) server others f next h = rw (rotate_server-cons server others)
  one_failed no_txid server others f next h = cc
  one_failed (mapped m) server others f next h = cc
  one_failed (broken o) server others f next h = cc

  -- Servers that fail are moved to the back, in their order.
  attempts_failed :
      (before rest tried : List Server) (left i : ℕ) (f : Failures)
      → AllFail i before
      → attempts n (length before + left) i (at c ((before ++ rest) ++ tried)) f
        ≡ attempts n left
            (i + length before)
            (at c (rest ++ (tried ++ before)))
            (tally_all i f before)
  unfolding attempts
  attempts_failed [] rest tried left i f h = rw (zero-add left, add-zero i, append-nil tried)
  attempts_failed (server ∷ before) rest tried left i f h =
      let a = attempt n i c.udp c.source server in
      rw (
        suc-add (length before) left,
        one_failed a server ((before ++ rest) ++ tried) f
            (attempts n (length before + left) (suc i)) h.0,
        append_assoc (before ++ rest) tried (server ∷ []),
        attempts_failed before rest (tried ++ (server ∷ [])) left (suc i) (tally f a) h.1,
        append_assoc tried (server ∷ []) before,
        suc-add i (length before),
        add-suc i (length before),
      )

attempt-server :
    (n : Network) (i : ℕ) (udp : Bool) (source : AddrPort) (server : Server) (m : Mapping)
    → attempt n i udp source server ≡ mapped m
    → m.server ≡ server
unfolding attempt
attempt-server n i udp source server m h = ground arith

-- At least one failure is counted for each server.
module _ (n : Network) (c : Client) where
  -- Behind the servers that fail the loop goes on with the others.
  behind :
      (before rest : List Server)
      → c.servers ≡ before ++ rest
      → before ++ rest ≢ []
      → AllFail n c 0 before
      → get_mapping n c
        ≡ attempts n
            (length rest)
            (length before)
            (at (prepared c) (rest ++ before))
            (tally_all n c 0 no_failures before)
  unfolding get_mapping
  behind before rest e some_server h =
      let listed = e ∙ sym (append-nil (before ++ rest)) in
      let counted = ap length e ∙ length-append before rest in
      rw (nonzero (before ++ rest) c.servers e some_server) (
        ap₂ (λ k servers. attempts n k 0 (at (prepared c) servers) no_failures) counted listed
        ∙ attempts_failed n (prepared c) before rest [] (length rest) 0 no_failures h
        ∙ rw (zero-add (length before)))
    where
      nonzero : (xs ys : List Server) → ys ≡ xs → xs ≢ [] → (length ys == 0) ≡ false
      nonzero xs [] q h' = absurd (h' (sym q))
      nonzero xs (y ∷ ys) q h' = ground arith

  -- The servers are asked in the order of the list. The first one that answers with a mapped
  -- address gives the mapping; it stays in front of the list, those that failed before it go to the
  -- back in their order, and the local address that it was asked from is the next source.
  pub get_mapping_first :
      (before after : List Server) (server : Server) (m : Mapping)
      → c.servers ≡ before ++ (server ∷ after)
      → AllFail n c 0 before
      → attempt n (length before) c.udp c.source server ≡ mapped m
      → (get_mapping n c
          ≡ (record (prepared c) { servers = server ∷ (after ++ before); source = m.inner }, ok m))
        × (m.server ≡ server)
  unfolding attempts
  get_mapping_first before after server m e h g = (
    behind before (server ∷ after) e (λ q. concat_ne before q) h ∙ rw g,
    attempt-server n (length before) c.udp c.source server m g,
  )
    where
      concat_ne : (xs : List Server) → xs ++ (server ∷ after) ≢ []
      concat_ne [] q = cc
      concat_ne (x ∷ xs) q = cc
