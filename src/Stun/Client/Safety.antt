-- ===== src/Stun/Client/Safety.antt =====
-- `GetMapping` never panics.
use qnatter.Common.{
  ℕ, zero, suc, ◌≡◌, ◌≢◌, refl, Bool, false, none, some, List, [], ◌∷◌, Outcome, Returns, value,
  error, ◌==◌, length, Bool-cases, inl, inr, Bytes,
}
use qnatter.Errors.{Error}
use qnatter.Net.{AddrPort}
use qnatter.Stun.Mapping.{Server, Mapping}
use qnatter.Stun.Client.{
  Network, Client, rotate_server, Failures, no_failures, give_up, Attempt, no_txid, no_exchange,
  no_parse, mapped, broken, attempt, rotated, after_attempt, with_first, attempts, get_mapping,
  prepared, Reply, refused, replied, parsed, classify, asked,
}
use qnatter.Stun.Message.{ParseError, parse_mapped_address, build_binding_request}
use qnatter.Stun.Message.Safety.{parse_mapped_address-Returns}

-- Neither call of the client panics.
abbrev IsWhole : Attempt → Type 0
IsWhole (broken o) = ⊥
IsWhole _ = Unit {0}

parsed-IsWhole : (txid : Bytes) (server : Server) (r : Reply) → IsWhole (parsed txid server r)
parsed-IsWhole txid server (refused e) = tt
parsed-IsWhole txid server (replied inner response) =
    whole (parse_mapped_address response txid) (parse_mapped_address-Returns response txid)
  where
    whole : (o : Outcome ParseError AddrPort) → Returns o → IsWhole (classify inner server o)
    whole _ (value a) = tt
    whole _ (error e) = tt

attempt-IsWhole :
    (n : Network) (i : ℕ) (udp : Bool) (source : AddrPort) (server : Server)
    → IsWhole (attempt n i udp source server)
unfolding attempt
attempt-IsWhole n i udp source server =
    elim (n.transaction_id i) as (λ t. IsWhole (asked n i udp source server t)) [
      | none ↦ tt
      | some txid ↦
          parsed-IsWhole txid server (n.exchange i udp server source (build_binding_request txid))
    ]

give_up-Returns : (c : Client) (f : Failures) → Returns (give_up c f).1
unfolding give_up
give_up-Returns c f = elim (Bool-cases (f.total == 0)) [
  | inl none_failed ↦ rw none_failed (error _)
  | inr some_failed ↦ elim (Bool-cases f.address_unavailable) [
    | inl a ↦ rw (some_failed, a) (error _)
    | inr na ↦ elim (Bool-cases f.device_unavailable) [
      | inl d ↦ rw (some_failed, na, d) (error _)
      | inr nd ↦ rw (some_failed, na, nd) (error _)
    ]
  ]
]

after_attempt-Returns :
    (a : Attempt) (c : Client) (f : Failures)
    (next : Client → Failures → Client × Outcome Error Mapping)
    → IsWhole a
    → ((f' : Failures) → Returns (next (rotated c) f').1)
    → Returns (after_attempt a c f next).1
after_attempt-Returns no_txid c f next w k = error _
after_attempt-Returns (no_exchange e) c f next w k = k _
after_attempt-Returns (no_parse e) c f next w k = k _
after_attempt-Returns (mapped m) c f next w k = value m
after_attempt-Returns (broken o) c f next w k = elim w [ ]

with_first-Returns :
    (xs : List Server) (c : Client) (k : Server → Client × Outcome Error Mapping)
    → xs ≢ []
    → ((server : Server) (rest : List Server) → xs ≡ server ∷ rest → Returns (k server).1)
    → Returns (with_first xs c k).1
with_first-Returns [] c k h f = absurd (h refl)
with_first-Returns (server ∷ rest) c k h f = f server rest refl

rotate_server-ne-nil : (xs : List Server) → xs ≢ [] → rotate_server xs ≢ []
unfolding rotate_server
rotate_server-ne-nil [] h = h
rotate_server-ne-nil (x ∷ []) h = λ q. cc
rotate_server-ne-nil (x ∷ y ∷ xs) h = λ q. cc

attempts-Returns :
    (n : Network) (left i : ℕ) (c : Client) (f : Failures)
    → c.servers ≢ []
    → Returns (attempts n left i c f).1
unfolding attempts
attempts-Returns n zero i c f h = give_up-Returns c f
attempts-Returns n (suc left) i c f h = with_first-Returns c.servers c _ h λ server rest e.
    after_attempt-Returns (attempt n i c.udp c.source server) c f (attempts n left (suc i))
      (attempt-IsWhole n i c.udp c.source server)
      λ f'. attempts-Returns n left (suc i) (rotated c) f' (rotate_server-ne-nil c.servers h)

-- Whatever the network gives, `GetMapping` comes back with a mapping or an error: its index of the
-- server list and the parsing of the responses never panic.
pub get_mapping-Returns : (n : Network) (c : Client) → Returns (get_mapping n c).1
unfolding get_mapping
get_mapping-Returns n c = elim (Bool-cases (length c.servers == 0)) [
  | inl empty ↦ rw empty (error _)
  | inr some_server ↦ rw some_server (
      attempts-Returns n (length c.servers) 0 (prepared c) no_failures
        (nonempty c.servers some_server))
]
  where
    nonempty : (xs : List Server) → (length xs == 0) ≡ false → xs ≢ []
    nonempty [] h q = cc
    nonempty (x ∷ xs) h q = cc
