-- ===== src/Stun/Transport/Mapping.antt =====
-- `GetMapping` over the exchange of `NetworkTransport`, on TCP.
use qnatter.Common.{
  ℕ, ◌+◌, ◌≤◌, ◌≡◌, refl, sym, ◌∙◌, false, none, some, List, ◌∷◌, ◌++◌, Outcome, ok, length, take,
  drop, Bytes, uint16,
}
use qnatter.Errors.{Error}
use qnatter.Net.{AddrPort}
use qnatter.Stun.Client.{Reply, replied, Network, Client, mapped, attempt, get_mapping, prepared}
use qnatter.Stun.Client.Rounds.{AllFail, get_mapping_first}
use qnatter.Stun.Mapping.{Server}
use qnatter.Stun.Message.{parse_mapped_address, build_binding_request}
use qnatter.Stun.Transport.{ExchangeAnswers, exchange, max_message_size}
use qnatter.Stun.Transport.Segments.{joined, read_response_segments}

-- The network exchanges messages over TCP; attempt `i` has the answers `answers i`.
abbrev pub IsOverTcp : Network → (ℕ → ExchangeAnswers) → Type 0
IsOverTcp n answers =
    (i : ℕ) (server : Server) (source : AddrPort) (request : Bytes)
    → exchange false (answers i) ≡ ok (n.exchange i false server source request)

-- A connection on which nothing fails.
abbrev pub IsConnected : ExchangeAnswers → AddrPort → Type 0
IsConnected a inner =
    (a.local_address_error ≡ none)
    × (a.dial_error ≡ none)
    × (a.write_error ≡ none)
    × (a.inner ≡ some inner)

-- A message whose header tells its length.
abbrev pub IsFramed : Bytes → Type 0
IsFramed msg =
    (size : ℕ) × (uint16 {E = Error} (take 2 (drop 2 msg)) ≡ ok size)
    × (length msg ≡ 20 + size)
    × (20 + size ≤ max_message_size)

ok-injective : {x y : Reply} → ◌≡◌ {A = Outcome Error Reply} (ok x) (ok y) → x ≡ y
ok-injective h = cc

exchange-replied :
    (a : ExchangeAnswers) (inner : AddrPort) (msg tail : Bytes)
    → IsConnected a inner
    → IsFramed msg
    → joined a.chunks ≡ msg ++ tail
    → exchange false a ≡ ok (replied inner msg)
unfolding exchange
exchange-replied a inner msg tail h f e =
    rw (h.0, h.1, h.2, h.3, read_response_segments msg tail a.chunks f.0 e f.1 f.2 f.3) refl

-- Over TCP, the first server whose stream carries a response to the transaction gives the mapping,
-- however the stream is cut into reads and whatever follows the response: the outer address is the
-- one of the response, the inner address that of the connection. The response has at most 1500 bytes,
-- and its header tells its length.
pub get_mapping_over_tcp :
    (n : Network) (answers : ℕ → ExchangeAnswers) (c : Client) (before after : List Server)
    (server : Server) (txid msg tail : Bytes) (inner outer : AddrPort)
    → IsOverTcp n answers
    → c.udp ≡ false
    → c.servers ≡ before ++ (server ∷ after)
    → AllFail n c 0 before
    → n.transaction_id (length before) ≡ some txid
    → IsConnected (answers (length before)) inner
    → IsFramed msg
    → joined (answers (length before)).chunks ≡ msg ++ tail
    → parse_mapped_address msg txid ≡ ok outer
    → get_mapping n c ≡ (
      record (prepared c) { servers = server ∷ (after ++ before); source = inner },
      ok (record { inner = inner; outer = outer; server = server }),
    )
unfolding attempt
get_mapping_over_tcp n answers c before after server txid msg tail inner outer over tcp e fail id
      conn framed stream parse =
    (get_mapping_first n c before after server
      (record { inner = inner; outer = outer; server = server }) e fail tried).0
  where
    tried :
        attempt n (length before) c.udp c.source server
        ≡ mapped (record { inner = inner; outer = outer; server = server })
    tried =
        let request = build_binding_request txid in
        let reply : n.exchange (length before) false server c.source request ≡ replied inner msg =
          ok-injective (
            sym (over (length before) server c.source request)
            ∙ exchange-replied (answers (length before)) inner msg tail conn framed stream) in
        rw (tcp, id, reply, parse) refl
