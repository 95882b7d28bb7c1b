-- ===== src/Check/Exchange.antt =====
-- go-qnatter/internal/check/check.go: `TCPSTUNTest` and `UDPSTUNTest`, one exchange with a server.
-- What the calls of `net` give is a parameter.
pub mod Replies
use qnatter.Common.{
  ℕ, zero, suc, Bool, true, false, not, Option, none, some, List, [], ◌∷◌, Outcome, ok, err, panic,
  stuck, if◌then◌else◌, ◌==◌, ltb, take, Bytes, ℤ, pos, negsuc,
}
use qnatter.Check.Message.{StunError, build_stun_binding_request, parse_stun_mapped_address}
use qnatter.Check.Nat.{StunTestResult}
use qnatter.Errors.{Error, other}
use qnatter.Net.{AddrPort, Addr, addr_eq}

-- The length of the buffer that is read into.
abbrev pub buffer_size : ℕ
buffer_size = 1500

-- What a read gives: a datagram with its sender, if its address is understood, or an error.
pub data Read : Type 0 where
  received : Bytes → Option AddrPort → Read
  failed : Error → Read

-- What the calls before the first read give, and the local address at the end.
pub record Answers : Type 0 where
  pub txid_error : Option Error
  pub open_error : Option Error
  pub write_error : ℕ → Option Error
  pub source : Option AddrPort

-- The result of a reply whose sender is known.
abbrev pub reply_of : AddrPort → AddrPort → AddrPort → AddrPort → StunTestResult
reply_of server source mapped from = record {
  source = source;
  mapped = mapped;
  ip_changed = not (addr_eq from.addr server.addr);
  port_changed = not (from.port == server.port);
}

abbrev pub with_addresses :
    AddrPort → Option AddrPort → AddrPort → Option AddrPort → Outcome Error StunTestResult
with_addresses server none mapped from = err (other ∷ [])
with_addresses server (some source) mapped none = err (other ∷ [])
with_addresses server (some source) mapped (some from) = ok (reply_of server source mapped from)

-- A datagram that is no answer is passed over.
abbrev pub on_parsed :
    AddrPort
    → Option AddrPort
    → Option AddrPort
    → Outcome StunError AddrPort
    → Outcome Error StunTestResult
    → Outcome Error StunTestResult
on_parsed server source from (ok mapped) later = with_addresses server source mapped from
on_parsed server source from (err e) later = later
on_parsed server source from panic later = panic
on_parsed server source from stuck later = stuck

-- The loop of reads; `stuck` means that it is still waiting.
unfoldable pub read_reply :
    AddrPort → Bytes → Option AddrPort → List Read → Outcome Error StunTestResult
read_reply server txid source [] = stuck
read_reply server txid source (failed e ∷ reads) = err e
read_reply server txid source (received datagram from ∷ reads) =
    let later = read_reply server txid source reads in
    on_parsed server source from (parse_stun_mapped_address (take buffer_size datagram) txid) later

-- The requests that are written, up to the first error.
unfoldable pub write_requests : (ℕ → Option Error) → Bytes → ℕ → ℕ → List Bytes × Option Error
write_requests write_error request i zero = ([], none)
write_requests write_error request i (suc more) =
    let later = write_requests write_error request (suc i) more in
    elim (write_error i) [ some e ↦ ([], some e) | none ↦ (request ∷ later.0, later.1) ]

abbrev repeated : ℤ → ℕ
repeated (pos (suc n)) = suc n
repeated _ = 3

abbrev refused_or {ℓ} :
    {A : Type ℓ} → Option Error → List Bytes × Outcome Error A → List Bytes × Outcome Error A
refused_or (some e) _ = ([], err e)
refused_or none exchanged = exchanged

abbrev written_then {ℓ} :
    {A : Type ℓ} → List Bytes × Option Error → Outcome Error A → List Bytes × Outcome Error A
written_then (sent, some e) reply = (sent, err e)
written_then (sent, none) reply = (sent, reply)

-- `UDPSTUNTest`: the requests that are sent, and the result; `repeat` is the option `Repeat`.
unfoldable pub udp_stun_test :
    Answers
    → AddrPort
    → Bytes
    → Bool
    → Bool
    → ℤ
    → List Read
    → List Bytes × Outcome Error StunTestResult
unfolding read_reply write_requests build_stun_binding_request
udp_stun_test a server txid change_ip change_port repeat reads =
    let request = build_stun_binding_request txid change_ip change_port in
    refused_or a.txid_error (
      refused_or a.open_error (
        written_then (write_requests a.write_error request 0 (repeated repeat))
          (read_reply server txid a.source reads)))

abbrev tcp_result : Option AddrPort → Outcome StunError AddrPort → Outcome Error StunTestResult
tcp_result none mapped = err (other ∷ [])
tcp_result (some source) (ok mapped) =
    ok (record { source = source; mapped = mapped; ip_changed = false; port_changed = false })
tcp_result (some source) (err e) = err (other ∷ [])
tcp_result (some source) panic = panic
tcp_result (some source) stuck = stuck

-- One read, which may give a part of the stream only.
abbrev tcp_read : Bytes → Option AddrPort → Option Bytes → Outcome Error StunTestResult
tcp_read txid source none = err (other ∷ [])
tcp_read txid source (some chunk) =
    tcp_result source (parse_stun_mapped_address (take buffer_size chunk) txid)

-- `TCPSTUNTest`
unfoldable pub tcp_stun_test :
    Answers → Bytes → Option Bytes → List Bytes × Outcome Error StunTestResult
unfolding write_requests build_stun_binding_request
tcp_stun_test a txid chunk = refused_or a.txid_error (
    refused_or a.open_error (
      written_then (write_requests a.write_error (build_stun_binding_request txid false false) 0 1)
        (tcp_read txid a.source chunk)))
