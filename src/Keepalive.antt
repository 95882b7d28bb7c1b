-- ===== src/Keepalive.antt =====
-- go-qnatter/internal/keepalive: the clients that keep a mapping alive, as state machines over their
-- socket. What the network answers to an attempt is a parameter of it.
pub mod Sockets
mod Tests
use qnatter.Common.{
  ℕ, ◌+◌, Bool, true, false, ◌||◌, Option, none, some, List, [], ◌∷◌, Outcome, ok, err, stuck, ltb,
  ◌==◌, if◌then◌else◌,
}
use qnatter.Errors.{Error, other}

-- The client, with the sockets that it opened and closed so far.
pub record KeepAliveClient : Type 0 where
  pub conn : Bool
  pub opened : ℕ
  pub closed : ℕ

-- The error of a `Read`: a timeout, or another one.
pub data ReadError : Type 0 where
  timed_out broken_off : Error → ReadError

pub record Read : Type 0 where
  pub n : ℕ
  pub failure : Option ReadError

-- What the network answers to one call of `KeepAlive`; the reads in their order.
pub record Network : Type 0 where
  pub dial : Option Error
  pub set_deadline : Option Error
  pub write : Option Error
  pub reads : List Read

-- The client behind a call, and what the call comes to; `stuck` while it waits for a read.
abbrev pub Called : Type 0
Called = KeepAliveClient × Outcome Error (Unit {0})

abbrev pub dialed : KeepAliveClient → KeepAliveClient
dialed c = record c { conn = true; opened = c.opened + 1 }

-- `Close`, which does nothing without a socket; `disconnect` is the same.
unfoldable pub close : KeepAliveClient → KeepAliveClient
close c = if c.conn then record c { conn = false; closed = c.closed + 1 } else c

abbrev pub give_up : KeepAliveClient → Error → Called
give_up c e = (close c, err e)

abbrev pub unless_failed : Option Error → KeepAliveClient → Called → Called
unless_failed none c k = k
unless_failed (some e) c k = give_up c e

-- The part of `KeepAlive` that is the same for both: a socket, its deadline, the request.
abbrev pub request : Network → KeepAliveClient → Called → Called
request n c k = unless_failed n.set_deadline c (unless_failed n.write c k)

abbrev pub with_socket : Option Error → KeepAliveClient → (KeepAliveClient → Called) → Called
with_socket none c k = k (dialed c)
with_socket (some e) c k = (c, err e)

abbrev pub connected : Network → KeepAliveClient → (KeepAliveClient → Called) → Called
connected n c k = if c.conn then k c else with_socket n.dial c k

-- What ends the read loop of the TCP client with an error of `Read`.
abbrev pub read_failed : Bool → KeepAliveClient → ReadError → Called
read_failed received c (timed_out e) = if received then (c, ok tt) else give_up c e
read_failed received c (broken_off e) = give_up c e

abbrev pub after_read : Bool → KeepAliveClient → Read → Option ReadError → Called → Called
after_read received c r (some e) rest = read_failed received c e
after_read received c r none rest = if r.n == 0 then give_up c (other ∷ []) else rest

-- The loop of `TCPClient.KeepAlive`.
unfoldable pub read_loop : Bool → KeepAliveClient → List Read → Called
read_loop received c [] = (c, stuck)
read_loop received c (r ∷ reads) =
    let received' = received || ltb 0 r.n in
    let rest = read_loop received' c reads in after_read received' c r r.failure rest

-- `TCPClient.KeepAlive`
unfoldable pub tcp_keep_alive : Network → KeepAliveClient → Called
tcp_keep_alive n c = connected n c λ c'. request n c' (read_loop false c' n.reads)

abbrev pub read_error : ReadError → Error
read_error (timed_out e) = e
read_error (broken_off e) = e

abbrev pub after_answer : KeepAliveClient → Read → Option ReadError → Called
after_answer c r (some e) = give_up c (read_error e)
after_answer c r none = if r.n == 0 then give_up c (other ∷ []) else (c, ok tt)

-- The one read of the UDP client.
unfoldable pub read_once : KeepAliveClient → List Read → Called
read_once c [] = (c, stuck)
read_once c (r ∷ reads) = after_answer c r r.failure

-- `UDPClient.KeepAlive`
unfoldable pub udp_keep_alive : Network → KeepAliveClient → Called
udp_keep_alive n c = connected n c λ c'. request n c' (read_once c' n.reads)
