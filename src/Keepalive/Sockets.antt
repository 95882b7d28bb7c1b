-- ===== src/Keepalive/Sockets.antt =====
-- The sockets of the keep-alive clients, and what the TCP client takes for an answer.
use qnatter.Common.{
  ℕ, ◌+◌, ◌≡◌, refl, arith, Bool, true, false, ◌||◌, Option, none, some, List, [], ◌∷◌, ◌++◌, ok,
  err, panic, stuck, ltb, ◌==◌, if◌then◌else◌,
}
use qnatter.Errors.{Error, other}
use qnatter.Keepalive.{
  KeepAliveClient, ReadError, timed_out, broken_off, Read, Network, Called, dialed, close, give_up,
  unless_failed, request, with_socket, connected, read_failed, after_read, read_loop,
  tcp_keep_alive, after_answer, read_once, read_error, udp_keep_alive,
}

-- All sockets are closed but the one in use.
abbrev pub Owned : KeepAliveClient → Type 0
Owned c = c.opened ≡ c.closed + (if c.conn then 1 else 0)

-- What a call leaves: no socket is lost; a success keeps its socket, an error leaves none.
abbrev pub Kept : Called → Type 0
Kept (c, ok x) = Owned c × (c.conn ≡ true)
Kept (c, err e) = Owned c × (c.conn ≡ false)
Kept (c, panic) = ⊥
Kept (c, stuck) = Owned c × (c.conn ≡ true)

close-Owned : (c : KeepAliveClient) → Owned c → Owned (close c) × ((close c).conn ≡ false)
unfolding close
close-Owned c h = by_conn c.conn h
  where
    by_conn :
        (b : Bool)
        → c.opened ≡ c.closed + (if b then 1 else 0)
        → Owned
            (if b then record c { conn = false; closed = c.closed + 1 } else record c { conn = b })
          × ((if b
                then record c { conn = false; closed = c.closed + 1 }
                else record c { conn = b }).conn
              ≡ false)
    by_conn true q = (omega arith, refl)
    by_conn false q = (q, refl)

give_up-Kept : (c : KeepAliveClient) (e : Error) → Owned c → Kept (give_up c e)
give_up-Kept c e h = close-Owned c h

unless_failed-Kept :
    (o : Option Error) (c : KeepAliveClient) (k : Called)
    → Owned c
    → Kept k
    → Kept (unless_failed o c k)
unless_failed-Kept none c k h q = q
unless_failed-Kept (some e) c k h q = give_up-Kept c e h

request-Kept :
    (n : Network) (c : KeepAliveClient) (k : Called) → Owned c → Kept k → Kept (request n c k)
request-Kept n c k h q =
    unless_failed-Kept n.set_deadline c _ h (unless_failed-Kept n.write c k h q)

connected-Kept :
    (n : Network) (c : KeepAliveClient) (k : KeepAliveClient → Called)
    → Owned c
    → ((c' : KeepAliveClient) → Owned c' → c'.conn ≡ true → Kept (k c'))
    → Kept (connected n c k)
connected-Kept n c k h q = by_conn c.conn refl
  where
    new_socket : (o : Option Error) → c.conn ≡ false → Kept (with_socket o c k)
    new_socket none e = q (dialed c) (balance c.conn h e) refl
      where
        balance :
            (b : Bool)
            → c.opened ≡ c.closed + (if b then 1 else 0)
            → b ≡ false
            → c.opened + 1 ≡ c.closed + 1
        balance true g e' = cc
        balance false g e' = omega arith
    new_socket (some x) e = (h, e)

    by_conn : (b : Bool) → c.conn ≡ b → Kept (if b then k c else with_socket n.dial c k)
    by_conn true e = q c h e
    by_conn false e = new_socket n.dial e

read_failed-Kept :
    (received : Bool) (c : KeepAliveClient) (e : ReadError)
    → Owned c
    → c.conn ≡ true
    → Kept (read_failed received c e)
read_failed-Kept true c (timed_out e) h q = (h, q)
read_failed-Kept false c (timed_out e) h q = give_up-Kept c e h
read_failed-Kept received c (broken_off e) h q = give_up-Kept c e h

end_or :
    (b : Bool) (c : KeepAliveClient) (e : Error) (k : Called)
    → Owned c
    → Kept k
    → Kept (if b then give_up c e else k)
end_or true c e k h q = give_up-Kept c e h
end_or false c e k h q = q

after_read-Kept :
    (received : Bool) (c : KeepAliveClient) (r : Read) (o : Option ReadError) (rest : Called)
    → Owned c
    → c.conn ≡ true
    → Kept rest
    → Kept (after_read received c r o rest)
after_read-Kept received c r (some e) rest h q k = read_failed-Kept received c e h q
after_read-Kept received c r none rest h q k = end_or (r.n == 0) c _ rest h k

read_loop-Kept :
    (received : Bool) (c : KeepAliveClient) (reads : List Read)
    → Owned c
    → c.conn ≡ true
    → Kept (read_loop received c reads)
unfolding read_loop
read_loop-Kept received c [] h q = (h, q)
read_loop-Kept received c (r ∷ reads) h q =
    after_read-Kept _ c r r.failure _ h q (read_loop-Kept (received || ltb 0 r.n) c reads h q)

-- The TCP client never has more than one socket open and never loses one: an attempt that fails
-- closes it, one that succeeds keeps it for the next.
pub tcp_keep_alive-Kept : (n : Network) (c : KeepAliveClient) → Owned c → Kept (tcp_keep_alive n c)
unfolding tcp_keep_alive
tcp_keep_alive-Kept n c h =
    connected-Kept n c _ h λ c' h' q. request-Kept n c' _ h' (read_loop-Kept false c' n.reads h' q)

read_once-Kept :
    (c : KeepAliveClient) (reads : List Read) → Owned c → c.conn ≡ true → Kept (read_once c reads)
unfolding read_once
read_once-Kept c [] h q = (h, q)
read_once-Kept c (r ∷ reads) h q = answer r.failure
  where
    answer : (o : Option ReadError) → Kept (after_answer c r o)
    answer none = end_or (r.n == 0) c (other ∷ []) (c, ok tt) h (h, q)
    answer (some e) = give_up-Kept c (read_error e) h

-- The UDP client never has more than one socket open and never loses one either: an attempt that
-- fails closes it, one that succeeds keeps it for the next.
pub udp_keep_alive-Kept : (n : Network) (c : KeepAliveClient) → Owned c → Kept (udp_keep_alive n c)
unfolding udp_keep_alive
udp_keep_alive-Kept n c h =
    connected-Kept n c _ h λ c' h' q. request-Kept n c' _ h' (read_once-Kept c' n.reads h' q)

-- A piece of the answer: some bytes and no error.
abbrev pub AllPieces : List Read → Type 0
AllPieces [] = Unit {0}
AllPieces (r ∷ reads) = ((r.n == 0) ≡ false) × (r.failure ≡ none) × AllPieces reads

abbrev pub is_some_piece : List Read → Bool
is_some_piece [] = false
is_some_piece (r ∷ reads) = true

abbrev pub timeout : Error → Read
timeout e = record { n = 0; failure = some (timed_out e) }

or_true : (b : Bool) → (b || true) ≡ true
or_true true = refl
or_true false = refl

received_piece : (n : ℕ) (received : Bool) → (n == 0) ≡ false → (received || ltb 0 n) ≡ true
received_piece n received h = ground arith

-- The TCP client takes a silence behind at least one piece of an answer for a success, and a
-- silence without an answer for a failure that closes the socket.
pub read_loop-append :
    (c : KeepAliveClient) (received : Bool) (pieces later : List Read) (e : Error)
    → AllPieces pieces
    → read_loop received c (pieces ++ (timeout e ∷ later))
      ≡ (if received || is_some_piece pieces then (c, ok tt) else (close c, err e))
unfolding read_loop
read_loop-append c received [] later e h = refl
read_loop-append c received (r ∷ pieces) later e h = rw (
  h.1,
  h.0,
  received_piece r.n received h.0,
  read_loop-append c true pieces later e h.2,
  or_true received,
)
