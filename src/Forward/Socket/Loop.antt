-- ===== src/Forward/Socket/Loop.antt =====
-- go-qnatter/internal/forward/socket.go: `udpLoop` with the threads beside it, as steps. A thread
-- that takes sockets out of the set closes them after it has released the lock, so that other steps
-- may come between.
pub mod Sound
pub mod Sockets
use qnatter.Common.{
  ℕ, ◌≡◌, ◌≤◌, Bool, true, false, not, ◌||◌, Option, none, some, List, [], ◌∷◌, ◌++◌, ◌==◌,
  if◌then◌else◌, Bytes,
}
use qnatter.Forward.Socket.Clients.{
  UdpClient, UdpClientSet, touch, add, forget, sweep_idle, close_all,
}

-- Where the thread of `udpLoop` is: in front of `ReadFromUDP`, with a socket it has just dialed for
-- a source, with one it writes to, or behind the loop.
pub data Phase : Type 0 where
  reading : Phase
  dialed : Bytes → ℕ → Phase
  writing : Bytes → ℕ → Phase
  stopped : Phase

-- The set, the open outbound sockets, those taken out of the set but not closed yet, the phase.
pub record World : Type 0 where
  pub set : UdpClientSet
  pub opened : List ℕ
  pub closing : List ℕ
  pub phase : Phase

-- `Close` of a socket
unfoldable pub remove : ℕ → List ℕ → List ℕ
remove c [] = []
remove c (d ∷ ds) = let rest = remove c ds in if d == c then ds else d ∷ rest

unfoldable pub is_in : ℕ → List ℕ → Bool
is_in c [] = false
is_in c (d ∷ ds) = d == c || is_in c ds

-- A thread has taken sockets out of the set.
abbrev pub taken : World → UdpClientSet × List ℕ → World
taken w (s, conns) = record w { set = s; closing = conns ++ w.closing }

-- A datagram of a known source, or of one for which a socket is dialed.
abbrev pub at_touch : World → Bytes → UdpClientSet × Option UdpClient → Option ℕ → World
at_touch w key (s, some c) dial = record w { set = s; phase = writing key c.conn }
at_touch w key (s, none) none = record w { set = s }
at_touch w key (s, none) (some conn) = record w {
  set = s;
  opened = conn ∷ w.opened;
  phase = dialed key conn;
}

-- The dialed socket is added, or closed at once.
abbrev pub at_add : World → Bytes → ℕ → UdpClientSet × Option UdpClient → World
at_add w key conn (s, some c) = record w { set = s; phase = writing key c.conn }
at_add w key conn (s, none) = record w { set = s; opened = remove conn w.opened; phase = reading }

pub data Step : World → World → Type 0 where
  -- `ReadFromUDP` gives a datagram of a source; `dial` is what `newUDPOutbound` gives if it is called
  receive :
      (w : World) (key : Bytes) (now : ℕ) (dial : Option ℕ)
      → w.phase ≡ reading
      → Step w (at_touch w key (touch w.set key now) dial)
  add_client :
      (w : World) (key : Bytes) (conn now : ℕ)
      → w.phase ≡ dialed key conn
      → Step w (at_add w key conn (add w.set key conn now))
  written :
      (w : World) (key : Bytes) (conn : ℕ)
      → w.phase ≡ writing key conn
      → Step w (record w { phase = reading })
  write_failed :
      (w : World) (key : Bytes) (conn : ℕ)
      → w.phase ≡ writing key conn
      → Step w (record (taken w (forget w.set key conn)) { phase = reading })
  -- `ReadFromUDP` fails, and `closeAll` is deferred
  listener_closed :
      (w : World)
      → w.phase ≡ reading
      → Step w (record (taken w (close_all w.set)) { phase = stopped })
  -- the thread that reads from a socket ends and calls `onDone`
  reader_done : (w : World) (key : Bytes) (conn : ℕ) → Step w (taken w (forget w.set key conn))
  sweep : (w : World) (now : ℕ) → Step w (taken w (sweep_idle w.set now))
  -- a thread closes a socket that it has taken out
  close :
      (w : World) (conn : ℕ)
      → is_in conn w.closing ≡ true
      → Step w (record w { opened = remove conn w.opened; closing = remove conn w.closing })

abbrev pub new_set : ℕ → ℕ → UdpClientSet
new_set max idle = record { clients = []; max = max; idle = idle }

abbrev pub initial : ℕ → ℕ → World
initial max idle = record { set = new_set max idle; opened = []; closing = []; phase = reading }

pub data Reaches (max idle : ℕ) : World → Type 0 where
  begin : Reaches max idle (initial max idle)
  then_step : (w w' : World) → Reaches max idle w → Step w w' → Reaches max idle w'
