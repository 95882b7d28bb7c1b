-- ===== src/Forward/Socket/Clients.antt =====
-- go-qnatter/internal/forward/socket.go: `udpClientSet`, a socket for each source address. The map
-- is an association list, which holds an address once.
pub mod Counting
use qnatter.Common.{
  ℕ, ◌+◌, Bool, true, false, not, ◌||◌, Option, none, some, List, [], ◌∷◌, leb, ◌==◌, length,
  if◌then◌else◌, Bytes, bytes_eq,
}

-- `udpClient`
pub record UdpClient : Type 0 where
  pub conn : ℕ
  pub seen : ℕ

abbrev pub Clients : Type 0
Clients = List (Bytes × UdpClient)

-- `udpClientSet`
pub record UdpClientSet : Type 0 where
  pub clients : Clients
  pub max : ℕ
  pub idle : ℕ

-- `s.clients[key]`
unfoldable pub lookup : Bytes → Clients → Option UdpClient
unfolding bytes_eq
lookup key [] = none
lookup key ((k, c) ∷ clients) =
    let rest = lookup key clients in if bytes_eq k key then some c else rest

-- `delete(s.clients, key)`
unfoldable pub erase : Bytes → Clients → Clients
unfolding bytes_eq
erase key [] = []
erase key ((k, c) ∷ clients) =
    let rest = erase key clients in if bytes_eq k key then clients else (k, c) ∷ rest

-- `client.seen = now` of the client of a key
unfoldable pub set_seen : Bytes → ℕ → Clients → Clients
unfolding bytes_eq
set_seen key now [] = []
set_seen key now ((k, c) ∷ clients) =
    let rest = set_seen key now clients in
    if bytes_eq k key then (k, record c { seen = now }) ∷ clients else (k, c) ∷ rest

-- `touch`
unfoldable pub touch : UdpClientSet → Bytes → ℕ → UdpClientSet × Option UdpClient
unfolding lookup set_seen
touch s key now =
    (record s { clients = set_seen key now s.clients }, lookup key (set_seen key now s.clients))

-- `add`, which gives no client if there are too many
unfoldable pub add : UdpClientSet → Bytes → ℕ → ℕ → UdpClientSet × Option UdpClient
unfolding erase
add s key conn now =
    if leb s.max (length s.clients)
    then (s, none)
    else let client : UdpClient = record { conn = conn; seen = now } in
      (record s { clients = (key, client) ∷ erase key s.clients }, some client)

abbrev pub forget_client : UdpClientSet → Bytes → ℕ → Option UdpClient → UdpClientSet × List ℕ
forget_client s key conn none = (s, [])
forget_client s key conn (some c) =
    if not (c.conn == conn)
    then (s, [])
    else (record s { clients = erase key s.clients }, conn ∷ [])

-- `forget`: the set when its lock is released, and the socket that is closed behind that
unfoldable pub forget : UdpClientSet → Bytes → ℕ → UdpClientSet × List ℕ
unfolding lookup erase
forget s key conn = forget_client s key conn (lookup key s.clients)

-- The loop of `sweepIdle`: the clients that stay, and the sockets of those that expire.
unfoldable pub expire : ℕ → ℕ → Clients → Clients × List ℕ
expire idle now [] = ([], [])
expire idle now ((k, c) ∷ clients) =
    let rest = expire idle now clients in
    if leb (c.seen + idle) now then (rest.0, c.conn ∷ rest.1) else ((k, c) ∷ rest.0, rest.1)

-- `sweepIdle`, like `forget`
unfoldable pub sweep_idle : UdpClientSet → ℕ → UdpClientSet × List ℕ
unfolding expire
sweep_idle s now =
    let swept = expire s.idle now s.clients in (record s { clients = swept.0 }, swept.1)

-- The sockets of some clients.
unfoldable pub conns : Clients → List ℕ
conns [] = []
conns ((k, c) ∷ clients) = c.conn ∷ conns clients

-- `closeAll`, like `forget`
unfoldable pub close_all : UdpClientSet → UdpClientSet × List ℕ
unfolding conns
close_all s = (record s { clients = [] }, conns s.clients)
