-- ===== src/Forward/Socket.antt =====
-- go-qnatter/internal/forward/socket.go: the forwarder over sockets. What the network answers is a
-- parameter; sockets and times are numbers, in nanoseconds.
pub mod Clients
pub mod Loop
mod Tests
use qnatter.Common.{
  ℕ, ◌*◌, ◌/◌, Bool, true, false, not, ◌&&◌, Option, none, some, List, [], ◌∷◌, ◌++◌, Outcome, ok,
  err, ltb, if◌then◌else◌, Bytes, bytes_eq, text, ℤ, pos, is_positive, to_nat,
}
use qnatter.Errors.{Error, other}
use qnatter.Forward.Options.{StartOptions, int_eq, same_address}

-- `maxUDPClients`, `udpClientIdleTimeout`, `udpClientSweepInterval`
abbrev pub max_udp_clients : ℕ
max_udp_clients = 1024

abbrev second : ℕ
second = 1000000000

abbrev pub udp_client_idle_timeout : ℕ
udp_client_idle_timeout = 120 * second

abbrev pub udp_client_sweep_interval : ℕ
udp_client_sweep_interval = 30 * second

-- `maxClients`, `idle` and `sweepEvery` of `udpLoop`
abbrev or_default : ℤ → ℕ → ℕ
or_default n default = if is_positive n then to_nat n else default

unfoldable pub loop_max_clients : ℤ → ℕ
loop_max_clients n = or_default n max_udp_clients

unfoldable pub loop_idle : ℤ → ℕ
loop_idle n = or_default n udp_client_idle_timeout

abbrev at_most : ℕ → ℕ → ℕ
at_most bound n = if ltb bound n then bound else n

abbrev at_least : ℕ → ℕ → ℕ
at_least bound n = if ltb n bound then bound else n

unfoldable pub sweep_every : ℕ → ℕ
sweep_every idle = at_least 10000000 (at_most udp_client_sweep_interval (idle / 2))

-- The sockets that `SocketForwarder` remembers; its addresses and its target are left out.
pub record SocketForwarder : Type 0 where
  pub listener : Option ℕ
  pub udp : Option ℕ

-- `Start`, and `startUDP`: of whether the port is taken, and the socket that listening gives.
abbrev listening : SocketForwarder → Bool → Option ℕ → SocketForwarder × Option Error
listening f udp none = (f, some (other ∷ []))
listening f true (some conn) = (record f { udp = some conn }, none)
listening f false (some conn) = (record f { listener = some conn }, none)

abbrev or_any : Bytes → Bytes
or_any ip = if bytes_eq ip [] then text "0.0.0.0" else ip

unfoldable pub start :
    SocketForwarder → StartOptions → Bool → Option ℕ → SocketForwarder × Option Error
unfolding bytes_eq same_address
start f o taken conn =
    let options = record o { ip = or_any o.ip; target_ip = or_any o.target_ip } in
    if same_address options
    then (f, some (other ∷ []))
    else if taken
    then (f, some (other ∷ []))
    else listening f options.udp conn

-- `Stop`: the closed sockets, and the first error of the closes
abbrev closed : Option ℕ → List ℕ
closed none = []
closed (some conn) = conn ∷ []

abbrev close_error : Option ℕ → (ℕ → Option Error) → Option Error
close_error none close = none
close_error (some conn) close = close conn

abbrev pub first_error : Option Error → Option Error → Option Error
first_error none e = e
first_error (some e) _ = some e

unfoldable pub stop : SocketForwarder → (ℕ → Option Error) → SocketForwarder × List ℕ × Option Error
stop f close = (
  record { listener = none; udp = none },
  closed f.listener ++ closed f.udp,
  first_error (close_error f.listener close) (close_error f.udp close),
)
