-- ===== src/Keepalive/Tests.antt =====
-- Attempts that the theorems on the keep-alive clients are tried on.
use qnatter.Common.{◌≡◌, refl, true, false, none, [], ◌∷◌, ok}
use qnatter.Errors.{other}
use qnatter.Keepalive.{KeepAliveClient, Read, Network, tcp_keep_alive, udp_keep_alive, read_loop}
use qnatter.Keepalive.Sockets.{Kept, timeout, tcp_keep_alive-Kept, udp_keep_alive-Kept}

abbrev idle : KeepAliveClient
idle = record { conn = false; opened = 2; closed = 2 }

abbrev busy : KeepAliveClient
busy = record { conn = true; opened = 3; closed = 2 }

abbrev piece : Read
piece = record { n = 100; failure = none }

abbrev network : Network
network = record {
  dial = none;
  set_deadline = none;
  write = none;
  reads = piece ∷ timeout (other ∷ []) ∷ [];
}

check_success : tcp_keep_alive network idle ≡ (busy, ok tt)
unfolding tcp_keep_alive read_loop
check_success = refl

tcp_keep_alive-Kept_example : Kept (tcp_keep_alive network idle)
tcp_keep_alive-Kept_example = tcp_keep_alive-Kept network idle refl

udp_keep_alive-Kept_example : Kept (udp_keep_alive network idle)
udp_keep_alive-Kept_example = udp_keep_alive-Kept network idle refl
