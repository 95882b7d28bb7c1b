-- ===== src/Forward/Socket/Tests.antt =====
-- A run of the UDP forwarder that the theorems on its sockets are tried on.
use qnatter.Common.{◌+◌, ◌≤◌, ◌≡◌, refl, some, [], ◌∷◌, length, Bytes}
use qnatter.Forward.Socket.Clients.{touch, add, close_all, lookup, set_seen, erase, conns}
use qnatter.Forward.Socket.Loop.{
  World, Reaches, begin, then_step, initial, receive, add_client, written, listener_closed, close,
  at_touch, at_add, taken, reading, stopped, remove, is_in,
}
use qnatter.Forward.Socket.Loop.Sockets.{Reaches-bound, Reaches-stopped}

abbrev source : Bytes
source = 1 ∷ []

-- A datagram of a new source is forwarded; then the listener is closed.
abbrev at_dial : World
at_dial = at_touch (initial 2 60) source (touch (initial 2 60).set source 5) (some 7)

abbrev at_write : World
at_write = at_add at_dial source 7 (add at_dial.set source 7 6)

abbrev at_read : World
at_read = record at_write { phase = reading }

abbrev at_end : World
at_end = record (taken at_read (close_all at_read.set)) { phase = stopped }

abbrev at_close : World
at_close = record at_end { opened = remove 7 at_end.opened; closing = remove 7 at_end.closing }

at_close_reached : Reaches 2 60 at_close
unfolding touch add close_all lookup set_seen erase conns remove is_in
at_close_reached =
    then_step at_end _
      (then_step at_read _
        (then_step at_write _
          (then_step at_dial _
            (then_step (initial 2 60) _ begin (receive (initial 2 60) source 5 (some 7) refl))
            (add_client at_dial source 7 6 refl))
          (written at_write source 7 refl))
        (listener_closed at_read refl))
      (close at_end 7 refl)

Reaches-bound_example : length at_close.opened ≤ 2 + 1 + length at_close.closing
Reaches-bound_example = Reaches-bound 2 60 at_close at_close_reached

Reaches-stopped_example : at_close.opened ≡ []
Reaches-stopped_example =
    Reaches-stopped 2 60 at_close at_close_reached refl
      (unfold touch add close_all lookup set_seen erase conns remove in refl)
