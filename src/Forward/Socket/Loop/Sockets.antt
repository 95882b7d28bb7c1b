-- ===== src/Forward/Socket/Loop/Sockets.antt =====
-- The sockets of `udpLoop`: how many are open, and that none is left.
use qnatter.Common.{
  ℕ, ◌+◌, ◌≤◌, ◌≡◌, refl, ◌∙◌, arith, true, List, [], ◌∷◌, ◌++◌, length, length-append,
}
use qnatter.Forward.Socket.Clients.{lookup, set_seen, conns, touch, forget, close_all}
use qnatter.Forward.Socket.Clients.Counting.{times, times-append, length-conns}
use qnatter.Forward.Socket.Loop.{
  Phase, reading, dialed, writing, stopped, World, remove, is_in, taken, Step, receive, add_client,
  written, write_failed, listener_closed, reader_done, sweep, close, Reaches, begin, then_step,
}
use qnatter.Forward.Socket.Loop.Sound.{
  held, IsSound, times-remove, forget-IsTaken, sweep_idle-IsTaken, close_all-IsTaken, taken-IsSound,
  is_in-times, in_phase, Fits-phase, touched-IsSound, add-IsSound, written-IsSound, stopped-IsSound,
  close-IsSound,
}

step-IsSound : (max : ℕ) (w w' : World) → IsSound max w → Step w w' → IsSound max w'
step-IsSound max w _ h (receive _ key now dial e) =
    unfold touch in
    touched-IsSound max w h key now (lookup key (set_seen key now w.set.clients)) dial e refl
step-IsSound max w _ h (add_client _ key conn now e) = add-IsSound max w h key conn now e
step-IsSound max w _ h (written _ key conn e) = written-IsSound max w h key conn e
step-IsSound max w _ h (write_failed _ key conn e) =
    let sound = taken-IsSound max w _ _ (forget-IsTaken w.set key conn) h in
    written-IsSound max (taken w (forget w.set key conn)) sound key conn e
step-IsSound max w _ h (listener_closed _ e) =
    let sound = taken-IsSound max w _ _ (close_all-IsTaken w.set) h in
    stopped-IsSound max (taken w (close_all w.set)) sound e (unfold close_all in refl)
step-IsSound max w _ h (reader_done _ key conn) =
    taken-IsSound max w _ _ (forget-IsTaken w.set key conn) h
step-IsSound max w _ h (sweep _ now) = taken-IsSound max w _ _ (sweep_idle-IsTaken w.set now) h
step-IsSound max w _ h (close _ conn e) = close-IsSound max w h conn e

Reaches-IsSound : (max idle : ℕ) (w : World) → Reaches max idle w → IsSound max w
Reaches-IsSound max idle _ begin =
    unfold times conns in
    record { counted = λ c. omega arith; few = omega arith; same_max = refl; fits = tt }
Reaches-IsSound max idle w (then_step v _ r s) =
    step-IsSound max v w (Reaches-IsSound max idle v r) s

length-remove : (d : ℕ) (xs : List ℕ) → is_in d xs ≡ true → length (remove d xs) + 1 ≡ length xs
unfolding remove is_in
length-remove d [] h = cc
length-remove d (x ∷ xs) h = ground (arith, length-remove d xs)

-- A list whose elements are no more often there than in another is not longer.
length-times : (xs ys : List ℕ) → ((c : ℕ) → times c xs ≤ times c ys) → length xs ≤ length ys
unfolding times
length-times [] ys h = omega arith
length-times (x ∷ xs) ys h =
    let there = is_in-times x ys (let e = h x in ground arith) in
    let rest = length-times xs (remove x ys) (λ c. omega (arith, h c, times-remove c x ys there)) in
    omega (arith, rest, length-remove x ys there)

none-times : (xs : List ℕ) → ((c : ℕ) → times c xs ≡ 0) → xs ≡ []
unfolding times
none-times [] h = refl
none-times (x ∷ xs) h = let e = h x in ground arith

length-held : (p : Phase) → length (held p) ≤ 1
length-held reading = omega arith
length-held (dialed key conn) = omega arith
length-held (writing key conn) = omega arith
length-held stopped = omega arith

-- However datagrams, write failures, ends of readers and sweeps are interleaved, the UDP forwarder
-- has at most `max` + 1 outbound sockets open beside those that a thread has taken out of the set
-- and is about to close.
pub Reaches-bound :
    (max idle : ℕ) (w : World) → Reaches max idle w → length w.opened ≤ max + 1 + length w.closing
Reaches-bound max idle w r =
    let h = Reaches-IsSound max idle w r in
    let others = conns w.set.clients ++ (w.closing ++ held w.phase) in
    let few = length-times w.opened others (λ c. omega (
      arith,
      h.counted c,
      times-append c (conns w.set.clients) (w.closing ++ held w.phase),
      times-append c w.closing (held w.phase),
    )) in
    omega (
      arith,
      few,
      h.few,
      length-append (conns w.set.clients) (w.closing ++ held w.phase),
      length-append w.closing (held w.phase),
      length-conns w.set.clients,
      length-held w.phase,
    )

-- When the loop of the UDP forwarder has stopped and every thread has closed the sockets that it
-- took out of the set, no outbound socket is open, however the threads were interleaved.
pub Reaches-stopped :
    (max idle : ℕ) (w : World)
    → Reaches max idle w
    → w.phase ≡ stopped
    → w.closing ≡ []
    → w.opened ≡ []
Reaches-stopped max idle w r e none_closing =
    let h = Reaches-IsSound max idle w r in
    let gone = Fits-phase max w h stopped e in
    none-times w.opened λ c.
      in_phase max w h stopped e c ∙ rw (gone, none_closing) (unfold times conns in omega arith)
