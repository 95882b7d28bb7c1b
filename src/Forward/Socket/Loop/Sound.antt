-- ===== src/Forward/Socket/Loop/Sound.antt =====
-- What holds of the sockets at every step of `udpLoop`: each is a client's, held by the loop, or
-- about to be closed.
use qnatter.Common.{
  ℕ, ◌+◌, ◌≤◌, ◌<◌, ◌≡◌, refl, sym, ap, ◌∙◌, arith, true, Option, none, some, List, [], ◌∷◌, leb,
  ◌==◌, length, Bytes, Bool-cases, inl, inr,
}
use qnatter.Forward.Socket.Clients.{
  UdpClient, Clients, UdpClientSet, lookup, erase, set_seen, expire, conns, add, forget, sweep_idle,
  close_all, forget_client,
}
use qnatter.Forward.Socket.Clients.Counting.{
  one, times, times-append, conns-set_seen, length-conns, times-erase, length-erase, erase_missing,
  lookup-erase, times-expire, length-expire, lookup-expire,
}
use qnatter.Forward.Socket.Loop.{
  Phase, reading, dialed, writing, stopped, World, remove, is_in, taken, at_touch, at_add,
}

-- The socket that the thread of the loop alone knows.
abbrev pub held : Phase → List ℕ
held (dialed key conn) = conn ∷ []
held _ = []

-- What the phase says of the clients.
abbrev pub Fits : Clients → Phase → Type 0
Fits clients reading = Unit
Fits clients (dialed key conn) = lookup key clients ≡ none
Fits clients (writing key conn) = Unit
Fits clients stopped = clients ≡ []

-- Every open socket is a client's, or taken out and to be closed, or just dialed; there are not too
-- many clients.
pub record IsSound (max : ℕ) (w : World) : Type 0 where
  pub counted :
      (c : ℕ)
      → times c w.opened
        ≡ times c (conns w.set.clients) + times c w.closing + times c (held w.phase)
  pub few : length w.set.clients ≤ max
  pub same_max : w.set.max ≡ max
  pub fits : Fits w.set.clients w.phase

pub times-remove :
    (c d : ℕ) (xs : List ℕ) → is_in d xs ≡ true → times c (remove d xs) + one c d ≡ times c xs
unfolding times remove is_in
times-remove c d [] h = cc
times-remove c d (x ∷ xs) h = ground (arith, times-remove c d xs)

pub is_in-times : (d : ℕ) (xs : List ℕ) → 0 < times d xs → is_in d xs ≡ true
unfolding times is_in
is_in-times d [] h = ground arith
is_in-times d (x ∷ xs) h = ground (arith, is_in-times d xs)

times-is_in : (d : ℕ) (xs : List ℕ) → is_in d xs ≡ true → 0 < times d xs
unfolding times is_in
times-is_in d [] h = cc
times-is_in d (x ∷ xs) h = ground (arith, times-is_in d xs)

-- What a thread does that takes some sockets out of the set.
pub record IsTaken (s s' : UdpClientSet) (out : List ℕ) : Type 0 where
  pub counted : (c : ℕ) → times c (conns s'.clients) + times c out ≡ times c (conns s.clients)
  pub few : length s'.clients ≤ length s.clients
  pub same_max : s'.max ≡ s.max
  pub missing : (key : Bytes) → lookup key s.clients ≡ none → lookup key s'.clients ≡ none
  pub empty : s.clients ≡ [] → s'.clients ≡ []

Fits-IsTaken :
    (s s' : UdpClientSet) (out : List ℕ) (p : Phase)
    → IsTaken s s' out
    → Fits s.clients p
    → Fits s'.clients p
Fits-IsTaken s s' out reading t f = tt
Fits-IsTaken s s' out (dialed key conn) t f = t.missing key f
Fits-IsTaken s s' out (writing key conn) t f = tt
Fits-IsTaken s s' out stopped t f = t.empty f

pub taken-IsSound :
    (max : ℕ) (w : World) (s : UdpClientSet) (out : List ℕ)
    → IsTaken w.set s out
    → IsSound max w
    → IsSound max (taken w (s, out))
taken-IsSound max w s out t h = record {
  counted = λ c. omega (arith, h.counted c, t.counted c, times-append c out w.closing);
  few = omega (arith, t.few, h.few);
  same_max = t.same_max ∙ h.same_max;
  fits = Fits-IsTaken w.set s out w.phase t h.fits;
}

IsTaken-none : (s : UdpClientSet) → IsTaken s s []
unfolding times
IsTaken-none s = record {
  counted = λ c. omega arith;
  few = omega arith;
  same_max = refl;
  missing = λ key h. h;
  empty = λ h. h;
}

pub forget-IsTaken :
    (s : UdpClientSet) (key : Bytes) (conn : ℕ)
    → IsTaken s (forget s key conn).0 (forget s key conn).1
unfolding forget
forget-IsTaken s key conn = by_client (lookup key s.clients) refl
  where
    by_client :
        (o : Option UdpClient)
        → lookup key s.clients ≡ o
        → IsTaken s (forget_client s key conn o).0 (forget_client s key conn o).1
    by_client none h = IsTaken-none s
    by_client (some c) h = elim (Bool-cases (c.conn == conn)) [
      | inl same ↦ rw same (record {
        counted = λ d.
            let e : c.conn ≡ conn = ground arith in
            rw (← e) (unfold times in omega (arith, times-erase d key s.clients c h));
        few = length-erase key s.clients;
        same_max = refl;
        missing = λ k g. lookup-erase k key s.clients g;
        empty = λ g. rw g (unfold erase in refl);
      })
      | inr other ↦ rw other (IsTaken-none s)
    ]

pub sweep_idle-IsTaken :
    (s : UdpClientSet) (now : ℕ) → IsTaken s (sweep_idle s now).0 (sweep_idle s now).1
unfolding sweep_idle
sweep_idle-IsTaken s now = record {
  counted = λ c. times-expire s.idle now c s.clients;
  few = length-expire s.idle now s.clients;
  same_max = refl;
  missing = λ key h. lookup-expire s.idle now key s.clients h;
  empty = λ h. rw h (unfold expire in refl);
}

pub close_all-IsTaken : (s : UdpClientSet) → IsTaken s (close_all s).0 (close_all s).1
unfolding close_all
close_all-IsTaken s = record {
  counted = λ c. unfold times conns in omega arith;
  few = omega arith;
  same_max = refl;
  missing = λ key h. unfold lookup in refl;
  empty = λ h. refl;
}

length-set_seen :
    (key : Bytes) (now : ℕ) (clients : Clients) → length (set_seen key now clients) ≡ length clients
length-set_seen key now clients =
    sym (length-conns (set_seen key now clients))
    ∙ ap length (conns-set_seen key now clients)
    ∙ length-conns clients

module _ (max : ℕ) (w : World) (h : IsSound max w) where
  -- The counts in a phase that is known.
  pub in_phase :
      (p : Phase)
      → w.phase ≡ p
      → (c : ℕ)
      → times c w.opened ≡ times c (conns w.set.clients) + times c w.closing + times c (held p)
  in_phase p e c =
      h.counted c ∙ ap (λ q. times c (conns w.set.clients) + times c w.closing + times c (held q)) e

  pub Fits-phase : (p : Phase) → w.phase ≡ p → Fits w.set.clients p
  Fits-phase p e = rw e at h.fits

  seen-conns :
      (key : Bytes) (now c : ℕ)
      → times c (conns (set_seen key now w.set.clients)) ≡ times c (conns w.set.clients)
  seen-conns key now c = ap (times c) (conns-set_seen key now w.set.clients)

  pub touched-IsSound :
      (key : Bytes) (now : ℕ) (o : Option UdpClient) (dial : Option ℕ)
      → w.phase ≡ reading
      → lookup key (set_seen key now w.set.clients) ≡ o
      → IsSound max
          (at_touch w key (record w.set { clients = set_seen key now w.set.clients }, o) dial)
  unfolding times
  touched-IsSound key now (some u) dial e g = record {
    counted = λ c. omega (arith, in_phase reading e c, seen-conns key now c);
    few = omega (arith, length-set_seen key now w.set.clients, h.few);
    same_max = h.same_max;
    fits = tt;
  }
  touched-IsSound key now none none e g = rw e (record {
    counted = λ c. omega (arith, in_phase reading e c, seen-conns key now c);
    few = omega (arith, length-set_seen key now w.set.clients, h.few);
    same_max = h.same_max;
    fits = tt;
  })
  touched-IsSound key now none (some conn) e g = record {
    counted = λ c. omega (arith, in_phase reading e c, seen-conns key now c);
    few = omega (arith, length-set_seen key now w.set.clients, h.few);
    same_max = h.same_max;
    fits = g;
  }

  pub add-IsSound :
      (key : Bytes) (conn now : ℕ)
      → w.phase ≡ dialed key conn
      → IsSound max (at_add w key conn (add w.set key conn now))
  unfolding add times conns
  add-IsSound key conn now e = elim (Bool-cases (leb w.set.max (length w.set.clients))) [
    | inl full ↦ rw full (record {
      counted = λ c. omega (
        arith,
        in_phase (dialed key conn) e c,
        times-remove c conn w.opened
            (is_in-times conn w.opened (ground (arith, in_phase (dialed key conn) e conn))),
      );
      few = h.few;
      same_max = h.same_max;
      fits = tt;
    })
    | inr room ↦
        rw (room, erase_missing key w.set.clients (Fits-phase (dialed key conn) e))
          (record {
            counted = λ c. omega (arith, in_phase (dialed key conn) e c);
            few = let same = h.same_max in ground arith;
            same_max = h.same_max;
            fits = tt;
          })
  ]

  -- The write to a socket, whose client may be gone by now.
  pub written-IsSound :
      (key : Bytes) (conn : ℕ)
      → w.phase ≡ writing key conn
      → IsSound max (record w { phase = reading })
  written-IsSound key conn e = record {
    counted = λ c. in_phase (writing key conn) e c;
    few = h.few;
    same_max = h.same_max;
    fits = tt;
  }

  pub stopped-IsSound :
      w.phase ≡ reading → w.set.clients ≡ [] → IsSound max (record w { phase = stopped })
  stopped-IsSound e g = record {
    counted = λ c. in_phase reading e c;
    few = h.few;
    same_max = h.same_max;
    fits = g;
  }

  pub close-IsSound :
      (conn : ℕ)
      → is_in conn w.closing ≡ true
      → IsSound max (record w { opened = remove conn w.opened; closing = remove conn w.closing })
  close-IsSound conn e = record {
    counted = λ c. omega (
      arith,
      times-remove c conn w.closing e,
      times-remove c conn w.opened
          (is_in-times conn w.opened (omega (arith, h.counted conn, times-is_in conn w.closing e))),
      h.counted c,
    );
    few = h.few;
    same_max = h.same_max;
    fits = h.fits;
  }
