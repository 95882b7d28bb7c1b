-- ===== src/Stun/Client/Rounds/Reasons.antt =====
-- What `GetMapping` reports when every server fails.
use qnatter.Common.{
  ℕ, suc, ◌+◌, ◌≤◌, ◌≡◌, ◌≢◌, refl, sym, ap, ◌∙◌, arith, Bool, true, false, not, ◌||◌, List, [],
  ◌∷◌, append-nil, err, ◌==◌, if◌then◌else◌, length,
}
use qnatter.Errors.{Cause, errors_is, no_server_available, addr_not_avail, no_dev}
use qnatter.Net.{AddrPort, is_valid}
use qnatter.Stun.Mapping.{Server}
use qnatter.Stun.Client.{
  Network, Client, Failures, no_failures, give_up, Attempt, no_txid, no_exchange, no_parse, mapped,
  broken, attempt, attempts, get_mapping, prepared,
}
use qnatter.Stun.Client.Rounds.{moves_on, tally, AllFail, tally_all, behind}

or_assoc : (x y z : Bool) → ((x || y) || z) ≡ (x || (y || z))
or_assoc true y z = refl
or_assoc false y z = refl

not_valid : (b : Bool) (x y : AddrPort) → (if not b then x else y) ≡ (if b then y else x)
not_valid true x y = refl
not_valid false x y = refl

give_up-reports :
    (c : Client) (f : Failures) (x y : Bool)
    → (f.total == 0) ≡ false
    → f.address_unavailable ≡ x
    → f.device_unavailable ≡ y
    → give_up c f ≡ (
      record c { source = if x || y then c.initial_source else c.source },
      err (
          no_server_available ∷ (if x then addr_not_avail ∷ [] else if y then no_dev ∷ [] else [])),
    )
unfolding give_up
give_up-reports c f true y t e g = rw (t, e) refl
give_up-reports c f false true t e g = rw (t, e, g) refl
give_up-reports c f false false t e g = rw (t, e, g) refl

total-le :
    (n : Network) (c : Client) (i : ℕ) (f : Failures) (servers : List Server)
    → AllFail n c i servers
    → f.total + length servers ≤ (tally_all n c i f servers).total
total-le n c i f [] h = omega arith
total-le n c i f (server ∷ rest) h = omega (
  arith,
  one (attempt n i c.udp c.source server) h.0,
  total-le n c (suc i) (tally f (attempt n i c.udp c.source server)) rest h.1,
)
  where
    one : (a : Attempt) → moves_on a ≡ true → (tally f a).total ≡ f.total + 1
    one (no_exchange e) q = refl
    one (no_parse e) q = refl
    one no_txid q = cc
    one (mapped m) q = cc
    one (broken o) q = cc

module _ (n : Network) (c : Client) where
  abbrev total_failures : Failures
  total_failures = tally_all n c 0 no_failures c.servers

  -- An attempt failed with an error that `errors.Is` finds `cause` in.
  abbrev pub says : Cause → Attempt → Bool
  says cause (no_exchange e) = errors_is e cause
  says cause _ = false

  -- One of the attempts did, of those on the servers of a list, from attempt `i` on.
  abbrev pub any_says : Cause → ℕ → List Server → Bool
  any_says cause i [] = false
  any_says cause i (server ∷ rest) =
      says cause (attempt n i c.udp c.source server) || any_says cause (suc i) rest

  one_says :
      (f : Failures) (a : Attempt)
      → moves_on a ≡ true
      → ((tally f a).address_unavailable ≡ (f.address_unavailable || says addr_not_avail a))
        × ((tally f a).device_unavailable ≡ (f.device_unavailable || says no_dev a))
  one_says f (no_exchange e) h = (refl, refl)
  one_says f (no_parse e) h = (ground arith, ground arith)
  one_says f no_txid h = cc
  one_says f (mapped m) h = cc
  one_says f (broken o) h = cc

  tally_all-any_says :
      (i : ℕ) (f : Failures) (servers : List Server)
      → AllFail n c i servers
      → ((tally_all n c i f servers).address_unavailable
          ≡ (f.address_unavailable || any_says addr_not_avail i servers))
        × ((tally_all n c i f servers).device_unavailable
            ≡ (f.device_unavailable || any_says no_dev i servers))
  tally_all-any_says i f [] h = (ground arith, ground arith)
  tally_all-any_says i f (server ∷ rest) h =
      let a = attempt n i c.udp c.source server in
      let one = one_says f a h.0 in
      let later = tally_all-any_says (suc i) (tally f a) rest h.1 in
      (
        later.0
            ∙ ap (λ b. b || any_says addr_not_avail (suc i) rest) one.0
            ∙ or_assoc f.address_unavailable (says addr_not_avail a)
                (any_says addr_not_avail (suc i) rest),
        later.1
            ∙ ap (λ b. b || any_says no_dev (suc i) rest) one.1
            ∙ or_assoc f.device_unavailable (says no_dev a) (any_says no_dev (suc i) rest),
      )

  -- The local address that the client began with, by its first call of `GetMapping`.
  abbrev pub first_source : AddrPort
  first_source = if is_valid c.initial_source then c.initial_source else c.source

  -- What the error of a call in which all attempts fail has besides `ErrNoServerAvailable`.
  abbrev pub reason : List Cause
  reason =
      if any_says addr_not_avail 0 c.servers
      then addr_not_avail ∷ []
      else if any_says no_dev 0 c.servers
      then no_dev ∷ []
      else []

  -- When every server fails, the error says that none is available, and that the local address or
  -- else the device is gone if any of the attempts failed with an error that says so. In these two
  -- cases the client goes back to the source that it began with, and otherwise keeps its source. The
  -- server list is in its old order.
  pub get_mapping_none :
      c.servers ≢ []
      → AllFail n c 0 c.servers
      → get_mapping n c ≡ (
        record c {
          initial_source = first_source;
          source =
              if any_says addr_not_avail 0 c.servers || any_says no_dev 0 c.servers
              then first_source
              else c.source;
        },
        err (no_server_available ∷ reason),
      )
  unfolding attempts
  get_mapping_none some_server h =
      behind n c c.servers [] (sym (append-nil c.servers))
        (λ q. some_server (sym (append-nil c.servers) ∙ q)) h
      ∙ given_up
    where
      counted :
          (servers : List Server)
          → servers ≢ []
          → AllFail n c 0 servers
          → ((tally_all n c 0 no_failures servers).total == 0) ≡ false
      counted [] q a = absurd (q refl)
      counted (x ∷ xs) q a = ground (arith, total-le n c 0 no_failures (x ∷ xs) a)

      given_up : give_up (prepared c) total_failures ≡ (
        record c {
          initial_source = first_source;
          source =
              if any_says addr_not_avail 0 c.servers || any_says no_dev 0 c.servers
              then first_source
              else c.source;
        },
        err (no_server_available ∷ reason),
      )
      given_up =
          let seen = tally_all-any_says 0 no_failures c.servers h in
          give_up-reports (prepared c) total_failures (any_says addr_not_avail 0 c.servers)
            (any_says no_dev 0 c.servers) (counted c.servers some_server h) seen.0 seen.1
          ∙ ap
              (λ s. (
                record c {
                  initial_source = s;
                  source =
                      if any_says addr_not_avail 0 c.servers || any_says no_dev 0 c.servers
                      then s
                      else c.source;
                },
                err (no_server_available ∷ reason),
              ))
              (not_valid (is_valid c.initial_source) c.source c.initial_source)
