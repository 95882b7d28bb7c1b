-- ===== src/Upnp/Discovery/Quotas/Sources.antt =====
-- Where the locations come from: each names a host that is its sender, and there are few senders.
use qnatter.Common.{
  sym, ◌∙◌, ℕ, zero, suc, ◌≤◌, ◌≡◌, refl, ap, arith, Bool, true, false, not, ◌&&◌, ◌||◌, Option,
  none, some, List, [], ◌∷◌, Outcome, ok, length, take, leb, ltb, Bytes, if◌then◌else◌, All,
  All-map, split_at,
}
use mathlib.Core.List.{Memᴰ}
use qnatter.Upnp.Discovery.Sender.{
  IsSent, same_location_host-IsSent, has_source-Memᴰ, Memᴰ-has_location,
}
use qnatter.Upnp.Discovery.Quotas.Good.{
  Distinct, IsGood, add_location-IsGood, add_source-IsGood, resized, recounted, IsGood-if,
}
use qnatter.Errors.{Error}
use qnatter.Upnp.Device.{Location}
use qnatter.Upnp.Discovery.Quotas.{accept-IsStep}
use qnatter.Upnp.Discovery.{
  Resolver, State, Round, Read, timed_out, read_failed, datagram, accept, add_location, add_source,
  counted, grown, after_read, discover_loop, discover_locations, enough_rounds, first_state,
  max_ssdp_replies, max_ssdp_locations, max_ssdp_sources, max_ssdp_datagram, parse_ssdp_response,
  read_lines, has_source, same_location_host,
}
use qnatter.Upnp.Discovery.Origin.{
  IsTrusted, IsFrom, read_lines-IsFrom, parse_ssdp_response-IsFrom, same_location_host_empty,
}

-- No location stands twice.
abbrev pub AreDifferent : List Location → Type 0
AreDifferent [] = Unit
AreDifferent (l ∷ ls) = (¬ Memᴰ l ls) × AreDifferent ls

Distinct-AreDifferent : (ls : List Location) → Distinct ls → AreDifferent ls
Distinct-AreDifferent [] h = tt
Distinct-AreDifferent (l ∷ ls) h =
    ((λ m. cc (sym (Memᴰ-has_location l ls m) ∙ h.0)), Distinct-AreDifferent ls h.1)

-- At most 64 different locations, of at most 16 senders, each naming a host that is its sender.
pub record IsTame (r : Resolver) (locations : List Location) (sources : List Bytes) : Type 0 where
  pub few : length locations ≤ 64
  pub different : AreDifferent locations
  pub sent : All (IsSent r) locations
  pub few_sources : length sources ≤ 16
  pub known : All (λ l. Memᴰ l.ip sources) locations

abbrev pub Kept : Resolver → List Location → Type 0
Kept r locations = (sources : List Bytes) × IsTame r locations sources

IsGood-Kept :
    (r : Resolver) (st : State)
    → IsGood r st
    → length st.locations ≤ max_ssdp_locations
    → Kept r st.locations
IsGood-Kept r st g h = (
  st.sources,
  record {
    few = h;
    different = Distinct-AreDifferent st.locations g.distinct;
    sent = All-map (IsTrusted r) (IsSent r) (same_location_host-IsSent r) st.locations g.trusted;
    few_sources = g.few;
    known =
        All-map _ (λ l. Memᴰ l.ip st.sources) (λ l. has_source-Memᴰ l.ip st.sources) st.locations
          g.known;
  },
)

module _ (r : Resolver) (no_ip : r.parse_ip [] ≡ none) where
  from_nowhere : (data_ : Bytes) → parse_ssdp_response r data_ [] ≡ none
  unfolding parse_ssdp_response
  from_nowhere data_ =
      by_option (read_lines r [] (split_at 10 data_)) (read_lines-IsFrom r [] (split_at 10 data_))
    where
      by_option : (o : Option Location) → IsFrom r [] o → o ≡ none
      by_option none h = refl
      by_option (some l) h = cc (
        same_location_host_empty r [] l.url no_ip,
        ap (λ ip. same_location_host r ip l.url) h.0,
        h.1,
      )

  accept-IsGood : (st : State) (ip data_ : Bytes) → IsGood r st → IsGood r (accept r st ip data_)
  unfolding accept
  accept-IsGood st [] data_ g =
      IsGood-if r (leb st.buffer (length (take st.buffer data_)) && ltb st.buffer max_ssdp_datagram)
        (record st { buffer = grown st.buffer })
        (add_location st (parse_ssdp_response r (take st.buffer data_) []))
        (λ _. resized r st (grown st.buffer) g) (λ _. rw (from_nowhere (take st.buffer data_)) g)
  accept-IsGood st (c ∷ ip) data_ g =
      let found = parse_ssdp_response r (take st.buffer data_) (c ∷ ip) in
      IsGood-if r (leb st.buffer (length (take st.buffer data_)) && ltb st.buffer max_ssdp_datagram)
        (record st { buffer = grown st.buffer }) _ (λ _. resized r st (grown st.buffer) g)
        λ _.
          IsGood-if r
            (not (has_source (c ∷ ip) st.sources) && leb max_ssdp_sources (length st.sources)) st
            (add_location (add_source st (c ∷ ip)) found) (λ _. g)
            λ room.
              let added = add_source-IsGood r st (c ∷ ip) room g in
              add_location-IsGood r (add_source st (c ∷ ip)) (c ∷ ip) found
                (parse_ssdp_response-IsFrom r (take st.buffer data_) (c ∷ ip)) added.1 added.0

  -- What is said of the locations that come back.
  abbrev Promise : Outcome Error (List Location) → Type 0
  Promise (ok locations) = Kept r locations
  Promise _ = Unit

  Promise-if :
      (b : Bool) (x y : Outcome Error (List Location))
      → (b ≡ true → Promise x)
      → (b ≡ false → Promise y)
      → Promise (if b then x else y)
  Promise-if true x y h k = h refl
  Promise-if false x y h k = k refl

  after_read-Promise :
      (read : Read) (st : State) (next : State → Outcome Error (List Location))
      → Kept r st.locations
      → ((ip data_ : Bytes) → Promise (next (accept r (counted st) ip data_)))
      → Promise (after_read r st read next)
  after_read-Promise timed_out st next h k = h
  after_read-Promise read_failed st next h k = tt
  after_read-Promise (datagram ip data_) st next h k = k ip data_

  discover_loop-Promise :
      (rounds : ℕ → Round) (fuel i : ℕ) (st : State)
      → IsGood r st
      → length st.locations ≤ max_ssdp_locations
      → Promise (discover_loop r rounds fuel i st)
  unfolding discover_loop
  discover_loop-Promise rounds zero i st g h = tt
  discover_loop-Promise rounds (suc fuel) i st g h =
      Promise-if (rounds i).cancelled _ _ (λ _. IsGood-Kept r st g h)
        λ _.
          Promise-if
            (leb max_ssdp_replies st.replies || leb max_ssdp_locations (length st.locations)) _ _
            (λ _. IsGood-Kept r st g h)
            λ more.
              after_read-Promise (rounds i).read st (discover_loop r rounds fuel (suc i))
                (IsGood-Kept r st g h)
                λ ip data_.
                  let step = accept-IsStep r (counted st) ip data_ in
                  discover_loop-Promise rounds fuel (suc i) (accept r (counted st) ip data_)
                    (accept-IsGood (counted st) ip data_ (recounted r st g))
                    (ground (arith, step.1))

  discover_locations-Promise :
      (deadline first_sent second_sent : Bool) (rounds : ℕ → Round)
      → Promise (discover_locations r deadline first_sent second_sent rounds)
  unfolding discover_locations
  discover_locations-Promise deadline first_sent second_sent rounds =
      Promise-if (not deadline) _ _ (λ _. tt)
        λ _.
          Promise-if (not first_sent || not second_sent) _ _ (λ _. tt)
            λ _.
              discover_loop-Promise rounds enough_rounds 0 first_state
                (record {
                  trusted = tt;
                  known = tt;
                  few = omega arith;
                  same_seen = λ l. refl;
                  distinct = tt;
                })
                (omega arith)

-- If the empty text is no IP address, the locations that `DiscoverLocations` returns are at most 64
-- and different, their senders are among at most 16 texts, and each is an address of HTTP or HTTPS
-- whose host is the sender of the response, as an IP address or as a name one of whose addresses is
-- the sender's, whatever arrives at the socket.
pub discover_locations-Kept :
    (r : Resolver) (deadline first_sent second_sent : Bool) (rounds : ℕ → Round)
    (locations : List Location)
    → r.parse_ip [] ≡ none
    → discover_locations r deadline first_sent second_sent rounds ≡ ok locations
    → Kept r locations
discover_locations-Kept r deadline first_sent second_sent rounds locations no_ip e =
    rw e at (discover_locations-Promise r no_ip deadline first_sent second_sent rounds)
