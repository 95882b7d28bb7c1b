-- ===== src/Upnp/Discovery/Quotas.antt =====
-- The bounds of the search for devices, and where its locations come from.
pub mod Good
pub mod Sources
use qnatter.Common.{
  ℕ, zero, suc, ◌+◌, ◌≤◌, ◌<◌, ◌≡◌, refl, arith, Bool, true, false, not, ◌&&◌, ◌||◌, Option, none,
  some, List, [], ◌∷◌, ◌++◌, Outcome, ok, err, Returns, value, error, Returns-if, length,
  length-append, take, leb, leb→le, ltb, Bytes, if◌then◌else◌, Bool-cases, inl, inr,
}
use qnatter.Errors.{Error}
use qnatter.Upnp.Service.{is_empty}
use qnatter.Upnp.Device.{Location}
use qnatter.Upnp.Discovery.{
  Resolver, State, Round, Read, timed_out, read_failed, datagram, accept, add_location, add_source,
  counted, grown, after_read, discover_loop, discover_locations, enough_rounds, first_state,
  max_ssdp_replies, max_ssdp_locations, max_ssdp_sources, max_ssdp_datagram, parse_ssdp_response,
  has_source, has_location,
}

-- A step leaves the number of replies, and adds one location at most.
abbrev pub IsStep : State → State → Type 0
IsStep st st' = (st'.replies ≡ st.replies) × (length st'.locations ≤ length st.locations + 1)

IsStep-if : (b : Bool) (st x y : State) → IsStep st x → IsStep st y → IsStep st (if b then x else y)
IsStep-if true st x y h k = h
IsStep-if false st x y h k = k

add_location-IsStep : (st : State) (o : Option Location) → IsStep st (add_location st o)
add_location-IsStep st none = (refl, omega arith)
add_location-IsStep st (some l) =
    IsStep-if (has_location l st.seen) st _ _ (refl, omega arith)
      (refl, omega (arith, length-append st.locations (l ∷ [])))

add_source-IsStep :
    (st : State) (ip : Bytes) (o : Option Location) → IsStep st (add_location (add_source st ip) o)
add_source-IsStep st ip o = elim (Bool-cases (has_source ip st.sources)) [
  | inl h ↦ rw h (add_location-IsStep st o)
  | inr h ↦ rw h (add_location-IsStep (record st { sources = ip ∷ st.sources }) o)
]

pub accept-IsStep :
    (r : Resolver) (st : State) (ip data_ : Bytes) → IsStep st (accept r st ip data_)
unfolding accept
accept-IsStep r st ip data_ =
    let front = take st.buffer data_ in
    IsStep-if (leb st.buffer (length front) && ltb st.buffer max_ssdp_datagram) st _ _
      (refl, omega arith)
      (IsStep-if (is_empty ip) st _ _ (add_location-IsStep st (parse_ssdp_response r front ip)) (
        IsStep-if (not (has_source ip st.sources) && leb max_ssdp_sources (length st.sources)) st _
          _ (refl, omega arith) (add_source-IsStep st ip (parse_ssdp_response r front ip))))

after_read-Returns :
    (r : Resolver) (st : State) (read : Read) (next : State → Outcome Error (List Location))
    → ((ip data_ : Bytes) → Returns (next (accept r (counted st) ip data_)))
    → Returns (after_read r st read next)
after_read-Returns r st timed_out next h = value _
after_read-Returns r st read_failed next h = error _
after_read-Returns r st (datagram ip data_) next h = h ip data_

discover_loop-Returns :
    (r : Resolver) (rounds : ℕ → Round) (fuel i : ℕ) (st : State)
    → st.replies ≤ max_ssdp_replies
    → max_ssdp_replies < fuel + st.replies
    → Returns (discover_loop r rounds fuel i st)
unfolding discover_loop
discover_loop-Returns r rounds zero i st g h = ground arith
discover_loop-Returns r rounds (suc fuel) i st g h =
    Returns-if (rounds i).cancelled (λ _. value _)
      λ _.
        Returns-if (leb max_ssdp_replies st.replies || leb max_ssdp_locations (length st.locations))
          (λ _. value _)
          λ more.
            after_read-Returns r st (rounds i).read (discover_loop r rounds fuel (suc i))
              λ ip data_.
                let step = accept-IsStep r (counted st) ip data_ in
                let few : st.replies < max_ssdp_replies = ground arith in
                discover_loop-Returns r rounds fuel (suc i) (accept r (counted st) ip data_)
                  (omega (arith, step.0)) (omega (arith, step.0))

-- Whatever the socket gives, `DiscoverLocations` ends: 257 rounds are enough, since each reads a
-- reply and the loop stops at 256 of them.
pub discover_locations-Returns :
    (r : Resolver) (deadline first_sent second_sent : Bool) (rounds : ℕ → Round)
    → Returns (discover_locations r deadline first_sent second_sent rounds)
unfolding discover_locations
discover_locations-Returns r deadline first_sent second_sent rounds =
    Returns-if (not deadline) (λ _. error _)
      λ _.
        Returns-if (not first_sent || not second_sent) (λ _. error _)
          λ _.
            discover_loop-Returns r rounds enough_rounds 0 first_state (omega arith) (omega arith)
