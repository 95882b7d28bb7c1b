-- ===== src/Upnp/Discovery/Quotas/Good.antt =====
-- The state of the search: its locations, its senders and what is known of them.
use qnatter.Common.{
  ℕ, ◌≤◌, ◌≡◌, refl, arith, Bool, true, false, not, ◌&&◌, ◌||◌, Option, none, some, List, [], ◌∷◌,
  ◌++◌, length, leb, Bytes, bytes_eq_iff, if◌then◌else◌, Bool-cases, inl, inr, All, All-append,
  All-map,
}
use qnatter.Upnp.Device.{Location}
use qnatter.Upnp.Discovery.{
  Resolver, State, add_location, add_source, counted, max_ssdp_sources, has_source, has_location,
  location_eq,
}
use qnatter.Upnp.Discovery.Origin.{IsTrusted, IsFrom}

location_eq_sym : (a b : Location) → location_eq a b ≡ location_eq b a
location_eq_sym a b = ground (
  arith,
  bytes_eq_iff a.ip b.ip,
  bytes_eq_iff b.ip a.ip,
  bytes_eq_iff a.url b.url,
  bytes_eq_iff b.url a.url,
)

has_location-append :
    (l m : Location) (ls : List Location)
    → has_location l (ls ++ (m ∷ [])) ≡ (location_eq m l || has_location l ls)
unfolding has_location
has_location-append l m [] = refl
has_location-append l m (x ∷ ls) = ground (arith, has_location-append l m ls)

-- No location stands twice, by the test of the code.
abbrev pub Distinct : List Location → Type 0
Distinct [] = Unit
Distinct (l ∷ ls) = (has_location l ls ≡ false) × Distinct ls

Distinct-append :
    (l : Location) (ls : List Location)
    → has_location l ls ≡ false
    → Distinct ls
    → Distinct (ls ++ (l ∷ []))
unfolding has_location
Distinct-append l [] h d = (refl, tt)
Distinct-append l (x ∷ ls) h d = (
  ground (arith, has_location-append x l ls, location_eq_sym l x, h, d.0),
  Distinct-append l ls (ground (arith, h)) d.1,
)

has_source_first : (ip : Bytes) (sources : List Bytes) → has_source ip (ip ∷ sources) ≡ true
unfolding has_source
has_source_first ip sources = ground (arith, bytes_eq_iff ip ip)

has_source_more :
    (ip other : Bytes) (sources : List Bytes)
    → has_source ip sources ≡ true
    → has_source ip (other ∷ sources) ≡ true
unfolding has_source
has_source_more ip other sources h = ground (arith, h)

-- The locations so far are trusted and different, and their senders are among a few.
pub record IsGood (r : Resolver) (st : State) : Type 0 where
  pub trusted : All (IsTrusted r) st.locations
  pub known : All (λ l. has_source l.ip st.sources ≡ true) st.locations
  pub few : length st.sources ≤ max_ssdp_sources
  pub same_seen : (l : Location) → has_location l st.seen ≡ has_location l st.locations
  pub distinct : Distinct st.locations

module _ (r : Resolver) where
  pub add_location-IsGood :
      (st : State) (ip : Bytes) (o : Option Location)
      → IsFrom r ip o
      → has_source ip st.sources ≡ true
      → IsGood r st
      → IsGood r (add_location st o)
  unfolding has_location
  add_location-IsGood st ip none h k g = g
  add_location-IsGood st ip (some l) h k g = elim (Bool-cases (has_location l st.seen)) [
    | inl old ↦ rw old g
    | inr new ↦ rw new (record {
      trusted = All-append (IsTrusted r) st.locations (l ∷ []) g.trusted (h.1, tt);
      known = All-append _ st.locations (l ∷ []) g.known (rw h.0 k, tt);
      few = g.few;
      same_seen = λ m. rw (has_location-append m l st.locations, g.same_seen m) refl;
      distinct = Distinct-append l st.locations (rw (← g.same_seen l) new) g.distinct;
    })
  ]

  pub add_source-IsGood :
      (st : State) (ip : Bytes)
      → (not (has_source ip st.sources) && leb max_ssdp_sources (length st.sources)) ≡ false
      → IsGood r st
      → IsGood r (add_source st ip) × (has_source ip (add_source st ip).sources ≡ true)
  add_source-IsGood st ip room g = elim (Bool-cases (has_source ip st.sources)) [
    | inl h ↦ rw h (g, h)
    | inr h ↦ rw h (
      record {
        trusted = g.trusted;
        known =
            All-map _ (λ l. has_source l.ip (ip ∷ st.sources) ≡ true)
              (λ l k. has_source_more l.ip ip st.sources k) st.locations g.known;
        few = ground arith;
        same_seen = g.same_seen;
        distinct = g.distinct;
      },
      has_source_first ip st.sources,
    )
  ]

  -- The buffer and the replies do not matter.
  pub resized : (st : State) (n : ℕ) → IsGood r st → IsGood r (record st { buffer = n })
  resized st n g = record {
    trusted = g.trusted;
    known = g.known;
    few = g.few;
    same_seen = g.same_seen;
    distinct = g.distinct;
  }

  pub recounted : (st : State) → IsGood r st → IsGood r (counted st)
  recounted st g = record {
    trusted = g.trusted;
    known = g.known;
    few = g.few;
    same_seen = g.same_seen;
    distinct = g.distinct;
  }

  pub IsGood-if :
      (b : Bool) (x y : State)
      → (b ≡ true → IsGood r x)
      → (b ≡ false → IsGood r y)
      → IsGood r (if b then x else y)
  IsGood-if true x y h k = h refl
  IsGood-if false x y h k = k refl
