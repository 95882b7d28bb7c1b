-- ===== src/Forward/Socket/Clients/Counting.antt =====
-- What the operations on the set do to the sockets in it: how often each is there, and how many
-- clients there are.
use qnatter.Common.{
  ℕ, suc, ◌+◌, ◌≤◌, ◌≡◌, refl, ap, arith, none, some, List, [], ◌∷◌, ◌++◌, leb, ◌==◌, length,
  if◌then◌else◌, Bytes, bytes_eq, Bool-cases, inl, inr,
}
use qnatter.Forward.Socket.Clients.{UdpClient, Clients, lookup, erase, set_seen, expire, conns}

-- One if both are the same.
abbrev pub one : ℕ → ℕ → ℕ
one c d = if d == c then 1 else 0

unfoldable pub times : ℕ → List ℕ → ℕ
times c [] = 0
times c (d ∷ ds) = one c d + times c ds

pub times-append : (c : ℕ) (xs ys : List ℕ) → times c (xs ++ ys) ≡ times c xs + times c ys
unfolding times
times-append c [] ys = omega arith
times-append c (x ∷ xs) ys = omega (arith, times-append c xs ys)

pub conns-set_seen :
    (key : Bytes) (now : ℕ) (clients : Clients) → conns (set_seen key now clients) ≡ conns clients
unfolding conns set_seen
conns-set_seen key now [] = refl
conns-set_seen key now ((k, c) ∷ clients) = elim (Bool-cases (bytes_eq k key)) [
  | inl h ↦ rw h refl
  | inr h ↦ rw h (ap (λ cs. c.conn ∷ cs) (conns-set_seen key now clients))
]

pub length-conns : (clients : Clients) → length (conns clients) ≡ length clients
unfolding conns
length-conns [] = refl
length-conns ((k, c) ∷ clients) = ap suc (length-conns clients)

pub times-erase :
    (c : ℕ) (key : Bytes) (clients : Clients) (u : UdpClient)
    → lookup key clients ≡ some u
    → times c (conns (erase key clients)) + one c u.conn ≡ times c (conns clients)
unfolding times conns erase lookup
times-erase c key [] u h = cc
times-erase c key ((k, v) ∷ clients) u h = elim (Bool-cases (bytes_eq k key)) [
  | inl e ↦
      let same : some v ≡ some u = rw e at h in let v_u : v ≡ u = cc in rw (e, v_u) (omega arith)
  | inr e ↦ rw e (omega (arith, times-erase c key clients u (rw e at h)))
]

pub length-erase : (key : Bytes) (clients : Clients) → length (erase key clients) ≤ length clients
unfolding erase
length-erase key [] = omega arith
length-erase key ((k, v) ∷ clients) = ground (arith, length-erase key clients)

pub erase_missing :
    (key : Bytes) (clients : Clients) → lookup key clients ≡ none → erase key clients ≡ clients
unfolding erase lookup
erase_missing key [] h = refl
erase_missing key ((k, v) ∷ clients) h = elim (Bool-cases (bytes_eq k key)) [
  | inl e ↦ cc (rw e at h)
  | inr e ↦ rw e (ap (λ cs. (k, v) ∷ cs) (erase_missing key clients (rw e at h)))
]

-- A key that is missing stays missing.
pub lookup-erase :
    (key k : Bytes) (clients : Clients)
    → lookup key clients ≡ none
    → lookup key (erase k clients) ≡ none
unfolding erase lookup
lookup-erase key k [] h = refl
lookup-erase key k ((k', v) ∷ clients) h = elim (Bool-cases (bytes_eq k' key)) [
  | inl e ↦ cc (rw e at h)
  | inr e ↦ elim (Bool-cases (bytes_eq k' k)) [
    | inl f ↦ rw f (rw e at h)
    | inr f ↦ rw (f, e) (lookup-erase key k clients (rw e at h))
  ]
]

module _ (idle now : ℕ) where
  pub times-expire :
      (c : ℕ) (clients : Clients)
      → times c (conns (expire idle now clients).0) + times c (expire idle now clients).1
        ≡ times c (conns clients)
  unfolding times conns expire
  times-expire c [] = refl
  times-expire c ((k, v) ∷ clients) = ground (arith, times-expire c clients)

  pub length-expire : (clients : Clients) → length (expire idle now clients).0 ≤ length clients
  unfolding expire
  length-expire [] = omega arith
  length-expire ((k, v) ∷ clients) = ground (arith, length-expire clients)

  pub lookup-expire :
      (key : Bytes) (clients : Clients)
      → lookup key clients ≡ none
      → lookup key (expire idle now clients).0 ≡ none
  unfolding lookup expire
  lookup-expire key [] h = refl
  lookup-expire key ((k, v) ∷ clients) h = elim (Bool-cases (bytes_eq k key)) [
    | inl e ↦ cc (rw e at h)
    | inr e ↦ elim (Bool-cases (leb (v.seen + idle) now)) [
      | inl f ↦ rw f (lookup-expire key clients (rw e at h))
      | inr f ↦ rw (f, e) (lookup-expire key clients (rw e at h))
    ]
  ]
