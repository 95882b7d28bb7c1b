-- ===== src/Endpoint/Safety.antt =====
-- Reading an endpoint never panics, and what it gives is a host and a port.
use qnatter.Common.{
  ℕ, suc, ◌+◌, ◌≤◌, ◌<◌, ◌≡◌, ◌≢◌, refl, arith, not, Option, none, some, [], ◌∷◌, Returns, value,
  error, ◌==◌, if◌then◌else◌, length, Bytes, Returns-slice, Returns-if,
}
use qnatter.Config.Numbers.{parse_port}
use qnatter.Endpoint.{
  invalid_port, last_index, shifted, count, require_host, with_parsed, behind_bracket, bracketed,
  at_colon, split_host_port_default,
}

last_index-lt : (c : ℕ) (s : Bytes) (i : ℕ) → last_index c s ≡ some i → i < length s
unfolding last_index
last_index-lt c [] i h = cc
last_index-lt c (x ∷ s) i h = bound (last_index c s) (last_index-lt c s) h
  where
    bound :
        (o : Option ℕ)
        → ((j : ℕ) → o ≡ some j → j < length s)
        → shifted (x == c) o ≡ some i
        → i < suc (length s)
    bound none k e = ground arith
    bound (some j) k e = ground (arith, k j refl)

count-last_index : (c : ℕ) (s : Bytes) → last_index c s ≡ none → count c s ≡ 0
unfolding last_index count
count-last_index c [] h = refl
count-last_index c (x ∷ s) h = none_found (last_index c s) (count-last_index c s) h
  where
    none_found :
        (o : Option ℕ)
        → (o ≡ none → count c s ≡ 0)
        → shifted (x == c) o ≡ none
        → (if x == c then suc (count c s) else count c s) ≡ 0
    none_found none k e = ground (arith, k refl)
    none_found (some j) k e = cc

require_host-Returns : (host : Bytes) (port : ℕ) → Returns (require_host host port)
unfolding require_host
require_host-Returns [] port = error _
require_host-Returns (c ∷ host) port = value _

with_parsed-Returns : (host : Bytes) (p : Option ℕ) → Returns (with_parsed host p)
unfolding with_parsed
with_parsed-Returns host none = error _
with_parsed-Returns host (some port) = require_host-Returns host port

behind_bracket-Returns : (host rest : Bytes) (port : ℕ) → Returns (behind_bracket host rest port)
unfolding behind_bracket
behind_bracket-Returns host [] port = require_host-Returns host port
behind_bracket-Returns host (c ∷ rest) port =
    Returns-if (not (c == b':')) (λ _. error invalid_port)
      (λ _. with_parsed-Returns host (parse_port rest))

at_colon-Returns :
    (s : Bytes) (o : Option ℕ)
    → o ≢ none
    → ((i : ℕ) → o ≡ some i → i < length s)
    → Returns (at_colon s o)
unfolding at_colon
at_colon-Returns s none some_colon inside = absurd (some_colon refl)
at_colon-Returns s (some i) some_colon inside =
    let low = inside i refl in
    Returns-slice s 0 i (omega arith) (omega arith) λ host _.
      Returns-slice s (i + 1) (length s) (omega arith) (omega arith)
        λ rest _. with_parsed-Returns host (parse_port rest)

bracketed-Returns :
    (s : Bytes) (port : ℕ) (o : Option ℕ)
    → ((i : ℕ) → o ≡ some i → (1 ≤ i) × (i < length s))
    → Returns (bracketed s port o)
unfolding bracketed
bracketed-Returns s port none inside = error _
bracketed-Returns s port (some i) inside =
    let low = inside i refl in
    Returns-slice s 1 i (omega arith) (omega arith) λ host _.
      Returns-slice s (i + 1) (length s) (omega arith) (omega arith)
        λ rest _. behind_bracket-Returns host rest port

-- A closing bracket behind an opening one.
last_index-pos :
    (c : ℕ) (s : Bytes) (i : ℕ)
    → c ≡ b'['
    → last_index b']' (c ∷ s) ≡ some i
    → (1 ≤ i) × (i < suc (length s))
unfolding last_index
last_index-pos c s i e h = found (last_index b']' s) (last_index-lt b']' s) h
  where
    found :
        (o : Option ℕ)
        → ((j : ℕ) → o ≡ some j → j < length s)
        → shifted (c == b']') o ≡ some i
        → (1 ≤ i) × (i < suc (length s))
    found none k q = ground arith
    found (some j) k q = ground (arith, k j refl)

-- Whatever the text is, `SplitHostPortDefault` gives an endpoint or an error: its slices are never
-- out of range.
pub split_host_port_default-Returns :
    (s : Bytes) (port : ℕ) → Returns (split_host_port_default s port)
unfolding split_host_port_default
split_host_port_default-Returns [] port = error _
split_host_port_default-Returns (c ∷ s) port =
    Returns-if (c == b'[')
      (λ open_bracket.
        bracketed-Returns (c ∷ s) port (last_index b']' (c ∷ s))
          (λ i e. last_index-pos c s i (ground arith) e))
      λ plain.
        Returns-if (count b':' (c ∷ s) == 1)
          (λ one.
            at_colon-Returns (c ∷ s) (last_index b':' (c ∷ s))
              (λ e. ground (arith, count-last_index b':' (c ∷ s) e)) (last_index-lt b':' (c ∷ s)))
          (λ more. require_host-Returns (c ∷ s) port)
