-- ===== src/Stun/Transport/Segments.antt =====
-- A response over TCP is read whole, however the stream is cut into segments.
use qnatter.Common.{
  ℕ, zero, suc, ◌+◌, ◌-◌, ◌≤◌, ◌≡◌, refl, sym, ap, ◌∙◌, arith, false, some, List, [], ◌∷◌, ◌++◌,
  append-nil, ok, ltb, leb, le→ltb, ◌==◌, length, length-append, length-take, length-drop, take,
  drop, take-append, Bytes, slice-eq_ok, uint16, Bool-cases, inl, inr,
}
use qnatter.Errors.{Error}
use qnatter.Stun.Transport.{read_full, read_response, sized, max_message_size}

-- All that the reads give.
unfoldable pub joined : List Bytes → Bytes
joined [] = []
joined (chunk ∷ chunks) = chunk ++ joined chunks

take-beyond :
    (n : ℕ) (xs ys : Bytes) → length xs ≤ n → take n (xs ++ ys) ≡ xs ++ take (n - length xs) ys
take-beyond n [] ys h = ap (λ k. take k ys) (omega arith)
take-beyond zero (x ∷ xs) ys h = ground arith
take-beyond (suc n) (x ∷ xs) ys h =
    let e : n - length xs ≡ suc n - suc (length xs) = omega arith in
    ap (λ zs. x ∷ zs) (take-beyond n xs ys (omega arith) ∙ ap (λ k. xs ++ take k ys) e)

drop-beyond : (n : ℕ) (xs ys : Bytes) → length xs ≤ n → drop n (xs ++ ys) ≡ drop (n - length xs) ys
drop-beyond n [] ys h = ap (λ k. drop k ys) (omega arith)
drop-beyond zero (x ∷ xs) ys h = ground arith
drop-beyond (suc n) (x ∷ xs) ys h =
    let e : n - length xs ≡ suc n - suc (length xs) = omega arith in
    drop-beyond n xs ys (omega arith) ∙ ap (λ k. drop k ys) e

take-within : (n : ℕ) (xs ys : Bytes) → n ≤ length xs → take n (xs ++ ys) ≡ take n xs
take-within zero xs ys h = refl
take-within (suc n) [] ys h = ground arith
take-within (suc n) (x ∷ xs) ys h = ap (λ zs. x ∷ zs) (take-within n xs ys (omega arith))

drop-within : (n : ℕ) (xs ys : Bytes) → n ≤ length xs → drop n (xs ++ ys) ≡ drop n xs ++ ys
drop-within zero xs ys h = refl
drop-within (suc n) [] ys h = ground arith
drop-within (suc n) (x ∷ xs) ys h = drop-within n xs ys (omega arith)

not_zero : (n : ℕ) → (suc n == 0) ≡ false
not_zero n = ground arith

-- What is read is the front of the stream, and the rest of the stream is left.
read_full-take :
    (n : ℕ) (chunks : List Bytes)
    → n ≤ length (joined chunks)
    → (rest : List Bytes) × (read_full n chunks ≡ some (take n (joined chunks), rest))
      × (joined rest ≡ drop n (joined chunks))
unfolding read_full joined
read_full-take zero [] h = ([], refl, refl)
read_full-take (suc n) [] h = ground arith
read_full-take zero (chunk ∷ chunks) h = (chunk ∷ chunks, refl, refl)
read_full-take (suc n) (chunk ∷ chunks) h = elim (Bool-cases (leb (length chunk) (suc n))) [
  | inl whole ↦
      let fits : length chunk ≤ suc n = ground arith in
      let later =
        read_full-take (suc n - length chunk) chunks
          (omega (arith, length-append chunk (joined chunks))) in
      (
        later.0,
        rw (not_zero n, whole, later.1, take-beyond (suc n) chunk (joined chunks) fits),
        later.2 ∙ sym (drop-beyond (suc n) chunk (joined chunks) fits),
      )
  | inr part ↦
      let fits : suc n ≤ length chunk = ground arith in
      (
        drop (suc n) chunk ∷ chunks,
        rw (not_zero n, part, take-within (suc n) chunk (joined chunks) fits),
        sym (drop-within (suc n) chunk (joined chunks) fits),
      )
]

take-drop : (n : ℕ) (xs : Bytes) → take n xs ++ drop n xs ≡ xs
take-drop zero xs = refl
take-drop (suc n) [] = refl
take-drop (suc n) (x ∷ xs) = ap (λ zs. x ∷ zs) (take-drop n xs)

-- The size field stands in the header.
header_field : (msg : Bytes) → take 2 (drop 2 (take 20 msg)) ≡ take 2 (drop 2 msg)
header_field (a ∷ b ∷ c ∷ d ∷ msg) = refl
header_field [] = refl
header_field (a ∷ []) = refl
header_field (a ∷ b ∷ []) = refl
header_field (a ∷ b ∷ c ∷ []) = refl

module _ (msg : Bytes) (size : ℕ) (whole : length msg ≡ 20 + size) where
  sized_whole :
      (tail : Bytes) (rest : List Bytes)
      → joined rest ≡ drop 20 msg ++ tail
      → 20 + size ≤ max_message_size
      → sized (take 20 msg) rest size ≡ ok msg
  sized_whole tail rest e fits =
      rw (le→ltb max_message_size (20 + size) fits) (elim (Bool-cases (ltb 0 size)) [
        | inl some_body ↦
            let longer = length-append (drop 20 msg) tail in
            let read =
              read_full-take size rest (omega (arith, ap length e, longer, length-drop 20 msg)) in
            let body : take size (joined rest) ≡ drop 20 msg =
              ap (take size) e
              ∙ take-append size (drop 20 msg) tail (omega (arith, length-drop 20 msg)) in
            rw (some_body, read.1, body, take-drop 20 msg)
        | inr no_body ↦
            let empty : 20 ≡ length msg = ground arith in
            rw no_body (ap ok (ap (take 20) (sym (append-nil msg)) ∙ take-append 20 msg [] empty))
      ])

-- A message whose header tells its length, of at most 1500 bytes, is read whole and alone from a
-- TCP connection, however the stream is cut into reads and whatever follows the message.
pub read_response_segments :
    (msg tail : Bytes) (chunks : List Bytes) (size : ℕ)
    → joined chunks ≡ msg ++ tail
    → uint16 {E = Error} (take 2 (drop 2 msg)) ≡ ok size
    → length msg ≡ 20 + size
    → 20 + size ≤ max_message_size
    → read_response false chunks ≡ ok msg
unfolding read_response
read_response_segments msg tail chunks size e field whole fits =
    let read = read_full-take 20 chunks (omega (arith, ap length e, length-append msg tail)) in
    let header : take 20 (joined chunks) ≡ take 20 msg =
      ap (take 20) e ∙ take-within 20 msg tail (omega arith) in
    let left : joined read.0 ≡ drop 20 msg ++ tail =
      read.2 ∙ ap (drop 20) e ∙ drop-within 20 msg tail (omega arith) in
    rw
      (
        read.1,
        header,
        slice-eq_ok {E = Error} (take 20 msg) 2 4 (omega arith) (omega (arith, length-take 20 msg)),
        header_field msg,
        field,
      )
      (sized_whole msg size whole tail read.0 left fits)
