-- ===== src/Check/Message/Keeps.antt =====
-- The parser of the STUN client, one attribute at a time: an address that is found stays.
use qnatter.Common.{
  ℕ, zero, suc, ◌+◌, ◌≡◌, refl, Bool, true, false, not, ◌&&◌, ◌||◌, Option, none, some, Outcome, ok,
  err, panic, stuck, ◌>>=◌, ◌>>◌, ltb, ◌==◌, if◌then◌else◌, length, Bytes, slice, uint16, is_some,
}
use qnatter.Net.{AddrPort}
use qnatter.Stun.Message.{
  ParseError, padded_to_four, xor_mask, parse_address_attribute, read_attribute, attribute_loop,
  verify_fingerprint, attr_mapped_address, attr_xor_mapped_address, attr_fingerprint,
  truncated_padding,
}
use qnatter.Check.Message.{parse_stun_address_attribute}
use qnatter.Check.Message.Agree.{Agree, parse_address_attribute-Agree}

abbrev pub is_address : ℕ → Bool
is_address typ = typ == attr_mapped_address || typ == attr_xor_mapped_address

-- What holds of the result, if there is one.
abbrev Ensures {ℓ} : {A : Type ℓ} → (A → Type 0) → Outcome ParseError A → Type ℓ
Ensures P m = (r : _) → m ≡ ok r → P r

Ensures-if {ℓ} :
    {A : Type ℓ} (P : A → Type 0) {x y : Outcome ParseError A} (b : Bool)
    → (b ≡ true → Ensures P x)
    → (b ≡ false → Ensures P y)
    → Ensures P (if b then x else y)
Ensures-if P true g h = g refl
Ensures-if P false g h = h refl

Ensures-bind {ℓ κ} :
    {A : Type ℓ} {B : Type κ} (P : A → Type 0) {k : B → Outcome ParseError A}
    (m : Outcome ParseError B)
    → ((b : B) → m ≡ ok b → Ensures P (k b))
    → Ensures P (m >>= k)
Ensures-bind P (ok b) g r q = g b refl r q
Ensures-bind P (err e) g r q = cc
Ensures-bind P panic g r q = cc
Ensures-bind P stuck g r q = cc

Ensures-then {ℓ} :
    {A : Type ℓ} (P : A → Type 0) {k : Outcome ParseError A} (m : Outcome ParseError (Unit {0}))
    → Ensures P k
    → Ensures P (m >> k)
Ensures-then P (ok b) g r q = g r q
Ensures-then P (err e) g r q = cc
Ensures-then P panic g r q = cc
Ensures-then P stuck g r q = cc

-- What an address attribute gives to a loop that has found nothing yet.
abbrev IsParsed : ℕ → Bytes → Bytes → Option AddrPort → Type 0
IsParsed typ v mask found =
    (a : AddrPort) × (parse_address_attribute typ v mask ≡ ok a) × (found ≡ some a)

pub read_address :
    (msg mask : Bytes) (offset typ : ℕ) (v : Bytes)
    → is_address typ ≡ true
    → Ensures (IsParsed typ v mask) (read_attribute msg mask offset typ v none)
unfolding read_attribute
read_address msg mask offset typ v h =
    rw h (
      Ensures-bind (IsParsed typ v mask) (parse_address_attribute typ v mask) λ a e r q. (a, e, cc))

-- An attribute that is no address leaves what was found, and so does every one behind an address.
pub read_other :
    (msg mask : Bytes) (offset typ : ℕ) (v : Bytes) (found : Option AddrPort)
    → (not (is_some found) && is_address typ) ≡ false
    → Ensures (λ found'. found' ≡ found) (read_attribute msg mask offset typ v found)
unfolding read_attribute
read_other msg mask offset typ v found h = rw h (
    Ensures-if (λ found'. found' ≡ found) (typ == attr_fingerprint)
      (λ _.
        Ensures-bind (λ found'. found' ≡ found) (slice msg 0 (20 + offset))
          λ head _. Ensures-then (λ found'. found' ≡ found) (verify_fingerprint head v) (λ r q. cc))
      (λ _ r q. cc))

-- What follows an attribute of `n` bytes: its padding is skipped, and the loop goes on.
abbrev skipping :
    Bytes
    → ℕ
    → (Bytes → Outcome ParseError (Option AddrPort))
    → Outcome ParseError (Option AddrPort)
skipping payload n next =
    if ltb (length payload) (4 + padded_to_four n)
    then err truncated_padding
    else do rest ← slice payload (4 + padded_to_four n) (length payload); next rest

skipping_keeps :
    (payload : Bytes) (n : ℕ) (a : AddrPort) (next : Bytes → Outcome ParseError (Option AddrPort))
    → ((rest : Bytes) → Ensures (λ found. found ≡ some a) (next rest))
    → Ensures (λ found. found ≡ some a) (skipping payload n next)
skipping_keeps payload n a next h =
    let P = λ (found : Option AddrPort). found ≡ some a in
    Ensures-if P (ltb (length payload) (4 + padded_to_four n)) (λ _ r q. cc)
      λ _. Ensures-bind P (slice payload (4 + padded_to_four n) (length payload)) λ rest _. h rest

pub loop_keeps :
    (rounds : ℕ) (msg mask : Bytes) (offset : ℕ) (payload : Bytes) (a : AddrPort)
    → Ensures (λ found. found ≡ some a) (attribute_loop rounds msg mask offset payload (some a))
unfolding attribute_loop
loop_keeps zero msg mask offset payload a = λ r q. cc
loop_keeps (suc rounds) msg mask offset payload a =
    let P = λ (found : Option AddrPort). found ≡ some a in
    Ensures-if P (ltb (length payload) 4) (λ _ r q. cc)
      λ _. Ensures-bind P (slice payload 0 2) λ s _. Ensures-bind P (uint16 s) λ typ _.
        Ensures-bind P (slice payload 2 4) λ t _. Ensures-bind P (uint16 t) λ n _.
          Ensures-if P (ltb (length payload) (4 + n)) (λ _ r q. cc)
            λ _. Ensures-bind P (slice payload 4 (4 + n)) λ v _.
              Ensures-bind P (read_attribute msg mask offset typ v (some a)) λ found e.
                rw (read_other msg mask offset typ v (some a) refl found e) (
                  skipping_keeps payload n a
                    (λ rest.
                      attribute_loop rounds msg mask (offset + (4 + padded_to_four n)) rest
                        (some a))
                    (λ rest. loop_keeps rounds msg mask (offset + (4 + padded_to_four n)) rest a))

-- An address attribute: the client goes on with the address, the check returns it.
pub address_case :
    (typ n : ℕ) (v txid payload : Bytes) (found : Option AddrPort)
    (next : Option AddrPort → Bytes → Outcome ParseError (Option AddrPort))
    → IsParsed typ v (xor_mask txid) found
    → ((rest : Bytes) (a : AddrPort) → Ensures (λ found'. found' ≡ some a) (next (some a) rest))
    → Agree some (skipping payload n (next found)) (parse_stun_address_attribute typ v)
address_case typ n v txid payload found next (a, p, f) h x four q =
    let same : some x ≡ some a =
      skipping_keeps payload n a (next (some a)) (λ rest. h rest a) (some x) (rw (← f) q) in
    parse_address_attribute-Agree typ v txid x four (cc)
