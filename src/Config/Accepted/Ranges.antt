-- ===== src/Config/Accepted/Ranges.antt =====
-- The ranges of an accepted configuration, in numbers.
use qnatter.Common.{
  ◌⊎◌, inl, inr, ◌/◌, ◌%◌, [], ◌∷◌, length, ltb, Bool-cases, ℕ, zero, suc, ◌≤◌, ◌<◌, arith, ℤ, pos,
  negsuc, ◌≡◌, refl, ap, ◌∙◌, Bool, true, false, not, Option, none, some, ok, err, if◌then◌else◌,
  Bytes, is_positive, in_range,
}
use mathlib.Core.Path.{subst}
use qnatter.Config.{Config}
use qnatter.Config.Validate.{
  max_keep_alive_interval, looks_like_ipv4_literal, valid_interface_name, bound_value, target_value,
  normalize_ipv4, dotted, dotted_address, address_of_option, numbers, split_dots, validate_config,
  invalid_bind_address, invalid_interface,
}
use qnatter.Config.Accepted.{
  some_bytes, ok_bytes, kept, is_normal, validated, validate_config-IsValid,
}

-- Four numbers of a byte, as `net.IP.String` prints them.
pub record IsDotted (value : Bytes) : Type 0 where
  pub first : ℕ
  pub second : ℕ
  pub third : ℕ
  pub fourth : ℕ
  pub are_bytes : (first < 256) × (second < 256) × (third < 256) × (fourth < 256)
  pub written : value ≡ dotted first second third fourth

dotted_address-IsDotted : (o : Option ℕ) (w : Bytes) → dotted_address o ≡ some w → IsDotted w
dotted_address-IsDotted none w h = cc
dotted_address-IsDotted (some ip) w h = record {
  first = ip / 0x1000000 % 256;
  second = ip / 0x10000 % 256;
  third = ip / 0x100 % 256;
  fourth = ip % 256;
  are_bytes = (omega arith, omega arith, omega arith, omega arith);
  written = cc;
}

-- An address, or a name of 1 to 64 bytes.
abbrev pub IsBound : Bytes → Type 0
IsBound value = IsDotted value ⊎ ((1 ≤ length value) × (length value ≤ 64))

named_length : (v : Bytes) → valid_interface_name v ≡ true → (1 ≤ length v) × (length v ≤ 64)
unfolding valid_interface_name
named_length [] h = cc
named_length (c ∷ v) h = (
  omega arith,
  elim (Bool-cases (ltb 64 (length (c ∷ v)))) [
    | inl long ↦ cc (rw long at h)
    | inr e ↦ ground arith
  ],
)

named_branch :
    (literal named : Bool) (v w : Bytes)
    → (if literal
        then err invalid_bind_address
        else if not named
        then err invalid_interface
        else some_bytes v)
      ≡ ok w
    → named ≡ true
named_branch true named v w h = cc
named_branch false true v w h = refl
named_branch false false v w h = cc

bound_value-IsBound : (v w : Bytes) → bound_value v (normalize_ipv4 v) ≡ ok w → IsBound w
unfolding normalize_ipv4
bound_value-IsBound v w h = by_form (normalize_ipv4 v) refl h
  where
    by_form : (o : Option Bytes) → normalize_ipv4 v ≡ o → bound_value v o ≡ ok w → IsBound w
    by_form (some x) e g = inl (
        dotted_address-IsDotted (address_of_option (numbers (split_dots v))) w
          (e ∙ ap some (ok_bytes x w g)))
    by_form none e g =
        let same = kept (looks_like_ipv4_literal v) (valid_interface_name v) v w g in
        inr (
          subst (λ s. (1 ≤ length s) × (length s ≤ 64)) same
            (named_length v
              (named_branch (looks_like_ipv4_literal v) (valid_interface_name v) v w g)))

target_value-IsDotted : (v w : Bytes) → target_value (normalize_ipv4 v) ≡ ok w → IsDotted w
unfolding normalize_ipv4
target_value-IsDotted v w h =
    dotted_address-IsDotted (address_of_option (numbers (split_dots v))) w
      (is_normal (normalize_ipv4 v) w h)

-- The interval is of one second to a day, the ports are 0 to 65535, the target is an address, and
-- the local end an address or a name.
pub record IsInRange (cfg : Config) : Type 0 where
  pub interval : ℕ
  pub interval_is : cfg.keep_alive_interval ≡ pos interval
  pub interval_low : 1 ≤ interval
  pub interval_high : interval ≤ 86400
  pub bind_port : ℕ
  pub bind_port_is : cfg.bind_port ≡ pos bind_port
  pub bind_port_high : bind_port < 65536
  pub target_port : ℕ
  pub target_port_is : cfg.target_port ≡ pos target_port
  pub target_port_high : target_port < 65536
  pub target_is_address : IsDotted cfg.target_ip
  pub bind_is_bound : IsBound cfg.bind_value

abbrev IsUpTo : ℤ → ℕ → Type 0
IsUpTo z high = (n : ℕ) × (z ≡ pos n) × (n ≤ high)

in_range-IsUpTo : (z : ℤ) (high : ℕ) → in_range z high ≡ true → IsUpTo z high
in_range-IsUpTo (pos n) high h = (n, refl, ground arith)
in_range-IsUpTo (negsuc n) high h = cc

positive-le : (z : ℤ) (n : ℕ) → is_positive z ≡ true → z ≡ pos n → 1 ≤ n
positive-le z n h e = by_number n (rw e at h)
  where
    by_number : (k : ℕ) → is_positive (pos k) ≡ true → 1 ≤ k
    by_number zero g = cc
    by_number (suc k) g = omega arith

-- `validateConfig` leaves only configurations whose interval is of one second to a day, whose ports
-- lie between 0 and 65535, whose target is the text of four bytes with points between them, and whose
-- local end is such a text or a name of 1 to 64 bytes.
pub validate_config-IsInRange :
    (f : Bytes → Bool) (cfg cfg' : Config) → validate_config f cfg ≡ ok cfg' → IsInRange cfg'
validate_config-IsInRange f cfg cfg' h =
    let a = validated f cfg cfg' h in
    let v = validate_config-IsValid f cfg cfg' h in
    let interval =
      in_range-IsUpTo cfg'.keep_alive_interval max_keep_alive_interval v.interval_max in
    let bind = in_range-IsUpTo cfg'.bind_port 65535 v.bind_port_fits in
    let target = in_range-IsUpTo cfg'.target_port 65535 v.target_port_fits in
    record {
      interval = interval.0;
      interval_is = interval.1;
      interval_low = positive-le cfg'.keep_alive_interval interval.0 v.interval_pos interval.1;
      interval_high = interval.2;
      bind_port = bind.0;
      bind_port_is = bind.1;
      bind_port_high = omega (arith, bind.2);
      target_port = target.0;
      target_port_is = target.1;
      target_port_high = omega (arith, target.2);
      target_is_address = target_value-IsDotted cfg.target_ip cfg'.target_ip a.target_ok;
      bind_is_bound = bound_value-IsBound cfg.bind_value cfg'.bind_value a.bind_ok;
    }
