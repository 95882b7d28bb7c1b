-- ===== src/Config/Accepted.antt =====
-- What a configuration that `validateConfig` accepts is like.
pub mod Ranges
use qnatter.Common.{
  ◌⊎◌, inl, inr, ◌/◌, ◌%◌, [], ◌∷◌, length, ltb, Bool-cases, ℕ, zero, suc, ◌≤◌, ◌<◌, arith, ℤ, pos,
  negsuc, ◌≡◌, refl, sym, ap, ap₂, ◌∙◌, Bool, true, false, not, ◌||◌, Option, none, some, Outcome,
  ok, err, panic, stuck, ◌>>=◌, ◌>>◌, if◌then◌else◌, Bytes, is_positive, in_range,
}
use mathlib.Core.Path.{subst}
use qnatter.Config.{Config}
use qnatter.Config.Validate.{
  ConfigError, max_keep_alive_interval, is_empty, require, validate_route_policy, valid_port,
  looks_like_ipv4_literal, valid_interface_name, bound_value, target_value, normalize_ipv4, dotted,
  dotted_address, address_of_option, numbers, split_dots, validate_config, invalid_bind_address,
  invalid_interface, not_positive, interval_too_large, invalid_bind_port, invalid_target_port,
  notify_not_found,
}
use qnatter.Config.Normal.{normalize_ipv4_idempotent}

-- The checks that stand before the addresses are read, over what they test.
abbrev chain :
    Outcome ConfigError (Unit {0})
    → Bool
    → Bool
    → Bool
    → Bool
    → Bool
    → Outcome ConfigError (Unit {0})
chain policy a b c d e =
    policy
    >> require a not_positive
    >> require b interval_too_large
    >> require c invalid_bind_port
    >> require d invalid_target_port
    >> require e notify_not_found

record Passed (policy : Outcome ConfigError (Unit {0})) (a b c d e : Bool) : Type 0 where
  policy_ok : policy ≡ ok tt
  a_ok : a ≡ true
  b_ok : b ≡ true
  c_ok : c ≡ true
  d_ok : d ≡ true
  e_ok : e ≡ true

chain-Passed :
    (o : Outcome ConfigError (Unit {0})) (a b c d e : Bool)
    → chain o a b c d e ≡ ok tt
    → Passed o a b c d e
chain-Passed (ok x) true true true true true h = record {
  policy_ok = refl;
  a_ok = refl;
  b_ok = refl;
  c_ok = refl;
  d_ok = refl;
  e_ok = refl;
}
chain-Passed (ok x) false b c d e h = cc
chain-Passed (ok x) true false c d e h = cc
chain-Passed (ok x) true true false d e h = cc
chain-Passed (ok x) true true true false e h = cc
chain-Passed (ok x) true true true true false h = cc
chain-Passed (err x) a b c d e h = cc
chain-Passed panic a b c d e h = cc
chain-Passed stuck a b c d e h = cc

abbrev checks : (Bytes → Bool) → Config → Outcome ConfigError (Unit {0})
checks f cfg =
    chain (validate_route_policy cfg) (is_positive cfg.keep_alive_interval)
      (in_range cfg.keep_alive_interval max_keep_alive_interval) (valid_port cfg.bind_port)
      (valid_port cfg.target_port) (is_empty cfg.notify_path || f cfg.notify_path)

abbrev with_addresses : Config → Bytes → Bytes → Config
with_addresses cfg bind target = record cfg { bind_value = bind; target_ip = target }

-- What is left once the checks are passed.
abbrev addresses :
    Config → Outcome ConfigError Bytes → Outcome ConfigError Bytes → Outcome ConfigError Config
addresses cfg bind target = bind >>= λ b. target >>= λ t. ok (with_addresses cfg b t)

validate_config-shape :
    (f : Bytes → Bool) (cfg : Config)
    → validate_config f cfg ≡ (
        checks f cfg
        >> addresses cfg
            (bound_value cfg.bind_value (normalize_ipv4 cfg.bind_value))
            (target_value (normalize_ipv4 cfg.target_ip)))
unfolding validate_config
validate_config-shape f cfg = shape (checks f cfg)
  where
    shape :
        (o : Outcome ConfigError (Unit {0}))
        → ((o >> bound_value cfg.bind_value (normalize_ipv4 cfg.bind_value)) >>= λ b.
            target_value (normalize_ipv4 cfg.target_ip) >>= λ t. ok (with_addresses cfg b t))
          ≡ (o
              >> addresses cfg
                  (bound_value cfg.bind_value (normalize_ipv4 cfg.bind_value))
                  (target_value (normalize_ipv4 cfg.target_ip)))
    shape (ok x) = refl
    shape (err e) = refl
    shape panic = refl
    shape stuck = refl

-- Where `validateConfig` accepts: all checks are passed and both addresses are read.
record Accepted (f : Bytes → Bool) (cfg cfg' : Config) : Type 0 where
  checks_ok : checks f cfg ≡ ok tt
  bind_ok : bound_value cfg.bind_value (normalize_ipv4 cfg.bind_value) ≡ ok cfg'.bind_value
  target_ok : target_value (normalize_ipv4 cfg.target_ip) ≡ ok cfg'.target_ip
  same : cfg' ≡ with_addresses cfg cfg'.bind_value cfg'.target_ip

abbrev some_config : Config → Outcome ConfigError Config
some_config c = ok c

ok_config : (x y : Config) → some_config x ≡ some_config y → x ≡ y
ok_config x y h = cc

abbrev some_bytes : Bytes → Outcome ConfigError Bytes
some_bytes s = ok s

ok_bytes : (x y : Bytes) → some_bytes x ≡ some_bytes y → x ≡ y
ok_bytes x y h = cc

accepted :
    (cfg cfg' : Config) (o : Outcome ConfigError (Unit {0})) (b t : Outcome ConfigError Bytes)
    → (o >> addresses cfg b t) ≡ ok cfg'
    → (o ≡ ok tt)
      × (b ≡ ok cfg'.bind_value)
      × (t ≡ ok cfg'.target_ip)
      × (cfg' ≡ with_addresses cfg cfg'.bind_value cfg'.target_ip)
accepted cfg cfg' (ok x) (ok b) (ok t) h =
    let e = ok_config (with_addresses cfg b t) cfg' h in
    let eb = ap (λ c. c.bind_value) e in
    let et = ap (λ c. c.target_ip) e in
    (refl, ap ok eb, ap ok et, sym e ∙ ap₂ (with_addresses cfg) eb et)
accepted cfg cfg' (ok x) (ok b) (err e) h = cc
accepted cfg cfg' (ok x) (ok b) panic h = cc
accepted cfg cfg' (ok x) (ok b) stuck h = cc
accepted cfg cfg' (ok x) (err e) t h = cc
accepted cfg cfg' (ok x) panic t h = cc
accepted cfg cfg' (ok x) stuck t h = cc
accepted cfg cfg' (err e) b t h = cc
accepted cfg cfg' panic b t h = cc
accepted cfg cfg' stuck b t h = cc

validated :
    (f : Bytes → Bool) (cfg cfg' : Config) → validate_config f cfg ≡ ok cfg' → Accepted f cfg cfg'
validated f cfg cfg' h =
    let a = accepted cfg cfg' (checks f cfg) _ _ (sym (validate_config-shape f cfg) ∙ h) in
    record { checks_ok = a.0; bind_ok = a.1; target_ok = a.2; same = a.3 }

kept :
    (literal named : Bool) (v w : Bytes)
    → (if literal
        then err invalid_bind_address
        else if not named
        then err invalid_interface
        else some_bytes v)
      ≡ ok w
    → v ≡ w
kept false true v w h = ok_bytes v w h
kept true named v w h = cc
kept false false v w h = cc

bound_again :
    (v w : Bytes)
    → bound_value v (normalize_ipv4 v) ≡ ok w
    → bound_value w (normalize_ipv4 w) ≡ ok w
bound_again v w h = by_form (normalize_ipv4 v) refl h
  where
    by_form :
        (o : Option Bytes)
        → normalize_ipv4 v ≡ o
        → bound_value v o ≡ ok w
        → bound_value w (normalize_ipv4 w) ≡ ok w
    by_form (some x) e g =
        ap (bound_value w) (normalize_ipv4_idempotent v w (e ∙ ap some (ok_bytes x w g)))
    by_form none e g =
        let same = kept (looks_like_ipv4_literal v) (valid_interface_name v) v w g in
        ap (λ s. bound_value s (normalize_ipv4 s)) (sym same) ∙ h

target_again :
    (v w : Bytes) → target_value (normalize_ipv4 v) ≡ ok w → target_value (normalize_ipv4 w) ≡ ok w
target_again v w h = by_form (normalize_ipv4 v) refl h
  where
    by_form :
        (o : Option Bytes)
        → normalize_ipv4 v ≡ o
        → target_value o ≡ ok w
        → target_value (normalize_ipv4 w) ≡ ok w
    by_form (some x) e g =
        ap target_value (normalize_ipv4_idempotent v w (e ∙ ap some (ok_bytes x w g)))
    by_form none e g = cc

-- The interval is between a second and a day, both ports have sixteen bits.
pub record IsValid (cfg : Config) : Type 0 where
  pub interval_pos : is_positive cfg.keep_alive_interval ≡ true
  pub interval_max : in_range cfg.keep_alive_interval max_keep_alive_interval ≡ true
  pub bind_port_fits : valid_port cfg.bind_port ≡ true
  pub target_port_fits : valid_port cfg.target_port ≡ true
  pub target_normal : normalize_ipv4 cfg.target_ip ≡ some cfg.target_ip

is_normal : (o : Option Bytes) (w : Bytes) → target_value o ≡ ok w → o ≡ some w
is_normal none w h = cc
is_normal (some x) w h = ap some (ok_bytes x w h)

checks-with_addresses :
    (f : Bytes → Bool) (cfg : Config) (b t : Bytes)
    → checks f (with_addresses cfg b t) ≡ checks f cfg
unfolding validate_route_policy
checks-with_addresses f cfg b t = refl

-- A configuration that `validateConfig` leaves has an interval between a second and a day, ports of
-- sixteen bits, and a target address in normal form.
pub validate_config-IsValid :
    (f : Bytes → Bool) (cfg cfg' : Config) → validate_config f cfg ≡ ok cfg' → IsValid cfg'
validate_config-IsValid f cfg cfg' h =
    let a = validated f cfg cfg' h in
    let p = chain-Passed _ _ _ _ _ _ a.checks_ok in
    subst IsValid (sym a.same) (record {
      interval_pos = p.a_ok;
      interval_max = p.b_ok;
      bind_port_fits = p.c_ok;
      target_port_fits = p.d_ok;
      target_normal =
          is_normal (normalize_ipv4 cfg'.target_ip) cfg'.target_ip
            (target_again cfg.target_ip cfg'.target_ip a.target_ok);
    })

-- Validating again changes nothing: what `validateConfig` leaves is accepted as it is.
pub validate_config_idempotent :
    (f : Bytes → Bool) (cfg cfg' : Config)
    → validate_config f cfg ≡ ok cfg'
    → validate_config f cfg' ≡ ok cfg'
validate_config_idempotent f cfg cfg' h =
    let a = validated f cfg cfg' h in
    let passed =
      ap (checks f) a.same
      ∙ checks-with_addresses f cfg cfg'.bind_value cfg'.target_ip
      ∙ a.checks_ok in
    validate_config-shape f cfg'
    ∙ rw (
      passed,
      bound_again cfg.bind_value cfg'.bind_value a.bind_ok,
      target_again cfg.target_ip cfg'.target_ip a.target_ok,
    )
