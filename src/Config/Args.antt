-- ===== src/Config/Args.antt =====
-- The configurations that the program starts with.
use qnatter.Common.{
  ℕ, ◌≡◌, ◌≢◌, refl, Bool, true, false, List, [], ◌∷◌, Outcome, ok, err, panic, stuck, ◌>>=◌, Bytes,
  if◌then◌else◌, pos, map, ◌++◌, slice, text,
}
use qnatter.Config.{Config}
use qnatter.Config.Validate.{validate_config}
use qnatter.Config.Servers.{
  ArgsError, parse_stun_server, parse_stun_servers, default_stun_servers, stun_values,
  keep_alive_server_of, parse_args, lifted,
}
use qnatter.Endpoint.{
  split_host_port_default, require_host, with_parsed, at_colon, last_index, count,
}
use qnatter.Stun.Mapping.{Server}
use qnatter.Config.Servers.{trim_stun_scheme, base_servers}
use qnatter.Config.Numbers.{parse_port, atoi}

-- What holds of the value, if there is one.
abbrev Ensures {ℓ} : {A : Type ℓ} → (A → Type 0) → Outcome ArgsError A → Type 0
Ensures P (ok x) = P x
Ensures P (err e) = Unit
Ensures P panic = Unit
Ensures P stuck = Unit

Ensures-bind {ℓ κ} :
    {A : Type ℓ} {B : Type κ} (Q : A → Type 0) (P : B → Type 0) (m : Outcome ArgsError A)
    (f : A → Outcome ArgsError B)
    → Ensures Q m
    → ((x : A) → Q x → Ensures P (f x))
    → Ensures P (m >>= f)
Ensures-bind Q P (ok x) f q k = k x q
Ensures-bind Q P (err e) f q k = tt
Ensures-bind Q P panic f q k = tt
Ensures-bind Q P stuck f q k = tt

abbrev Anything {ℓ} : {A : Type ℓ} → A → Type 0
Anything _ = Unit

Ensures-Anything {ℓ} : {A : Type ℓ} (m : Outcome ArgsError A) → Ensures Anything m
Ensures-Anything (ok x) = tt
Ensures-Anything (err e) = tt
Ensures-Anything panic = tt
Ensures-Anything stuck = tt

abbrev Some {ℓ} : {A : Type ℓ} → List A → Type 0
Some [] = ⊥
Some (x ∷ xs) = Unit

parse_stun_servers-Some :
    (items : List Bytes) → Some items → Ensures Some (parse_stun_servers items)
unfolding parse_stun_servers
parse_stun_servers-Some [] h = elim h [ ]
parse_stun_servers-Some (item ∷ items) h =
    Ensures-bind Anything Some (parse_stun_server item) _ (Ensures-Anything _) λ server _.
      Ensures-bind Anything Some (parse_stun_servers items) _ (Ensures-Anything _) λ servers _. tt

stun_values-Some : (udp : Bool) (items : List Bytes) → Some (stun_values udp items)
unfolding default_stun_servers
stun_values-Some true [] = tt
stun_values-Some false [] = tt
stun_values-Some udp (item ∷ items) = tt

abbrev HasServers : Config → Type 0
HasServers cfg = Some cfg.stun_servers

parse_args-HasServers :
    (f : Bytes → Bool) (flags : Config) (items : List Bytes)
    → Ensures HasServers (parse_args f flags items)
unfolding parse_args
parse_args-HasServers f flags items =
    Ensures-bind Anything HasServers (lifted (validate_config f flags)) _ (Ensures-Anything _)
      λ cfg _.
        Ensures-bind Some HasServers (parse_stun_servers (stun_values cfg.udp items)) _
          (parse_stun_servers-Some (stun_values cfg.udp items) (stun_values-Some cfg.udp items))
          λ servers listed.
            Ensures-bind Anything HasServers (keep_alive_server_of cfg.udp cfg.keep_alive_server) _
              (Ensures-Anything _) λ k _. listed

-- The program never starts with an empty list of STUN servers.
pub parse_args_servers :
    (f : Bytes → Bool) (flags cfg : Config) (items : List Bytes)
    → parse_args f flags items ≡ ok cfg
    → cfg.stun_servers ≢ []
parse_args_servers f flags cfg items h =
    nonempty cfg.stun_servers (rw h at (parse_args-HasServers f flags items))
  where
    nonempty : (xs : List Server) → Some xs → xs ≢ []
    nonempty [] q = elim q [ ]
    nonempty (x ∷ xs) q = λ e. cc

abbrev server : Bytes → ℕ → Server
server host port = record { host = host; port = pos port }

-- The built-in servers can all be read: fourteen on port 3478 and one on port 18000 for UDP, ten on
-- port 3478 and one on port 80 for TCP.
pub parse_stun_servers-default_stun_servers :
    (udp : Bool)
    → parse_stun_servers (default_stun_servers udp)
      ≡ ok (
          if udp
          then map
              (λ h. server h 3478)
              (text "stun.miwifi.com"
                ∷ text "stun.chat.bilibili.com"
                ∷ text "stun.hitv.com"
                ∷ text "stun.cdnbye.com"
                ∷ [])
            ++ (server (text "stun.douyucdn.cn") 18000 ∷ map (λ h. server h 3478) base_servers)
          else map (λ h. server h 3478) base_servers
            ++ (server (text "turn.cloud-rtc.com") 80 ∷ []))
unfolding parse_stun_servers default_stun_servers parse_stun_server trim_stun_scheme
    split_host_port_default require_host with_parsed at_colon last_index count parse_port atoi slice
parse_stun_servers-default_stun_servers true = refl
parse_stun_servers-default_stun_servers false = refl
