-- ===== src/Check/Docker.antt =====
-- go-qnatter/internal/check/check.go: `CheckDockerNetwork`. What the system says is a parameter.
use qnatter.Common.{
  ℕ, ◌/◌, ◌%◌, ◌+◌, Bool, false, not, ◌||◌, Option, none, some, [], ◌∷◌, ◌++◌, ltb, if◌then◌else◌,
  Bytes, bytes_eq, text, trim_space, map,
}
use qnatter.Config.Numbers.{lower}
use qnatter.Net.{Addr, v4}

-- `DockerEnv`, as what it finds: the system, whether both files are there, the content of the
-- second one, the address of the own host name.
pub record DockerEnv : Type 0 where
  pub linux : Bool
  pub has_docker_env : Bool
  pub has_eth0_mac : Bool
  pub raw_mac : Option Bytes
  pub own_address : Option Addr

abbrev pub hex_digit : ℕ → ℕ
hex_digit d = if ltb d 10 then b'0' + d else 87 + d

-- `%02x` of a byte
abbrev pub hex_byte : ℕ → Bytes
hex_byte b = hex_digit (b / 16) ∷ hex_digit (b % 16) ∷ []

-- The four bytes behind `02:42`.
abbrev colon_bytes : Bytes → Bytes
colon_bytes [] = []
colon_bytes (b ∷ ip) = b':' ∷ (hex_byte b ++ colon_bytes ip)

-- `dockerMACForIPv4`, of the parsed address
unfoldable pub docker_mac_for_ipv4 : Addr → Option Bytes
docker_mac_for_ipv4 (v4 ip) = some (text "02:42" ++ colon_bytes ip)
docker_mac_for_ipv4 _ = none

abbrev docker_mac : Option Addr → Option Bytes
docker_mac none = none
docker_mac (some a) = docker_mac_for_ipv4 a

abbrev same_mac : Option Bytes → Option Bytes → Bool
same_mac (some raw) (some mac) = bytes_eq (map lower (trim_space raw)) (map lower mac)
same_mac _ _ = false

-- `CheckDockerNetwork`, true for the error that host networking is required
unfoldable pub check_docker_network : DockerEnv → Bool
unfolding docker_mac_for_ipv4 trim_space bytes_eq
check_docker_network env =
    if not env.linux
    then false
    else if not env.has_docker_env || not env.has_eth0_mac
    then false
    else same_mac env.raw_mac (docker_mac env.own_address)
