-- ===== src/Config/Servers.antt =====
-- go-qnatter/internal/config/config.go: the STUN servers, and the part of `ParseArgs` behind the
-- flags.
use qnatter.Common.{
  ℕ, Bool, true, false, Option, none, some, List, [], ◌∷◌, ◌++◌, Outcome, ok, err, panic, stuck,
  ◌>>=◌, ◌==◌, if◌then◌else◌, Bytes, text, pos,
}
use qnatter.Config.{Config}
use qnatter.Config.Validate.{ConfigError, validate_config}
use qnatter.Endpoint.{EndpointError, split_host_port_default}
use qnatter.Stun.Mapping.{Server}

-- The errors of `ParseArgs` behind the flags.
pub data ArgsError : Type 0 where
  invalid_config : ConfigError → ArgsError
  empty_stun_server invalid_stun_server : ArgsError
  invalid_keep_alive_server : EndpointError → ArgsError

-- `strings.TrimPrefix`, if the prefix is there.
unfoldable pub strip : Bytes → Bytes → Option Bytes
strip [] s = some s
strip (c ∷ p) [] = none
strip (c ∷ p) (x ∷ s) = let rest = strip p s in if c == x then rest else none

abbrev first_stripped : Bytes → Option Bytes → Option Bytes → Bytes
first_stripped s (some rest) _ = rest
first_stripped s none (some rest) = rest
first_stripped s none none = s

-- `trimSTUNScheme`
unfoldable pub trim_stun_scheme : Bytes → Bytes
unfolding strip
trim_stun_scheme s = first_stripped s (strip (text "tcp://") s) (strip (text "udp://") s)

abbrev pub server_of : Outcome EndpointError (Bytes × ℕ) → Outcome ArgsError Server
server_of (ok (host, port)) = ok (record { host = host; port = pos port })
server_of (err e) = err invalid_stun_server
server_of panic = panic
server_of stuck = stuck

-- `parseSTUNServer`
unfoldable pub parse_stun_server : Bytes → Outcome ArgsError Server
unfolding trim_stun_scheme split_host_port_default
parse_stun_server [] = err empty_stun_server
parse_stun_server (c ∷ s) = server_of (split_host_port_default (trim_stun_scheme (c ∷ s)) 3478)

abbrev pub base_servers : List Bytes
base_servers =
    text "fwa.lifesizecloud.com"
    ∷ text "global.turn.twilio.com"
    ∷ text "turn.cloudflare.com"
    ∷ text "stun.nextcloud.com"
    ∷ text "stun.freeswitch.org"
    ∷ text "stun.voip.blackberry.com"
    ∷ text "stun.sipnet.com"
    ∷ text "stun.radiojar.com"
    ∷ text "stun.sonetel.com"
    ∷ text "stun.telnyx.com"
    ∷ []

-- `defaultSTUNServers`
unfoldable pub default_stun_servers : Bool → List Bytes
default_stun_servers true =
    (text "stun.miwifi.com"
      ∷ text "stun.chat.bilibili.com"
      ∷ text "stun.hitv.com"
      ∷ text "stun.cdnbye.com"
      ∷ text "stun.douyucdn.cn:18000"
      ∷ [])
    ++ base_servers
default_stun_servers false = base_servers ++ (text "turn.cloud-rtc.com:80" ∷ [])

-- The loop over the values of `-s`.
unfoldable pub parse_stun_servers : List Bytes → Outcome ArgsError (List Server)
unfolding parse_stun_server
parse_stun_servers [] = ok []
parse_stun_servers (item ∷ items) = do
  server ← parse_stun_server item
  servers ← parse_stun_servers items
  ok (server ∷ servers)

abbrev pub stun_values : Bool → List Bytes → List Bytes
stun_values udp [] = default_stun_servers udp
stun_values udp (item ∷ items) = item ∷ items

abbrev pub checked_server : Bytes → Outcome EndpointError (Bytes × ℕ) → Outcome ArgsError Bytes
checked_server s (ok _) = ok s
checked_server s (err e) = err (invalid_keep_alive_server e)
checked_server s panic = panic
checked_server s stuck = stuck

-- `if cfg.KeepAliveServer == ""`, or the check of the value of `-h`
unfoldable pub keep_alive_server_of : Bool → Bytes → Outcome ArgsError Bytes
unfolding split_host_port_default
keep_alive_server_of true [] = ok (text "119.29.29.29")
keep_alive_server_of false [] = ok (text "www.qq.com")
keep_alive_server_of udp (c ∷ s) = checked_server (c ∷ s) (split_host_port_default (c ∷ s) 0)

abbrev pub lifted : Outcome ConfigError Config → Outcome ArgsError Config
lifted (ok cfg) = ok cfg
lifted (err e) = err (invalid_config e)
lifted panic = panic
lifted stuck = stuck

-- `ParseArgs`, from the parsed flags and the values of `-s` on.
unfoldable pub parse_args : (Bytes → Bool) → Config → List Bytes → Outcome ArgsError Config
unfolding validate_config default_stun_servers parse_stun_servers keep_alive_server_of
parse_args is_file flags items = do
  cfg ← lifted (validate_config is_file flags)
  servers ← parse_stun_servers (stun_values cfg.udp items)
  keep_alive ← keep_alive_server_of cfg.udp cfg.keep_alive_server
  ok (record cfg { stun_servers = servers; keep_alive_server = keep_alive })
