-- ===== src/Forward/Options.antt =====
-- go-qnatter/internal/forward/forward.go: the options that a forwarder starts with.
use qnatter.Common.{Bool, false, ◌&&◌, ◌==◌, Bytes, bytes_eq, ℤ, pos, negsuc}

-- `StartOptions`
pub record StartOptions : Type 0 where
  pub ip : Bytes
  pub snat_ip : Bytes
  pub port : ℤ
  pub target_ip : Bytes
  pub target_port : ℤ
  pub udp : Bool
  pub interface : Bytes
  pub route_mark : Bytes
  pub route_table : Bytes
  pub route_priority : Bytes

-- `==` on integers
abbrev pub int_eq : ℤ → ℤ → Bool
int_eq (pos a) (pos b) = a == b
int_eq (negsuc a) (negsuc b) = a == b
int_eq _ _ = false

-- `options.IP == options.TargetIP && options.Port == options.TargetPort`
unfoldable pub same_address : StartOptions → Bool
unfolding bytes_eq
same_address o = bytes_eq o.ip o.target_ip && int_eq o.port o.target_port
