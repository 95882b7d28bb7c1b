-- ===== src/Config.antt =====
-- go-qnatter/internal/config: the configuration.
pub mod Numbers
pub mod Validate
pub mod Normal
pub mod Accepted
pub mod Servers
pub mod Args
mod Tests
use qnatter.Common.{Bool, List, Bytes, ℤ}
use qnatter.Stun.Mapping.{Server}

-- `Config`; a server of the list has the fields of a STUN server.
pub record Config : Type 0 where
  pub instance_id : Bytes
  pub route_mark : Bytes
  pub route_table : Bytes
  pub route_priority : Bytes
  pub udp : Bool
  pub verbose : Bool
  pub exit_when_changed : Bool
  pub upnp : Bool
  pub keep_alive_interval : ℤ
  pub stun_servers : List Server
  pub keep_alive_server : Bytes
  pub bind_value : Bytes
  pub bind_port : ℤ
  pub forward_method : Bytes
  pub target_ip : Bytes
  pub target_port : ℤ
  pub retry_target : Bool
  pub notify_path : Bytes
  pub check : Bool
