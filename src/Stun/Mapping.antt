-- ===== src/Stun/Mapping.antt =====
-- go-qnatter/internal/stun/client.go: a STUN server and what it says of a local address.
use qnatter.Common.{Bytes, ℤ}
use qnatter.Net.{AddrPort}

pub record Server : Type 0 where
  pub host : Bytes
  pub port : ℤ

pub record Mapping : Type 0 where
  pub inner : AddrPort
  pub outer : AddrPort
  pub server : Server
