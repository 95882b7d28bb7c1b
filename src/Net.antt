-- ===== src/Net.antt =====
-- The addresses of Go's `net/netip`, as far as the program uses them: an IP address without a
-- zone, and a pair of an address and a port.
use qnatter.Common.{
  ℕ, ◌≡◌, ◌↔◌, Bool, true, false, ◌&&◌, arith, ◌==◌, Bytes, bytes_eq, bytes_eq_iff,
}

-- `netip.Addr`: the zero value, an IPv4 address of four bytes, an IPv6 address of sixteen.
pub data Addr : Type 0 where
  no_addr : Addr
  v4 : Bytes → Addr
  v6 : Bytes → Addr

pub record AddrPort : Type 0 where
  pub addr : Addr
  pub port : ℕ

-- `Addr.IsValid`
abbrev pub addr_is_valid : Addr → Bool
addr_is_valid no_addr = false
addr_is_valid _ = true

-- `AddrPort.IsValid`
abbrev pub is_valid : AddrPort → Bool
is_valid a = addr_is_valid a.addr

abbrev pub is4 : Addr → Bool
is4 (v4 _) = true
is4 _ = false

-- the zero value of `AddrPort`
abbrev pub no_addr_port : AddrPort
no_addr_port = record { addr = no_addr; port = 0 }

-- `==` on addresses
unfoldable pub addr_eq : Addr → Addr → Bool
unfolding bytes_eq
addr_eq no_addr no_addr = true
addr_eq (v4 a) (v4 b) = bytes_eq a b
addr_eq (v6 a) (v6 b) = bytes_eq a b
addr_eq _ _ = false

-- `==` on pairs of an address and a port
unfoldable pub addr_port_eq : AddrPort → AddrPort → Bool
unfolding addr_eq
addr_port_eq a b = addr_eq a.addr b.addr && a.port == b.port

pub addr_eq_iff : (a b : Addr) → (addr_eq a b ≡ true) ↔ (a ≡ b)
unfolding addr_eq
addr_eq_iff (v4 a) (v4 b) = ground (arith, bytes_eq_iff a b)
addr_eq_iff (v6 a) (v6 b) = ground (arith, bytes_eq_iff a b)
addr_eq_iff no_addr no_addr = ground arith
addr_eq_iff _ _ = ground arith

pub addr_port_eq_iff : (a b : AddrPort) → (addr_port_eq a b ≡ true) ↔ (a ≡ b)
unfolding addr_port_eq
addr_port_eq_iff a b = ground (arith, addr_eq_iff a.addr b.addr)
