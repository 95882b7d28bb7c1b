-- ===== src/Check.antt =====
-- go-qnatter/internal/check: the NAT check of `--check`.
pub mod Message
pub mod Nat
pub mod Cone
pub mod Resolve
pub mod Docker
pub mod Exchange
pub mod Run
mod Tests
