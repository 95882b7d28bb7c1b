-- ===== src/Stun.antt =====
-- go-qnatter/internal/stun: the STUN messages and the client that asks servers for a mapping.
pub mod Message
pub mod Mapping
pub mod Client
pub mod Transport
mod Tests
