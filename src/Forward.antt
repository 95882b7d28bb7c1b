-- ===== src/Forward.antt =====
-- go-qnatter/internal/forward: the forwarders.
pub mod Options
pub mod Factory
pub mod Socket
pub mod External
pub mod Nftables
pub mod PortConflict
mod Tests
