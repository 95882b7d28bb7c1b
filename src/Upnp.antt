-- ===== src/Upnp.antt =====
-- go-qnatter/internal/upnp: the discovery of a router and the port mappings on it.
pub mod Service
pub mod Url
pub mod Usable
pub mod Description
pub mod Discovery
pub mod Device
mod Tests
