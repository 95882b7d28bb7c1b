-- ===== src/Engine.antt =====
-- go-qnatter/internal/engine: a session that keeps a mapping alive, its loop and its retries.
pub mod Wire
pub mod Session
pub mod Upnp
pub mod Loop
pub mod Retry
mod Tests
