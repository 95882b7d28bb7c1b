-- ===== src/Status.antt =====
-- go-qnatter/internal/status: the status file of an instance, its name and how it is written.
pub mod Slug
pub mod File
mod Tests
