-- ===== src/Engine/Session.antt =====
-- go-qnatter/internal/engine/run_once.go: `StartSession`, `Session.Close` and `RunOnce`.
-- A step runs on the session under construction and on the trace of the calls so far; the answer to
-- a call may depend on that trace. A report to a function that is not set is in the trace all the
-- same.
pub mod Flow
pub mod Steps
pub mod Start
pub mod Release
pub mod NoLeak
pub mod Choice
mod Tests
unfoldable pub use Flow.*
unfoldable pub use Steps.*
unfoldable pub use Start.*
