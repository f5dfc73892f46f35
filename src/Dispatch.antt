-- ===== src/Dispatch.antt =====
-- The write-phase dispatcher of src/dispatch.rs. Session has the types and the end of a session,
-- Serial the sequential phase, Window the phase with concurrent slots, and Phase the entry point
-- that opens the session and chooses between them.
pub mod Session
pub mod Serial
pub mod Window
pub mod Phase
