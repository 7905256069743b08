-- ===== src/System.antt =====
-- kernel/core/system: the handlers of system calls.
pub mod Control
pub mod Message
pub mod Process
