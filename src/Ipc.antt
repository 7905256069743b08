-- ===== src/Ipc.antt =====
-- kernel/core/ipc: ports, message queues and services.
pub mod Port
pub mod Message
