-- ===== src/Tests.antt =====
-- Concrete kernels and arrays on which the theorems apply.
pub mod Sample
mod Utils
mod Queues
mod Ports
mod Messages
mod Calls
mod Library
mod Pages
mod Servers
