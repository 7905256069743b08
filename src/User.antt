-- ===== src/User.antt =====
-- user: the programs that run on the kernel.
pub mod Fat
pub mod Vfs
