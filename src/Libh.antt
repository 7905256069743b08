-- ===== src/Libh.antt =====
-- lib/libh: the C library of the user programs.
pub mod Memory
pub mod Malloc
pub mod Text
pub mod Format
