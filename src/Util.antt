-- ===== src/Util.antt =====
-- kernel/util: addresses and page arithmetic, bitmaps, bitmap stacks.
pub mod Addr
pub mod Bitmap
pub mod Bmstack
