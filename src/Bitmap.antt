-- ===== src/Bitmap.antt =====
-- lib/kernel/bitmap.c: bitmaps.
pub mod Defs
pub mod Single
pub mod Range
pub mod Scan
mod File
mod Tests
