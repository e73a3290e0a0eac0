-- ===== src/Hash.antt =====
-- lib/kernel/hash.c: hash tables.
pub mod Defs
pub mod Table
pub mod Move
pub mod Rehash
pub mod Elems
pub mod Laws
pub mod Remove
pub mod Iterate
pub mod Fnv
mod Tests
