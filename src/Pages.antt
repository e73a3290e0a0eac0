-- ===== src/Pages.antt =====
-- threads/palloc.c: the page allocator.
pub mod Defs
pub mod Get
pub mod Free
pub mod RoundTrip
pub mod Boot
pub mod Init
mod Tests
