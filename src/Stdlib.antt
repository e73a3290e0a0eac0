-- ===== src/Stdlib.antt =====
-- lib/stdlib.c: sorting, searching, and numbers from strings.
mod Defs
mod Heap
mod Sift
mod Build
mod Sorted
mod Search
mod Tests
