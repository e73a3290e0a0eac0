-- ===== src/LinkedList.antt =====
-- lib/kernel/list.c: doubly linked lists.
pub mod Elem
pub mod Spec
pub mod Ops
pub mod Chain
pub mod Shape
mod Remove
mod Size
mod Reverse
mod Turn
mod Extremes
mod Insert
mod Sort
mod Runs
mod Walk
mod Merge
mod Passes
mod Sorted
mod Tests
mod Ordered
