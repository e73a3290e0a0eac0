-- ===== src/Threads/Invariant.antt =====
-- Well-formedness of the scheduler's state (the comment on `elem` in include/threads/thread.h).
pub mod Keeps
pub mod Schedule
pub mod Free
pub mod Block
pub mod Yield
pub mod Wake
mod Defs
pub use Defs.*
