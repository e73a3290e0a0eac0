-- ===== src/Threads/Alarm.antt =====
-- The alarm clock: the sleep list of threads/thread.c under thread_sleep () and thread_wakeup ().
mod Defs
pub mod Wakeup
pub mod Sleep
pub use Defs.*
