-- ===== src/Threads.antt =====
-- threads/thread.c, threads/synch.c, threads/interrupt.c and devices/timer.c.
pub mod State
pub mod Interrupt
pub mod Sched
pub mod Sleep
pub mod Synch
pub mod Yield
pub mod Create
pub mod Invariant
pub mod Alarm
pub mod Semaphore
pub mod Timer
pub mod RoundRobin
pub mod System
mod Tests
