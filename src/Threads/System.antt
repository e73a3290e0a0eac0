-- ===== src/Threads/System.antt =====
-- threads/thread.c, threads/synch.c, devices/timer.c: the threads as one system.
pub mod Calls
pub mod Idle
pub mod Steps
