-- ===== src/Threads/RoundRobin.antt =====
-- threads/thread.c: who runs behind thread_yield ().
