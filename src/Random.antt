-- ===== src/Random.antt =====
-- lib/random.c: the pseudo-random number generator.
mod Defs
mod Keeps
mod Tests
