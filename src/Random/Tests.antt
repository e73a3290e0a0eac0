-- ===== src/Random/Tests.antt =====
-- lib/random.c: a run from the start.
use juntos.Prelude.{refl, false, inl}
use juntos.Random.Defs.{Prng, random_init, random_bytes}
use juntos.Random.Keeps.{Written, random_bytes_lem}

abbrev at_start : Prng
at_start = record { s = λ i. 0; s_i = 0; s_j = 0; inited = false }

random_bytes_example : Written 100 3 (λ a. 7) (random_init 0) (random_bytes 100 3 (λ a. 7) at_start)
random_bytes_example = random_bytes_lem 100 3 (λ a. 7) at_start (inl refl)
