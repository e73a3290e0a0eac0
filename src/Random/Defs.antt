-- ===== src/Random/Defs.antt =====
-- lib/random.c: the RC4 state and the functions on it. Bytes wrap around; the loops are recursion on
-- the rounds that are left.
use juntos.Prelude.{ℕ, zero, suc, ◌+◌, ◌*◌, ◌/◌, ◌%◌, ◌^◌, Bool, true, if◌then◌else◌, update}
use juntos.Strings.Block.{Mem}

pub record Prng : Type 0 where
  pub s : ℕ → ℕ
  pub s_i : ℕ
  pub s_j : ℕ
  pub inited : Bool

-- swap_byte (s + a, s + b)
unfoldable pub swap_byte : (a b : ℕ) → (ℕ → ℕ) → ℕ → ℕ
swap_byte a b s = update (update s a (s b)) b (s a)

-- seedp[k], the least significant byte first
abbrev pub seed_byte : (seed k : ℕ) → ℕ
seed_byte seed k = seed / 2 ^ (8 * k) % 2 ^ 8

-- The second for of random_init ()
unfoldable pub mix_loop : (rounds i j seed : ℕ) → (ℕ → ℕ) → ℕ → ℕ
unfolding swap_byte
mix_loop zero i j seed s = s
mix_loop (suc rounds) i j seed s =
    let j' = (j + s i + seed_byte seed (i % 4)) % 2 ^ 8 in
    mix_loop rounds (i + 1) j' seed (swap_byte i j' s)

-- s[i] = i: the first for leaves each number at its place.
unfoldable pub random_init : (seed : ℕ) → Prng
unfolding mix_loop
random_init seed = record {
  s = mix_loop 256 0 0 seed (λ i. i % 2 ^ 8);
  s_i = 0;
  s_j = 0;
  inited = true;
}

-- A round of the for of random_bytes (), up to the byte that it writes.
unfoldable pub next_byte : Prng → ℕ × Prng
unfolding swap_byte
next_byte p =
    let s_i = (p.s_i + 1) % 2 ^ 8 in
    let s_j = (p.s_j + p.s s_i) % 2 ^ 8 in
    let s = swap_byte s_i s_j p.s in
    (s ((s s_i + s s_j) % 2 ^ 8), record p { s = s; s_i = s_i; s_j = s_j })

unfoldable pub bytes_loop : (size buf : ℕ) → Mem → Prng → Mem × Prng
unfolding next_byte
bytes_loop zero buf m p = (m, p)
bytes_loop (suc size) buf m p =
    let (byte, p') = next_byte p in bytes_loop size (buf + 1) (update m buf byte) p'

unfoldable pub random_bytes : (buf size : ℕ) → Mem → Prng → Mem × Prng
unfolding random_init bytes_loop
random_bytes buf size m p = bytes_loop size buf m (if p.inited then p else random_init 0)

abbrev pub long_at : (at : ℕ) → Mem → ℕ
long_at at m =
    m at
    + m (at + 1) * 2 ^ 8
    + m (at + 2) * 2 ^ 16
    + m (at + 3) * 2 ^ 24
    + m (at + 4) * 2 ^ 32
    + m (at + 5) * 2 ^ 40
    + m (at + 6) * 2 ^ 48
    + m (at + 7) * 2 ^ 56

-- `at` is where the local variable stands.
unfoldable pub random_ulong : (at : ℕ) → Mem → Prng → ℕ × Mem × Prng
unfolding random_bytes
random_ulong at m p = let (m', p') = random_bytes at 8 m p in (long_at at m', m', p')
