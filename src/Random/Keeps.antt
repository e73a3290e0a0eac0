-- ===== src/Random/Keeps.antt =====
-- lib/random.c: what holds of the RC4 state.
use juntos.Prelude.{
  ℕ, zero, suc, ◌+◌, ◌%◌, ◌^◌, ◌≤◌, ◌<◌, ◌≡◌, ◌≢◌, refl, ap, ◌⊎◌, inl, inr, Bool, true, false,
  if◌then◌else◌, update, arith, subst,
}
use juntos.Strings.Block.{Mem}
use juntos.Random.Defs.{
  Prng, swap_byte, mix_loop, random_init, next_byte, bytes_loop, random_bytes, seed_byte,
}

-- The array is a permutation of the bytes.
pub record IsPermutation (s : ℕ → ℕ) : Type 0 where
  pub bytes : (i : ℕ) → i < 256 → s i < 256
  pub once : (i j : ℕ) → i < 256 → j < 256 → s i ≡ s j → i ≡ j

pub record IsState (p : Prng) : Type 0 where
  pub permutation : IsPermutation p.s
  pub i_byte : p.s_i < 256
  pub j_byte : p.s_j < 256

swap-IsPermutation :
    (a b : ℕ) (s : ℕ → ℕ) → a < 256 → b < 256 → IsPermutation s → IsPermutation (swap_byte a b s)
unfolding swap_byte
swap-IsPermutation a b s ha hb is = record {
  bytes = λ i h. ground (arith, is.bytes i, is.bytes a, is.bytes b);
  once = λ i j hi hj e.
      ground (arith, is.once i j, is.once i a, is.once i b, is.once a j, is.once b j, is.once a b);
}

mix_loop-IsPermutation :
    (rounds i j seed : ℕ) (s : ℕ → ℕ)
    → i + rounds ≤ 256
    → IsPermutation s
    → IsPermutation (mix_loop rounds i j seed s)
unfolding mix_loop
mix_loop-IsPermutation zero i j seed s h is = is
mix_loop-IsPermutation (suc rounds) i j seed s h is =
    let j' = (j + s i + seed_byte seed (i % 4)) % 2 ^ 8 in
    mix_loop-IsPermutation rounds (i + 1) j' seed (swap_byte i j' s) (omega arith)
      (swap-IsPermutation i j' s (omega arith) (omega arith) is)

pub random_init-IsState : (seed : ℕ) → IsState (random_init seed)
unfolding random_init
random_init-IsState seed = record {
  permutation =
      mix_loop-IsPermutation 256 0 0 seed (λ i. i % 2 ^ 8) (omega arith)
        (record { bytes = λ i h. omega arith; once = λ i j hi hj e. omega arith });
  i_byte = omega arith;
  j_byte = omega arith;
}

next_byte-IsState : (p : Prng) → IsState p → IsState (next_byte p).1
unfolding next_byte
next_byte-IsState p is =
    let s_i = (p.s_i + 1) % 2 ^ 8 in
    record {
      permutation =
          swap-IsPermutation s_i ((p.s_j + p.s s_i) % 2 ^ 8) p.s (omega arith) (omega arith)
            is.permutation;
      i_byte = omega arith;
      j_byte = omega arith;
    }

next_byte-lt : (p : Prng) → IsState p → (next_byte p).0 < 256
unfolding next_byte
next_byte-lt p is = (next_byte-IsState p is).permutation.bytes _ (omega arith)

-- A round of RC4's generator: i and j step on, modulo 256, the bytes at them change places, and the
-- byte at the sum of the two is the output.
pub record Round (p : Prng) (byte : ℕ) (p' : Prng) : Type 0 where
  pub i_steps : p'.s_i ≡ (p.s_i + 1) % 2 ^ 8
  pub j_steps : p'.s_j ≡ (p.s_j + p.s p'.s_i) % 2 ^ 8
  pub at_i : p'.s p'.s_i ≡ p.s p'.s_j
  pub at_j : p'.s p'.s_j ≡ p.s p'.s_i
  pub others : (n : ℕ) → n ≢ p'.s_i → n ≢ p'.s_j → p'.s n ≡ p.s n
  pub output : byte ≡ p'.s ((p.s p'.s_i + p.s p'.s_j) % 2 ^ 8)
  pub inited : p'.inited ≡ p.inited

next_byte-Round : (p : Prng) → Round p (next_byte p).0 (next_byte p).1
unfolding next_byte swap_byte
next_byte-Round p =
    let s_i = (p.s_i + 1) % 2 ^ 8 in
    let s_j = (p.s_j + p.s s_i) % 2 ^ 8 in
    let s = swap_byte s_i s_j p.s in
    record {
      i_steps = refl;
      j_steps = refl;
      at_i = ground arith;
      at_j = ground arith;
      others = λ n i j. ground arith;
      output =
          let at : s s_i + s s_j ≡ p.s s_i + p.s s_j = ground arith in ap (λ n. s (n % 2 ^ 8)) at;
      inited = refl;
    }

-- The bytes of a memory from `at` on are those of the rounds from one state to the other.
pub data Stream (m : Mem) : (at size : ℕ) → Prng → Prng → Type 0 where
  done : {at : ℕ} {p : Prng} → Stream m at 0 p p
  round :
      {at size : ℕ} {p p1 p2 : Prng}
      → Round p (m at) p1
      → Stream m (at + 1) size p1 p2
      → Stream m at (suc size) p p2

-- The memory behind a call from the state `p`: RC4's bytes at `buf`, and the rest as it was.
pub record Written (buf size : ℕ) (m : Mem) (p : Prng) (r : Mem × Prng) : Type 0 where
  pub state : IsState r.1
  pub stream : Stream r.0 buf size p r.1
  pub bytes : (i : ℕ) → i < size → r.0 (buf + i) < 256
  pub outside : (a : ℕ) → (a < buf) ⊎ (buf + size ≤ a) → r.0 a ≡ m a

module _ (buf size byte : ℕ) (m : Mem) (p p1 : Prng) (r : Mem × Prng) where
  more-bytes :
      byte < 256
      → Written (buf + 1) size (update m buf byte) p1 r
      → (i : ℕ) → i < suc size
      → r.0 (buf + i) < 256
  more-bytes b w zero h =
      let here : r.0 buf ≡ byte = ground (arith, w.outside buf) in
      let at : buf ≡ buf + 0 = omega arith in subst (λ a. r.0 a < 256) at (omega (arith, b, here))
  more-bytes b w (suc i) h =
      let at : buf + 1 + i ≡ buf + suc i = omega arith in
      subst (λ a. r.0 a < 256) at (w.bytes i (omega arith))

  first-Written :
      byte < 256
      → Round p byte p1
      → Written (buf + 1) size (update m buf byte) p1 r
      → Written buf (suc size) m p r
  first-Written b first w =
      let here : byte ≡ r.0 buf = ground (arith, w.outside buf) in
      record {
        state = w.state;
        stream = round (subst (λ b. Round p b p1) here first) w.stream;
        bytes = more-bytes b w;
        outside = λ a h. ground (arith, w.outside a);
      }

bytes_loop-Written :
    (size buf : ℕ) (m : Mem) (p : Prng) → IsState p → Written buf size m p (bytes_loop size buf m p)
unfolding bytes_loop
bytes_loop-Written zero buf m p is = record {
  state = is;
  stream = done;
  bytes = λ i h. absurd (omega arith);
  outside = λ a h. refl;
}
bytes_loop-Written (suc size) buf m p is =
    first-Written buf size (next_byte p).0 m p (next_byte p).1 _ (next_byte-lt p is)
      (next_byte-Round p)
      (bytes_loop-Written size (buf + 1) (update m buf (next_byte p).0) (next_byte p).1
        (next_byte-IsState p is))

ready-IsState :
    (b : Bool) (p : Prng) → (b ≡ false) ⊎ IsState p → IsState (if b then p else random_init 0)
ready-IsState true p (inl e) = absurd (ground (arith, e))
ready-IsState true p (inr is) = is
ready-IsState false p h = random_init-IsState 0

-- random_bytes (), from a state that is not initialised or whose array is a permutation of the bytes,
-- writes bytes to the `size` places of the block and to no other; they are the output of as many
-- rounds of RC4's generator, from the state itself or, where it is not initialised, from that of the
-- seed 0, and the last round's state is left, whose array is a permutation of the bytes.
pub random_bytes_lem :
    (buf size : ℕ) (m : Mem) (p : Prng)
    → (p.inited ≡ false) ⊎ IsState p
    → Written buf size m (if p.inited then p else random_init 0) (random_bytes buf size m p)
unfolding random_bytes
random_bytes_lem buf size m p h =
    bytes_loop-Written size buf m (if p.inited then p else random_init 0)
      (ready-IsState p.inited p h)
