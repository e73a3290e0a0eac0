-- ===== src/Hash/Fnv.antt =====
-- lib/kernel/hash.c: the Fowler-Noll-Vo hashes of bytes, strings and integers, on 32 bits.
use Prim.Native.Nat.{bit_xor}
use juntos.Prelude.{
  ℕ, zero, suc, ◌+◌, ◌-◌, ◌*◌, ◌/◌, ◌%◌, ◌^◌, ◌<◌, ◌≡◌, refl, ◌≢◌, false, not, ◌&&◌, Option, none,
  some, ◌==◌, ltb, leb, if◌then◌else◌, assert, ◌>>◌, List, [], ◌∷◌, length, arith,
}
use juntos.Prelude.Bits.{bit_xor-lt}
use juntos.Strings.Block.{Mem, null}
use juntos.Strings.Defs.{IsString, end, char}

abbrev pub fnv_32_prime : ℕ
fnv_32_prime = 16777619

abbrev pub fnv_32_basis : ℕ
fnv_32_basis = 2166136261

-- (hash * FNV_32_PRIME) ^ *buf++
unfoldable pub fnv_byte : (hash byte : ℕ) → ℕ
fnv_byte hash byte = bit_xor (hash * fnv_32_prime % 2 ^ 32) byte

unfoldable pub hash_bytes_loop : (size buf hash : ℕ) → Mem → ℕ
unfolding fnv_byte
hash_bytes_loop zero buf hash m = hash
hash_bytes_loop (suc size) buf hash m = hash_bytes_loop size (buf + 1) (fnv_byte hash (m buf)) m

unfoldable pub hash_bytes : (buf size : ℕ) → Mem → Option ℕ
unfolding hash_bytes_loop
hash_bytes buf size m = do
  assert (not (buf == null))
  some (hash_bytes_loop size buf fnv_32_basis m)

unfoldable pub hash_string_loop : (fuel s hash : ℕ) → Mem → Option ℕ
unfolding fnv_byte
hash_string_loop zero s hash m = none
hash_string_loop (suc fuel) s hash m =
    if m s == 0 then some hash else hash_string_loop fuel (s + 1) (fnv_byte hash (m s)) m

unfoldable pub hash_string : (fuel s : ℕ) → Mem → Option ℕ
unfolding hash_string_loop
hash_string fuel s m = do assert (not (s == null)); hash_string_loop fuel s fnv_32_basis m

-- `at` is where the parameter stands, with its least significant byte first.
unfoldable pub hash_int : (at i : ℕ) → Mem → Option ℕ
unfolding hash_bytes
hash_int at i m =
    hash_bytes at 4
      (λ p. if leb at p && ltb p (at + 4) then i / 2 ^ (8 * (p - at)) % 2 ^ 8 else m p)

hash_string_loop-eq :
    (m : Mem) (s : ℕ) (bs : List ℕ) (fuel hash : ℕ)
    → IsString m s bs
    → length bs < fuel
    → hash_string_loop fuel s hash m ≡ some (hash_bytes_loop (length bs) s hash m)
unfolding hash_string_loop hash_bytes_loop
hash_string_loop-eq m s bs zero hash is h = absurd (omega arith)
hash_string_loop-eq m s [] (suc fuel) hash (end e) h = rw e refl
hash_string_loop-eq m s (b ∷ bs) (suc fuel) hash (char e ne rest) h =
    let set : (m s == 0) ≡ false = ground arith in
    rw set (hash_string_loop-eq m (s + 1) bs fuel (fnv_byte hash (m s)) rest (omega arith))

fnv_byte-lt : (hash byte : ℕ) → byte < 2 ^ 8 → fnv_byte hash byte < 2 ^ 32
unfolding fnv_byte
fnv_byte-lt hash byte h =
    bit_xor-lt 32 (hash * fnv_32_prime % 2 ^ 32) byte (omega arith) (omega arith)

hash_bytes_loop-lt :
    (size buf hash : ℕ) (m : Mem)
    → ((a : ℕ) → m a < 2 ^ 8)
    → hash < 2 ^ 32
    → hash_bytes_loop size buf hash m < 2 ^ 32
unfolding hash_bytes_loop
hash_bytes_loop-lt zero buf hash m bytes h = h
hash_bytes_loop-lt (suc size) buf hash m bytes h =
    hash_bytes_loop-lt size (buf + 1) (fnv_byte hash (m buf)) m bytes
      (fnv_byte-lt hash (m buf) (bytes buf))

-- hash_string () of a string is hash_bytes () of its characters, an unsigned int; fuel for every
-- character and the null byte is enough.
pub hash_string_lem :
    (m : Mem) (s : ℕ) (bs : List ℕ) (fuel : ℕ)
    → IsString m s bs
    → ((a : ℕ) → m a < 2 ^ 8)
    → s ≢ null
    → length bs < fuel
    → (n : ℕ) × (hash_string fuel s m ≡ some n)
      × (hash_bytes s (length bs) m ≡ some n)
      × (n < 2 ^ 32)
unfolding hash_string hash_bytes
hash_string_lem m s bs fuel is bytes set h =
    let ok : (s == null) ≡ false = ground arith in
    (
      hash_bytes_loop (length bs) s fnv_32_basis m,
      rw ok (hash_string_loop-eq m s bs fuel fnv_32_basis is h),
      rw ok refl,
      hash_bytes_loop-lt (length bs) s fnv_32_basis m bytes (omega arith),
    )
