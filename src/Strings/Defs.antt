-- ===== src/Strings/Defs.antt =====
-- lib/string.c: strings as sequences of bytes, and what stands in memory.
use juntos.Prelude.{ℕ, ◌+◌, ◌<◌, ◌≤◌, ◌≡◌, ◌≢◌, ◌⊎◌, List, [], ◌∷◌}
use juntos.Strings.Block.{Mem}

-- At `s` stand the characters `bs`, none of them a null byte, and a null byte.
pub data IsString (m : Mem) : ℕ → List ℕ → Type 0 where
  end : {s : ℕ} → m s ≡ 0 → IsString m s []
  char : {s b : ℕ} {bs : List ℕ} → m s ≡ b → b ≢ 0 → IsString m (s + 1) bs → IsString m s (b ∷ bs)

-- The block at `dst` holds what the one at `src` did, and the rest is as it was.
pub record Copied (dst src size : ℕ) (m n : Mem) : Type 0 where
  pub inside : (i : ℕ) → i < size → n (dst + i) ≡ m (src + i)
  pub outside : (a : ℕ) → (a < dst) ⊎ (dst + size ≤ a) → n a ≡ m a
