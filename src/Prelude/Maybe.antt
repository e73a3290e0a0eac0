-- ===== src/Prelude/Maybe.antt =====
-- Code that can fail: `none` is a failed ASSERT (a kernel panic) or undefined behaviour.
use mathlib.Core.Path.{◌≡◌, refl, subst}
use juntos.Prelude.Tests.{if◌then◌else◌}
use mathlib.Core.Bool.{Bool, true, false}
use mathlib.Core.Option.{Option, none, some}

infixl 5 ◌>>=◌ ◌>>◌
abbrev pub ◌>>=◌ {ℓ κ} : {A : Type ℓ} {B : Type κ} → Option A → (A → Option B) → Option B
none >>= f = none
some a >>= f = f a

abbrev pub ◌>>◌ {ℓ} : {B : Type ℓ} → Option (Unit {0}) → Option B → Option B
m >> k = m >>= λ _. k

-- ASSERT of include/lib/debug.h, in a kernel compiled without NDEBUG.
abbrev pub assert : Bool → Option (Unit {0})
assert true = some tt
assert false = none

abbrev pub is_some {ℓ} : {A : Type ℓ} → Option A → Bool
is_some none = false
is_some (some _) = true

-- Total correctness: the code does not fail, and its result has the property.
pub data Returns {ℓ κ} {A : Type ℓ} (P : A → Type κ) : Option A → Type (ℓ ⊔ κ) where
  returns : {a : A} → P a → Returns P (some a)

module _ {ℓ κ μ} {A : Type ℓ} {B : Type κ} {P : B → Type μ} where
  pub bind-Returns :
      {m : Option A} (f : A → Option B) (a : A) → m ≡ some a → Returns P (f a) → Returns P (m >>= f)
  bind-Returns f a e r = rw e r

  pub call-Returns {ν} :
      {Q : A → Type ν} {m : Option A} (f : A → Option B)
      → Returns Q m
      → ((a : A) → Q a → Returns P (f a))
      → Returns P (m >>= f)
  call-Returns f (returns q) k = k _ q

-- The same for a property that covers failures too.
module _ {ℓ κ μ} {A : Type ℓ} {B : Type κ} (G : Option B → Type μ) where
  pub call_any {ν} :
      {Q : A → Type ν} {m : Option A} (f : A → Option B)
      → Returns Q m
      → ((a : A) → Q a → G (f a))
      → G (m >>= f)
  call_any f (returns q) k = k _ q

  pub bind_any : {m : Option A} (f : A → Option B) (a : A) → m ≡ some a → G (f a) → G (m >>= f)
  bind_any f a e g = rw e g

module _ {ℓ μ} {A : Type ℓ} (G : Option A → Type μ) (b : Bool) where
  pub assert_any : (m : Option A) → b ≡ true → G m → G (assert b >> m)
  assert_any m e g = rw e g

  pub else_any : (m n : Option A) → b ≡ false → G n → G (if b then m else n)
  else_any m n e g = rw e g

pub bind-none {ℓ κ} :
    {A : Type ℓ} {B : Type κ} {m : Option A} (f : A → Option B) → m ≡ none → (m >>= f) ≡ none
bind-none f e = rw e refl

pub assert-none {ℓ} : {A : Type ℓ} (b : Bool) (m : Option A) → b ≡ false → (assert b >> m) ≡ none
assert-none b m e = rw e refl

module _ {ℓ κ} {A : Type ℓ} {P : A → Type κ} where
  pub assert-Returns :
      (b : Bool) (m : Option A) → b ≡ true → Returns P m → Returns P (assert b >> m)
  assert-Returns b m e r = rw e r

  pub Returns-mono {μ} :
      {Q : A → Type μ} {m : Option A} → Returns P m → ((a : A) → P a → Q a) → Returns Q m
  Returns-mono (returns p) k = returns (k _ p)

  pub Returns-then :
      {b : Bool} (m n : Option A) → b ≡ true → Returns P m → Returns P (if b then m else n)
  Returns-then m n e r = rw e r

  pub Returns-else :
      {b : Bool} (m n : Option A) → b ≡ false → Returns P n → Returns P (if b then m else n)
  Returns-else m n e r = rw e r

  pub Returns-of_eq : {m : Option A} {a : A} → m ≡ some a → P a → Returns P m
  Returns-of_eq e p = rw e (returns p)

  -- The result of a run that is known.
  pub Returns-elim : {m : Option A} {a : A} → Returns P m → m ≡ some a → P a
  Returns-elim {a} (returns {a = b} p) e = let same : b ≡ a = cc in subst P same p
