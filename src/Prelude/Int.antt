-- ===== src/Prelude/Int.antt =====
-- Signed counters: the integers as far as `isize` counters are raised and lowered by one.
use Prim.Native.Nat.{ℕ, zero, suc, ◌+◌}
use mathlib.Core.Path.{◌≡◌, refl}
use mathlib.Core.Bool.{Bool, true, false}
use native.Mathlib.Omega.{arith}

-- `negsuc n` is -(n + 1).
pub data ℤ : Type 0 where
  pos : ℕ → ℤ
  negsuc : ℕ → ℤ

abbrev pub incr : ℤ → ℤ
incr (pos n) = pos (suc n)
incr (negsuc zero) = pos 0
incr (negsuc (suc n)) = negsuc n

abbrev pub decr : ℤ → ℤ
decr (pos zero) = negsuc 0
decr (pos (suc n)) = pos n
decr (negsuc n) = negsuc (suc n)

-- `x > 0`
abbrev pub is_positive : ℤ → Bool
is_positive (pos zero) = false
is_positive (pos (suc n)) = true
is_positive (negsuc n) = false

-- `x = a - b` for counts `a` and `b`
abbrev pub IsDifference : ℤ → ℕ → ℕ → Type 0
IsDifference (pos n) a b = n + b ≡ a
IsDifference (negsuc n) a b = suc n + a ≡ b

pub incr-IsDifference : (x : ℤ) (a b : ℕ) → IsDifference x a b → IsDifference (incr x) (a + 1) b
incr-IsDifference (pos n) a b h = omega arith
incr-IsDifference (negsuc zero) a b h = omega arith
incr-IsDifference (negsuc (suc n)) a b h = omega arith

pub decr-IsDifference : (x : ℤ) (a b : ℕ) → IsDifference x a b → IsDifference (decr x) a (b + 1)
decr-IsDifference (pos zero) a b h = omega arith
decr-IsDifference (pos (suc n)) a b h = omega arith
decr-IsDifference (negsuc n) a b h = omega arith

-- Lowering a counter does not make it positive, and raising a positive one leaves it positive.
pub is_positive-decr : (x : ℤ) → is_positive x ≡ false → is_positive (decr x) ≡ false
is_positive-decr (pos zero) h = refl
is_positive-decr (pos (suc n)) h = absurd (cc)
is_positive-decr (negsuc n) h = refl
