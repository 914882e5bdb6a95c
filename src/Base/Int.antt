-- ===== src/Base/Int.antt =====
-- Signed integers over the native numbers: `negsuc n` is -(n + 1).
use Prim.Native.Nat.{ℕ, suc, ◌-◌}
use mathlib.Core.Path.{◌≡◌, refl}
use mathlib.Core.Logic.{◌↔◌}
use mathlib.Core.Bool.{Bool, true, false}
use native.Mathlib.Omega.{arith}
use kitchensync.Base.Tests.{ltb, leb, ◌==◌, if◌then◌else◌}

pub data ℤ : Type 0 where
  pos : ℕ → ℤ
  negsuc : ℕ → ℤ

-- a - b, as an integer.
abbrev pub sub_ℕ : ℕ → ℕ → ℤ
sub_ℕ a b = if leb b a then pos (a - b) else negsuc (b - a - 1)

-- `i64::abs`
abbrev pub abs : ℤ → ℤ
abs (pos n) = pos n
abs (negsuc n) = pos (suc n)

abbrev pub lt_ℤ : ℤ → ℤ → Bool
lt_ℤ (pos a) (pos b) = ltb a b
lt_ℤ (pos a) (negsuc b) = false
lt_ℤ (negsuc a) (pos b) = true
lt_ℤ (negsuc a) (negsuc b) = ltb b a

abbrev pub le_ℤ : ℤ → ℤ → Bool
le_ℤ (pos a) (pos b) = leb a b
le_ℤ (pos a) (negsuc b) = false
le_ℤ (negsuc a) (pos b) = true
le_ℤ (negsuc a) (negsuc b) = leb b a

abbrev pub eq_ℤ : ℤ → ℤ → Bool
eq_ℤ (pos a) (pos b) = a == b
eq_ℤ (negsuc a) (negsuc b) = a == b
eq_ℤ a b = false

pub eq_ℤ_iff : (a b : ℤ) → (eq_ℤ a b ≡ true) ↔ (a ≡ b)
eq_ℤ_iff (pos a) (pos b) = ground arith
eq_ℤ_iff (pos a) (negsuc b) = ground arith
eq_ℤ_iff (negsuc a) (pos b) = ground arith
eq_ℤ_iff (negsuc a) (negsuc b) = ground arith

pub le_ℤ-refl : (a : ℤ) → le_ℤ a a ≡ true
le_ℤ-refl (pos a) = ground arith
le_ℤ-refl (negsuc a) = ground arith

pub le_ℤ-of_lt : (a b : ℤ) → lt_ℤ a b ≡ true → le_ℤ a b ≡ true
le_ℤ-of_lt (pos a) (pos b) h = ground arith
le_ℤ-of_lt (pos a) (negsuc b) h = ground arith
le_ℤ-of_lt (negsuc a) (pos b) h = refl
le_ℤ-of_lt (negsuc a) (negsuc b) h = ground arith

pub le_ℤ-of_not_lt : (a b : ℤ) → lt_ℤ a b ≡ false → le_ℤ b a ≡ true
le_ℤ-of_not_lt (pos a) (pos b) h = ground arith
le_ℤ-of_not_lt (pos a) (negsuc b) h = refl
le_ℤ-of_not_lt (negsuc a) (pos b) h = ground arith
le_ℤ-of_not_lt (negsuc a) (negsuc b) h = ground arith

pub le_ℤ-trans : (a b c : ℤ) → le_ℤ a b ≡ true → le_ℤ b c ≡ true → le_ℤ a c ≡ true
le_ℤ-trans (pos a) (pos b) (pos c) h k = ground arith
le_ℤ-trans (negsuc a) (negsuc b) (negsuc c) h k = ground arith
le_ℤ-trans (negsuc a) b (pos c) h k = refl
le_ℤ-trans (pos a) (negsuc b) c h k = ground arith
le_ℤ-trans (pos a) (pos b) (negsuc c) h k = ground arith
le_ℤ-trans (negsuc a) (pos b) (negsuc c) h k = ground arith

pub le_ℤ-antisymm : (a b : ℤ) → le_ℤ a b ≡ true → le_ℤ b a ≡ true → a ≡ b
le_ℤ-antisymm (pos a) (pos b) h k = ground arith
le_ℤ-antisymm (pos a) (negsuc b) h k = ground arith
le_ℤ-antisymm (negsuc a) (pos b) h k = ground arith
le_ℤ-antisymm (negsuc a) (negsuc b) h k = ground arith
