-- ===== src/Base/Int.antt =====
-- Python's integers: `negsuc n` is -(n + 1). Only what the program does with them.
use native.Mathlib.Omega.{arith}
use Prim.Native.Nat.{ℕ, zero, suc, ◌-◌, ◌-◌}
use mathlib.Core.Path.{refl, ◌≡◌, refl}
use mathlib.Core.Bool.{Bool, true, false}
use imprint.Base.Tests.{◌==◌, ltb, leb, if◌then◌else◌}

pub data ℤ : Type 0 where
  pos : ℕ → ℤ
  negsuc : ℕ → ℤ

-- `max(0, n)`
abbrev pub pos_part : ℤ → ℕ
pos_part (pos n) = n
pos_part (negsuc n) = 0

abbrev pub neg_part : ℤ → ℕ
neg_part (pos n) = 0
neg_part (negsuc n) = suc n

-- `a - b` of two numbers that are not negative
abbrev pub sub_ℕ : ℕ → ℕ → ℤ
sub_ℕ a b = if leb b a then pos (a - b) else negsuc (b - a - 1)

-- `-n` for a number that is not negative
abbrev pub negate_ℕ : ℕ → ℤ
negate_ℕ zero = pos zero
negate_ℕ (suc n) = negsuc n

abbrev pub negate : ℤ → ℤ
negate (pos n) = negate_ℕ n
negate (negsuc n) = pos (suc n)

abbrev pub ltbℤ : ℤ → ℤ → Bool
ltbℤ (pos a) (pos b) = ltb a b
ltbℤ (pos a) (negsuc b) = false
ltbℤ (negsuc a) (pos b) = true
ltbℤ (negsuc a) (negsuc b) = ltb b a

-- `a > 0`
abbrev pub positive : ℤ → Bool
positive (pos n) = ltb 0 n
positive (negsuc n) = false

pub positive-ltbℤ : (a : ℤ) → positive a ≡ ltbℤ (pos 0) a
positive-ltbℤ (pos n) = refl
positive-ltbℤ (negsuc n) = refl

pub ltbℤ_asym : (a b : ℤ) → ltbℤ a b ≡ true → ltbℤ b a ≡ false
ltbℤ_asym (pos a) (pos b) h = ground arith
ltbℤ_asym (pos a) (negsuc b) h = cc
ltbℤ_asym (negsuc a) (pos b) h = refl
ltbℤ_asym (negsuc a) (negsuc b) h = ground arith

abbrev pub eqbℤ : ℤ → ℤ → Bool
eqbℤ (pos a) (pos b) = a == b
eqbℤ (negsuc a) (negsuc b) = a == b
eqbℤ _ _ = false

pub eqbℤ-eq : (a b : ℤ) → eqbℤ a b ≡ true → a ≡ b
eqbℤ-eq (pos a) (pos b) h = ground arith
eqbℤ-eq (negsuc a) (negsuc b) h = ground arith
eqbℤ-eq (pos a) (negsuc b) h = cc
eqbℤ-eq (negsuc a) (pos b) h = cc
