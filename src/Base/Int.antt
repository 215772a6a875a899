-- ===== src/Base/Int.antt =====
-- Python's integers, over the native numbers, under the library's names.
use Prim.Native.Nat.{ℕ, suc, ◌+◌, ◌-◌}
use mathlib.Core.Path.{◌≡◌}
use mathlib.Core.Bool.{Bool, true}
use native.Mathlib.Omega.{arith}
use air2lean.Base.Tests.{leb, ◌==◌, if◌then◌else◌}

-- `negsuc n` is -(n + 1).
pub data ℤ : Type 0 where
  pos : ℕ → ℤ
  negsuc : ℕ → ℤ

abbrev pub pos_part : ℤ → ℕ
pos_part (pos n) = n
pos_part (negsuc n) = 0

abbrev pub neg_part : ℤ → ℕ
neg_part (pos n) = 0
neg_part (negsuc n) = suc n

-- `-n`
abbrev pub neg_ℕ : ℕ → ℤ
neg_ℕ n = if n == 0 then pos 0 else negsuc (n - 1)

abbrev pub int_eq : ℤ → ℤ → Bool
int_eq (pos a) (pos b) = a == b
int_eq (negsuc a) (negsuc b) = a == b
int_eq _ _ = Bool.false

infixl 60 ◌+ℤ◌
abbrev pub ◌+ℤ◌ : ℤ → ℤ → ℤ
pos a +ℤ pos b = pos (a + b)
pos a +ℤ negsuc b = if leb a b then negsuc (b - a) else pos (a - b - 1)
negsuc a +ℤ pos b = if leb b a then negsuc (a - b) else pos (b - a - 1)
negsuc a +ℤ negsuc b = negsuc (suc (a + b))

-- `abs(a - b)`
abbrev pub distance : ℤ → ℤ → ℕ
distance a b =
    let x = pos_part a + neg_part b in
    let y = pos_part b + neg_part a in if leb y x then x - y else y - x

pub int_eq→eq : (a b : ℤ) → int_eq a b ≡ true → a ≡ b
int_eq→eq (pos a) (pos b) h = ground arith
int_eq→eq (negsuc a) (negsuc b) h = ground arith
int_eq→eq _ _ h = cc

pub int_eq_refl : (a : ℤ) → int_eq a a ≡ true
int_eq_refl (pos a) = ground arith
int_eq_refl (negsuc a) = ground arith
