-- ===== src/Common/Int.antt =====
-- Signed integers (std::int32_t, std::int64_t) over the native numbers, under the library's names.
-- Sums and orders go through the two parts of an integer, which are numbers that `omega` reads.
use Prim.Native.Nat.{ℕ, zero, suc, ◌+◌, ◌-◌, ◌≤◌, ◌<◌}
use mathlib.Core.Path.{◌≡◌, ap, ◌∙◌}
use mathlib.Core.Bool.{Bool}
use native.Mathlib.Omega.{arith}
use seekserve.Common.Tests.{ltb, leb, ◌==◌, if◌then◌else◌}

-- `negsuc n` is -(n + 1).
pub data ℤ : Type 0 where
  pos : ℕ → ℤ
  negsuc : ℕ → ℤ

abbrev pub pos_part : ℤ → ℕ
pos_part (pos n) = n
pos_part (negsuc n) = 0

abbrev pub neg_part : ℤ → ℕ
neg_part (pos n) = 0
neg_part (negsuc n) = suc n

-- a - b, as an integer.
abbrev pub sub_ℕ : ℕ → ℕ → ℤ
sub_ℕ a b = if leb b a then pos (a - b) else negsuc (b - a - 1)

infixl 65 ◌+ℤ◌ ◌-ℤ◌
infix 50 ◌≤ℤ◌ ◌<ℤ◌
abbrev pub ◌+ℤ◌ : ℤ → ℤ → ℤ
a +ℤ b = sub_ℕ (pos_part a + pos_part b) (neg_part a + neg_part b)

abbrev pub ◌-ℤ◌ : ℤ → ℤ → ℤ
a -ℤ b = sub_ℕ (pos_part a + neg_part b) (neg_part a + pos_part b)

abbrev pub ◌≤ℤ◌ : ℤ → ℤ → Type 0
a ≤ℤ b = pos_part a + neg_part b ≤ pos_part b + neg_part a

abbrev pub ◌<ℤ◌ : ℤ → ℤ → Type 0
a <ℤ b = pos_part a + neg_part b < pos_part b + neg_part a

abbrev pub ltb_ℤ : ℤ → ℤ → Bool
ltb_ℤ a b = ltb (pos_part a + neg_part b) (pos_part b + neg_part a)

abbrev pub leb_ℤ : ℤ → ℤ → Bool
leb_ℤ a b = leb (pos_part a + neg_part b) (pos_part b + neg_part a)

abbrev pub eqb_ℤ : ℤ → ℤ → Bool
eqb_ℤ a b = (pos_part a + neg_part b) == (pos_part b + neg_part a)

-- std::abs
abbrev pub abs : ℤ → ℕ
abs a = pos_part a + neg_part a

-- How often `for (p = lo; p < hi; ++p)` runs its body, if nothing breaks the loop.
abbrev pub rounds : ℤ → ℤ → ℕ
rounds lo hi = pos_part hi + neg_part lo - (pos_part lo + neg_part hi)

-- ++p
abbrev pub next : ℤ → ℤ
next (pos n) = pos (suc n)
next (negsuc zero) = pos 0
next (negsuc (suc n)) = negsuc n

-- p after `k` increments
abbrev pub advance : ℕ → ℤ → ℤ
advance zero p = p
advance (suc k) p = advance k (next p)

pub rounds-next : (lo hi : ℤ) (k : ℕ) → rounds lo hi ≡ suc k → rounds (next lo) hi ≡ k
rounds-next (pos n) hi k h = omega arith
rounds-next (negsuc zero) hi k h = omega arith
rounds-next (negsuc (suc n)) hi k h = omega arith

pub advance-pos : (k n : ℕ) → advance k (pos n) ≡ pos (n + k)
advance-pos zero n = ap pos (omega arith)
advance-pos (suc k) n = advance-pos k (suc n) ∙ ap pos (omega arith)

-- `next` adds one.
pub next-parts : (p : ℤ) → pos_part (next p) + neg_part p ≡ suc (pos_part p + neg_part (next p))
next-parts (pos n) = omega arith
next-parts (negsuc zero) = omega arith
next-parts (negsuc (suc n)) = omega arith

pub advance-parts :
    (k : ℕ) (p : ℤ) → pos_part (advance k p) + neg_part p ≡ k + pos_part p + neg_part (advance k p)
advance-parts zero p = omega arith
advance-parts (suc k) p = omega (arith, advance-parts k (next p), next-parts p)

pub eq_of_parts : (a b : ℤ) → pos_part a + neg_part b ≡ pos_part b + neg_part a → a ≡ b
eq_of_parts a b h = ground arith

-- Every integer from `lo` up is some increments away.
pub advance-rounds : (lo q : ℤ) → lo ≤ℤ q → advance (rounds lo q) lo ≡ q
advance-rounds lo q h =
    eq_of_parts (advance (rounds lo q) lo) q (omega (arith, advance-parts (rounds lo q) lo))

pub +ℤ-pos_parts :
    (a : ℤ) (n : ℕ) → pos_part (a +ℤ pos n) + neg_part a ≡ neg_part (a +ℤ pos n) + pos_part a + n
+ℤ-pos_parts a n = ground arith
