-- ===== src/Base/Int.antt =====
-- Signed integers over the native numbers, and the range of `int64_t` and `int`.
use zedis.Base.{
  ℕ, suc, ◌+◌, ◌-◌, ◌^◌, ◌≤◌, Bool, ltb, leb, ◌&&◌, if◌then◌else◌, ◌==◌, ◌≡◌, ◌≢◌, true, false,
  arith,
}

-- `negsuc n` is -(n + 1).
pub data ℤ : Type 0 where
  pos : ℕ → ℤ
  negsuc : ℕ → ℤ

abbrev pub pos_part : ℤ → ℕ
pos_part (pos n) = n
pos_part (negsuc n) = 0

abbrev pub neg_part : ℤ → ℕ
neg_part (pos n) = 0
neg_part (negsuc n) = suc n

-- a - b, as an integer.
abbrev pub sub_ℕ : ℕ → ℕ → ℤ
sub_ℕ a b = if leb b a then pos (a - b) else negsuc (b - a - 1)

infixl 65 ◌+ℤ◌ ◌-ℤ◌
infix 50 ◌≤ℤ◌
abbrev pub ◌+ℤ◌ : ℤ → ℤ → ℤ
a +ℤ b = sub_ℕ (pos_part a + pos_part b) (neg_part a + neg_part b)

abbrev pub ◌-ℤ◌ : ℤ → ℤ → ℤ
a -ℤ b = sub_ℕ (pos_part a + neg_part b) (neg_part a + pos_part b)

abbrev pub ◌≤ℤ◌ : ℤ → ℤ → Type 0
a ≤ℤ b = pos_part a + neg_part b ≤ pos_part b + neg_part a

abbrev pub ltb_ℤ : ℤ → ℤ → Bool
ltb_ℤ a b = ltb (pos_part a + neg_part b) (pos_part b + neg_part a)

abbrev pub leb_ℤ : ℤ → ℤ → Bool
leb_ℤ a b = leb (pos_part a + neg_part b) (pos_part b + neg_part a)

-- The value lies in the range of `int64_t`, or of `int`.
abbrev pub fits64 : ℤ → Bool
fits64 z = ltb (pos_part z) (2 ^ 63) && leb (neg_part z) (2 ^ 63)

abbrev pub fits32 : ℤ → Bool
fits32 z = ltb (pos_part z) (2 ^ 31) && leb (neg_part z) (2 ^ 31)

infix 50 ◌==ℤ◌
abbrev pub ◌==ℤ◌ : ℤ → ℤ → Bool
a ==ℤ b = (pos_part a + neg_part b) == (pos_part b + neg_part a)

pub pos_sub : (a b : ℤ) → b ≤ℤ a → a -ℤ b ≡ pos (pos_part (a -ℤ b))
pos_sub a b h = ground arith

pub sub_ne :
    (a b c : ℤ) → c ≤ℤ a → c ≤ℤ b → (a ==ℤ b) ≡ false → pos_part (b -ℤ c) ≢ pos_part (a -ℤ c)
sub_ne a b c h k e = ground arith

pub ==ℤ-eq : (a b : ℤ) → (a ==ℤ b) ≡ true → a ≡ b
==ℤ-eq a b h = ground arith
