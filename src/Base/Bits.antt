-- ===== src/Base/Bits.antt =====
-- Bit laws at variables: one step of each operation, masks, and single binary digits.
use Prim.Native.Nat.{digits, bit_and, bit_or, bit_and-bitwise, bit_or-bitwise, max}
use native.Mathlib.Decide.{dec_lt}
use native.Mathlib.Nat.{
  mod-lt, pow-suc, mod-eq_of_lt, mul-add-mod_self_right, div-add-mod', div-div-eq-div-mul,
  pow-succ', add-suc,
}
use zedis.Base.{
  ℕ, zero, suc, ◌+◌, ◌-◌, ◌*◌, ◌/◌, ◌%◌, ◌^◌, ◌≤◌, ◌<◌, min, ◌≡◌, refl, sym, ap, ◌∙◌, arith,
}

-- The operations of the native numbers, on `digits` of some merge `f` and some rest `z`.
module _ (z : ℕ → ℕ) (f : ℕ → ℕ → ℕ) where
  spare : (a b n m : ℕ) → (a ≤ n) × (a ≤ m) → digits z f n a b ≡ digits z f m a b
  spare zero b zero zero h = refl
  spare zero b zero (suc m) h = refl
  spare zero b (suc n) zero h = refl
  spare zero b (suc n) (suc m) h = refl
  spare (suc a) b zero m h = absurd (omega (arith, h.0))
  spare (suc a) b (suc n) zero h = absurd (omega (arith, h.1))
  spare (suc a) b (suc n) (suc m) h =
      let (p, q) = h in
      let inner = spare (suc a / 2) (b / 2) n m (omega arith, omega arith) in
      ap (λ d. d * 2 + f (suc a % 2) (b % 2)) inner

  -- One step of the operation that they make.
  halves :
      (op : ℕ → ℕ → ℕ)
      → ((x y : ℕ) → op x y ≡ digits z f x x y)
      → (c y : ℕ) → op (suc c) y ≡ op (suc c / 2) (y / 2) * 2 + f (suc c % 2) (y % 2)
  halves op law c y =
      law (suc c) y
      ∙ ap (λ d. d * 2 + f (suc c % 2) (y % 2))
          (spare (suc c / 2) (y / 2) c (suc c / 2) (omega arith, omega arith)
            ∙ sym (law (suc c / 2) (y / 2)))

pub or_none : (y : ℕ) → bit_or 0 y ≡ y
or_none = bit_or-bitwise 0

and_halves : (x y : ℕ) → bit_and x y ≡ bit_and (x / 2) (y / 2) * 2 + min (x % 2) (y % 2)
and_halves (suc c) y = halves (λ y. 0) min bit_and bit_and-bitwise c y
and_halves zero y =
    let none_here = bit_and-bitwise 0 y in let none_above = bit_and-bitwise 0 (y / 2) in omega arith

or_halves : (x y : ℕ) → bit_or x y ≡ bit_or (x / 2) (y / 2) * 2 + max (x % 2) (y % 2)
or_halves (suc c) y = halves (λ y. y) max bit_or bit_or-bitwise c y
or_halves zero y = let here = or_none y in let above = or_none (y / 2) in omega arith

and_none : (bound x : ℕ) → x ≤ bound → bit_and x 0 ≡ 0
and_none bound zero le = bit_and-bitwise 0 0
and_none zero (suc c) le = absurd (omega arith)
and_none (suc bound) (suc c) le =
    let rest = and_none bound (suc c / 2) (omega arith) in
    let whole = and_halves (suc c) 0 in omega arith

pub pow_suc : (k : ℕ) → 2 ^ suc k ≡ 2 ^ k + 2 ^ k
pow_suc k = omega (arith, pow-suc 2 k)

pub pow_pos : (k : ℕ) → 1 ≤ 2 ^ k
pow_pos zero = omega arith
pow_pos (suc k) = omega (arith, pow_suc k, pow_pos k)

pub pow-add : (m k : ℕ) → 2 ^ (m + k) ≡ 2 ^ m * 2 ^ k
pow-add zero k = rw (let e : 0 + k ≡ k = omega arith in e) (omega arith)
pow-add (suc m) k =
    rw (let e : suc m + k ≡ suc (m + k) = omega arith in e, pow_suc (m + k), pow_suc m)
      (omega (arith, pow-add m k))

pub pred-mul : (a b : ℕ) → 1 ≤ a → (a - 1) * b + b ≡ a * b
pred-mul zero b h = absurd (omega arith)
pred-mul (suc a) b h = rw (let e : suc a - 1 ≡ a = omega arith in e) (omega arith)

pub mod_unique : (q m r : ℕ) → r < m → (q * m + r) % m ≡ r
mod_unique q m r h = mul-add-mod_self_right q m r ∙ mod-eq_of_lt h

-- The low `k + 1` digits are the low `k` digits of the half, and the last one.
pub mod_pow_suc : (k a : ℕ) → a % 2 ^ suc k ≡ a / 2 % 2 ^ k * 2 + a % 2
mod_pow_suc k a =
    ap (λ t. t % 2 ^ suc k) split
    ∙ mod_unique (a / 2 / 2 ^ k) (2 ^ suc k) (a / 2 % 2 ^ k * 2 + a % 2)
        (omega (arith, pow_suc k, mod-lt (a / 2) (pow_pos k)))
  where
    split : a ≡ a / 2 / 2 ^ k * 2 ^ suc k + (a / 2 % 2 ^ k * 2 + a % 2)
    split = rw pow_suc (omega (arith, div-add-mod' (a / 2) (2 ^ k)))

-- A mask of `k` low bits is the remainder by `2 ^ k`.
pub bit_and_mask : (k a : ℕ) → bit_and a (2 ^ k - 1) ≡ a % 2 ^ k
bit_and_mask zero a = omega (arith, and_none a a (omega arith))
bit_and_mask (suc k) a =
    rw (and_halves a (2 ^ suc k - 1), half, bit_and_mask k (a / 2), mod_pow_suc k a)
      (omega (arith, pow_suc k, pow_pos k))
  where
    half : (2 ^ suc k - 1) / 2 ≡ 2 ^ k - 1
    half = omega (arith, pow_suc k, pow_pos k)

pub div_pow_suc : (k x : ℕ) → x / 2 ^ suc k ≡ x / 2 / 2 ^ k
div_pow_suc k x = rw (pow-succ' 2 k) (sym (div-div-eq-div-mul x 2 (2 ^ k)))

-- A mask of high bits clears the low `k` ones.
pub bit_and_high :
    (k m x : ℕ) → x < 2 ^ m * 2 ^ k → bit_and x ((2 ^ m - 1) * 2 ^ k) ≡ x / 2 ^ k * 2 ^ k
bit_and_high zero m x h =
    rw (let e : (2 ^ m - 1) * 2 ^ 0 ≡ 2 ^ m - 1 = omega arith in e, bit_and_mask m x)
      (omega (arith, mod-eq_of_lt {n = x} {m = 2 ^ m} (omega arith)))
bit_and_high (suc k) m x h = rw (div_pow_suc k x) (
    omega (
      arith,
      pow_suc k,
      double,
      and_halves x ((2 ^ m - 1) * 2 ^ suc k),
      ap (bit_and (x / 2)) half,
      bit_and_high k m (x / 2) small,
      ap (λ t. x / 2 / 2 ^ k * t) (pow_suc k),
    ))
  where
    double : (2 ^ m - 1) * 2 ^ suc k ≡ (2 ^ m - 1) * 2 ^ k + (2 ^ m - 1) * 2 ^ k
    double = rw pow_suc (omega arith)

    half : (2 ^ m - 1) * 2 ^ suc k / 2 ≡ (2 ^ m - 1) * 2 ^ k
    half = omega (arith, double)

    small : x / 2 < 2 ^ m * 2 ^ k
    small = omega (arith, ap (λ t. 2 ^ m * t) (pow_suc k))

-- The binary digit of weight `2 ^ i`.
abbrev pub digit : ℕ → ℕ → ℕ
digit x zero = x % 2
digit x (suc i) = digit (x / 2) i

pub digit-bit_or : (a b i : ℕ) → digit (bit_or a b) i ≡ max (digit a i) (digit b i)
digit-bit_or a b zero = omega (arith, or_halves a b)
digit-bit_or a b (suc i) =
    rw (let e : bit_or a b / 2 ≡ bit_or (a / 2) (b / 2) = omega (arith, or_halves a b) in e)
      (digit-bit_or (a / 2) (b / 2) i)

-- A right shift by `k` drops the low `k` digits.
pub digit-shift : (x k i : ℕ) → digit (x / 2 ^ k) i ≡ digit x (k + i)
digit-shift x zero i =
    let e : x / 2 ^ 0 ≡ x = omega arith in
    let f : i ≡ 0 + i = omega arith in ap (λ t. digit t i) e ∙ ap (digit x) f
digit-shift x (suc k) i =
    rw (let e : suc k + i ≡ suc (k + i) = omega arith in e, ← digit-shift (x / 2) k i)
      (ap (λ t. digit t i) (div_pow_suc k x))

pub digit-lt : (x i : ℕ) → digit x i < 2
digit-lt x zero = omega arith
digit-lt x (suc i) = digit-lt (x / 2) i

-- A number of at most `l` digits, all of them 1.
pub all_ones : (l x : ℕ) → x < 2 ^ l → ((i : ℕ) → i < l → digit x i ≡ 1) → x ≡ 2 ^ l - 1
all_ones zero x h ones = omega arith
all_ones (suc l) x h ones = omega (
  arith,
  pow_suc l,
  pow_pos l,
  ones 0 (omega arith),
  all_ones l (x / 2) (omega (arith, pow_suc l)) (λ i p. ones (suc i) (omega arith)),
)

-- Digits above the length are 0.
pub digit_high : (l x i : ℕ) → x < 2 ^ l → l ≤ i → digit x i ≡ 0
digit_high zero x zero h p = omega arith
digit_high zero x (suc i) h p = digit_high zero (x / 2) i (omega arith) (omega arith)
digit_high (suc l) x zero h p = absurd (omega arith)
digit_high (suc l) x (suc i) h p = digit_high l (x / 2) i (omega (arith, pow_suc l)) (omega arith)

-- The leading digit is 1.
pub digit_top : (l x : ℕ) → 2 ^ l ≤ x → x < 2 ^ suc l → digit x l ≡ 1
digit_top zero x p q = omega arith
digit_top (suc l) x p q =
    digit_top l (x / 2) (omega (arith, pow_suc l)) (omega (arith, pow_suc l, pow_suc (suc l)))

-- A number whose digits from `l` on are 0 lies below `2 ^ l`.
pub lt_of_digits : (n l x : ℕ) → x < 2 ^ (l + n) → ((i : ℕ) → l ≤ i → digit x i ≡ 0) → x < 2 ^ l
lt_of_digits zero l x h z = rw (let e : l + 0 ≡ l = omega arith in e) at h
lt_of_digits (suc n) l x h z = elim (dec_lt x (2 ^ (l + n))) [
  | yes p ↦ lt_of_digits n l x p z
  | no p ↦ absurd (omega (arith, z (l + n) (omega arith), top p))
]
  where
    top : ¬ (x < 2 ^ (l + n)) → digit x (l + n) ≡ 1
    top p = digit_top (l + n) x (omega arith) (rw (← add-suc l n) h)

bit_or_le_below : (n a b : ℕ) → a ≤ n → bit_or a b ≤ a + b
bit_or_le_below n zero b h = omega (arith, or_none b)
bit_or_le_below zero (suc a) b h = absurd (omega arith)
bit_or_le_below (suc n) (suc a) b h =
    omega (arith, or_halves (suc a) b, bit_or_le_below n (suc a / 2) (b / 2) (omega arith))

pub bit_or-le-add : (a b : ℕ) → bit_or a b ≤ a + b
bit_or-le-add a b = bit_or_le_below a a b (omega arith)

-- Every positive number below `2 ^ n` has a leading digit.
pub leading : (n x : ℕ) → 0 < x → x < 2 ^ n → (l : ℕ) × (l < n) × (2 ^ l ≤ x) × (x < 2 ^ suc l)
leading zero x p h = absurd (omega arith)
leading (suc n) x p h = elim (dec_lt x (2 ^ n)) [
  | yes q ↦ let (l, a, b, c) = leading n x p q in (l, omega arith, b, c)
  | no q ↦ (n, omega arith, omega arith, h)
]
