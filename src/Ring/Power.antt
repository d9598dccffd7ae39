-- ===== src/Ring/Power.antt =====
-- `next_power_of_two` of src/ring_buffer.c: the binary digits under its cascade of shifts.
use Prim.Native.Nat.{max}
use native.Mathlib.Decide.{dec_lt}
use native.Mathlib.Nat.{pow-le-pow_right, div-le_self}
use zedis.Base.{ℕ, suc, ◌+◌, ◌-◌, ◌/◌, ◌^◌, ◌≤◌, ◌<◌, ◌≡◌, ap, ◌∙◌, arith, lt→ltb, le→ltb}
use zedis.Base.Bits.{
  digit, digit-bit_or, digit-shift, digit-lt, digit_high, digit_top, all_ones, lt_of_digits,
  leading, bit_or-le-add, pow_suc, pow_pos,
}
use zedis.Ring.{smear, next_power_of_two}

-- A number of `l` digits whose `j` leading ones are 1.
record Ones (l j x : ℕ) : Type 0 where
  below : x < 2 ^ l
  ones : (i : ℕ) → i < l → l ≤ i + j → digit x i ≡ 1

digit-smear : (j x i : ℕ) → digit (smear j x) i ≡ max (digit x i) (digit x (j + i))
digit-smear j x i = digit-bit_or x (x / 2 ^ j) i ∙ ap (max (digit x i)) (digit-shift x j i)

-- One step of the cascade doubles the run of ones.
smear-Ones : (l j x : ℕ) → Ones l j x → Ones l (j + j) (smear j x)
smear-Ones l j x o = record {
  below =
      lt_of_digits 1 l (smear j x)
        (let e : l + 1 ≡ suc l = omega arith in
          rw (e, pow_suc l) (omega (arith, bit_or-le-add x (x / 2 ^ j), o.below, shrinks)))
        (λ i h. rw (
          digit-smear j x i,
          digit_high l x i o.below h,
          digit_high l x (j + i) o.below (omega arith),
        ));
  ones = λ i h k. rw (digit-smear j x i) (elim (dec_lt (i + j) l) [
    | no p ↦ omega (arith, o.ones i h (omega arith), digit-lt x (j + i))
    | yes p ↦ omega (arith, o.ones (j + i) (omega arith) (omega arith), digit-lt x i)
  ]);
}
  where
    shrinks : x / 2 ^ j ≤ x
    shrinks = div-le_self x (2 ^ j)

cascade :
    (l v : ℕ)
    → l ≤ 64
    → Ones l 1 v
    → smear 32 (smear 16 (smear 8 (smear 4 (smear 2 (smear 1 v))))) ≡ 2 ^ l - 1
cascade l v h o = all_ones l _ last.below (λ i p. last.ones i p (omega arith))
  where
    last : Ones l 64 (smear 32 (smear 16 (smear 8 (smear 4 (smear 2 (smear 1 v))))))
    last = smear-Ones l 32 _ (
        smear-Ones l 16 _
          (smear-Ones l 8 _ (smear-Ones l 4 _ (smear-Ones l 2 _ (smear-Ones l 1 v o)))))

-- For 1 ≤ v ≤ 2 ^ 63, `next_power_of_two` is a power of two that is at least 2 and at least `v`, and
-- less than twice `v` unless `v` is 1.
pub next_power_of_two_lem :
    (v : ℕ)
    → 0 < v
    → v ≤ 2 ^ 63
    → (k : ℕ) × (next_power_of_two v ≡ 2 ^ k) × (0 < k) × (k < 64) × (v ≤ 2 ^ k) × (2 ^ k ≤ v + v)
unfolding next_power_of_two
next_power_of_two_lem v p h = elim (dec_lt v 2) [
  | yes q ↦ (1, rw (lt→ltb v 2 q), omega arith, omega arith, omega arith, omega arith)
  | no q ↦
      let (l, l_small, from, upto) = leading 63 (v - 1) (omega arith) (omega arith) in
      (
        suc l,
        rw (le→ltb v 2 (omega arith), cascade (suc l) (v - 1) (omega arith) (top l from upto))
            (omega (
              arith,
              pow_pos (suc l),
              pow-le-pow_right {n = 2} (omega arith) {i = suc l} {j = 63} (omega arith),
            )),
        omega arith,
        omega arith,
        omega arith,
        omega (arith, pow_suc l),
      )
]
  where
    top : (l : ℕ) → 2 ^ l ≤ v - 1 → v - 1 < 2 ^ suc l → Ones (suc l) 1 (v - 1)
    top l from upto = record {
      below = upto;
      ones = λ i a b. let e : i ≡ l = omega arith in rw e (digit_top l (v - 1) from upto);
    }
