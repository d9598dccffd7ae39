-- ===== src/Resp/Decode/Lines.antt =====
-- Numbers and line ends in the buffer, as the scanners of src/resp_scan.c read them.
use zedis.Base.{
  ℕ, zero, suc, ◌+◌, ◌-◌, ◌*◌, ◌/◌, ◌%◌, ◌^◌, ◌≤◌, ◌<◌, ◌≡◌, ◌≢◌, refl, ap, ◌∙◌, true, false, some,
  List, [], ◌∷◌, ◌++◌, ltb, leb, ◌==◌, arith, inl, inr, Bool-cases, ltb→lt, lt→ltb, length,
  get_or-append_right, length-append, append_assoc,
}
use zedis.Base.Int.{pos}
use zedis.Base.Run.{done}
use zedis.Resp.Scan.{byte_at, find_from, is_digit, digits, parse_int}
use zedis.Resp.Format.{decimal_in}

-- The bytes that stand right behind `front`.
pub byte-behind : (front rest : List ℕ) (c : ℕ) → byte_at (front ++ c ∷ rest) (length front) ≡ c
byte-behind front rest c = get_or-append_right front (c ∷ rest) (length front) 0 0 (omega arith)

-- Every byte is a decimal digit.
abbrev pub Digits : List ℕ → Type 0
Digits [] = Unit
Digits (c ∷ ds) = (48 ≤ c) × (c ≤ 57) × Digits ds

abbrev pub value_of : ℕ → List ℕ → ℕ
value_of v [] = v
value_of v (c ∷ ds) = value_of (v * 10 + (c - 48)) ds

pub value_of-grows : (v : ℕ) (ds : List ℕ) → v ≤ value_of v ds
value_of-grows v [] = omega arith
value_of-grows v (c ∷ ds) = omega (arith, value_of-grows (v * 10 + (c - 48)) ds)

pub value_of-append :
    (v : ℕ) (xs : List ℕ) (c : ℕ) → value_of v (xs ++ c ∷ []) ≡ value_of v xs * 10 + (c - 48)
value_of-append v [] c = refl
value_of-append v (x ∷ xs) c = value_of-append (v * 10 + (x - 48)) xs c

pub Digits-append : (xs : List ℕ) (c : ℕ) → Digits xs → 48 ≤ c → c ≤ 57 → Digits (xs ++ c ∷ [])
Digits-append [] c d a b = (a, b, tt)
Digits-append (x ∷ xs) c (h, k, d) a b = (h, k, Digits-append xs c d a b)

pub decimal-Digits : (fuel n : ℕ) → Digits (decimal_in fuel n)
unfolding decimal_in
decimal-Digits zero n = tt
decimal-Digits (suc fuel) n = elim (Bool-cases (ltb n 10)) [
  | inl e ↦ rw e (let k = ltb→lt n 10 e in (omega arith, omega arith, tt))
  | inr e ↦ rw e (
      Digits-append (decimal_in fuel (n / 10)) (48 + n % 10) (decimal-Digits fuel (n / 10))
        (omega arith) (omega arith))
]

pub power : (n : ℕ) → 10 ^ suc n ≡ 10 * 10 ^ n
power n = omega arith

pub decimal-value : (fuel n : ℕ) → n < 10 ^ fuel → value_of 0 (decimal_in fuel n) ≡ n
unfolding decimal_in
decimal-value zero n h = omega arith
decimal-value (suc fuel) n h = elim (Bool-cases (ltb n 10)) [
  | inl e ↦ rw e (omega arith)
  | inr e ↦ rw e (
      value_of-append 0 (decimal_in fuel (n / 10)) (48 + n % 10)
      ∙ (let k =
            decimal-value fuel (n / 10)
              (let p : 10 ^ suc fuel ≡ 10 * 10 ^ fuel = power fuel in omega (arith, p)) in
          omega (arith, k)))
]

-- The loop of `resp__parse_int` over digits.
pub digits-Digits :
    (ds front rest : List ℕ) (v : ℕ)
    → Digits ds
    → value_of v ds < 2 ^ 63
    → digits (length ds) (front ++ (ds ++ rest)) (length front) v ≡ done (some (value_of v ds))
unfolding digits
digits-Digits [] front rest v d h = refl
digits-Digits (c ∷ ds) front rest v (a, b, d) h =
    let g = value_of-grows (v * 10 + (c - 48)) ds in
    let is : is_digit c ≡ true = ground arith in
    let lt : ltb (v * 10 + (c - 48)) (2 ^ 63) ≡ true = lt→ltb _ _ (omega arith) in
    let ih = digits-Digits ds (front ++ c ∷ []) rest (v * 10 + (c - 48)) d h in
    let s : length (front ++ c ∷ []) ≡ length front + 1 = length-append front (c ∷ []) in
    rw (byte-behind front (ds ++ rest) c, is, lt)
      (rw (s, append_assoc front (c ∷ []) (ds ++ rest)) at ih)

pub decimal_first : (fuel n : ℕ) → (c : ℕ) × (ds : List ℕ) × (decimal_in (suc fuel) n ≡ c ∷ ds)
unfolding decimal_in
decimal_first zero n = elim (Bool-cases (ltb n 10)) [
  | inl e ↦ (48 + n, [], rw e refl)
  | inr e ↦ (48 + n % 10, [], rw e refl)
]
decimal_first (suc fuel) n = elim (Bool-cases (ltb n 10)) [
  | inl e ↦ (48 + n, [], rw e refl)
  | inr e ↦
      let (c, ds, f) = decimal_first fuel (n / 10) in
      (c, ds ++ (48 + n % 10) ∷ [], rw e (ap (λ x. x ++ (48 + n % 10) ∷ []) f))
]

-- `resp__parse_int` over digits, one at least.
pub parse_int-Digits :
    (c : ℕ) (ds front rest : List ℕ)
    → Digits (c ∷ ds)
    → value_of 0 (c ∷ ds) < 2 ^ 63
    → parse_int (front ++ (c ∷ ds ++ rest)) (length front) (length front + length (c ∷ ds))
      ≡ done (some (pos (value_of 0 (c ∷ ds))))
unfolding parse_int
parse_int-Digits c ds front rest d h =
    let (a, b, _) = d in
    let l : leb (length front + suc (length ds)) (length front) ≡ false = ground arith in
    let minus : (c == 45) ≡ false = ground arith in
    let is : is_digit c ≡ true = ground arith in
    let room : ltb (length front) (length front + suc (length ds)) ≡ true =
      lt→ltb _ _ (omega arith) in
    let n : length front + suc (length ds) - length front ≡ suc (length ds) = omega arith in
    let e = digits-Digits (c ∷ ds) front rest 0 d h in
    rw (l, byte-behind front (ds ++ rest) c, minus)
      (rw (byte-behind front (ds ++ rest) c, room, is, n, e) refl)

-- The end of the line behind bytes without '\r'.
abbrev pub Inline : List ℕ → Type 0
Inline [] = Unit
Inline (c ∷ cs) = (c ≢ 13) × Inline cs

pub Digits-Inline : (ds : List ℕ) → Digits ds → Inline ds
Digits-Inline [] d = tt
Digits-Inline (c ∷ ds) (a, b, d) = ((λ e. omega arith), Digits-Inline ds d)

pub find_from-line :
    (fuel w : ℕ) (cs front rest : List ℕ)
    → Inline cs
    → length cs < fuel
    → length front + length cs + 1 < w
    → find_from fuel (front ++ (cs ++ (13 ∷ 10 ∷ rest))) w (length front)
      ≡ some (length front + length cs)
unfolding find_from
find_from-line zero w cs front rest i f h = absurd (omega arith)
find_from-line (suc fuel) w [] front rest i f h =
    let l : ltb (length front + 1) w ≡ true = lt→ltb _ _ (omega arith) in
    let b : byte_at (front ++ 13 ∷ 10 ∷ rest) (length front + 1) ≡ 10 =
      get_or-append_right front (13 ∷ 10 ∷ rest) (length front + 1) 1 0 refl in
    let e : length front + 0 ≡ length front = omega arith in
    rw (l, byte-behind front (10 ∷ rest) 13, b, e) refl
find_from-line (suc fuel) w (c ∷ cs) front rest (n, i) f h =
    let l : ltb (length front + 1) w ≡ true = lt→ltb _ _ (omega arith) in
    let m : (c == 13) ≡ false = ground arith in
    let s : length (front ++ c ∷ []) ≡ length front + 1 = length-append front (c ∷ []) in
    let ih = find_from-line fuel w cs (front ++ c ∷ []) rest i (omega arith) (omega arith) in
    let e : length front + 1 + length cs ≡ length front + suc (length cs) = omega arith in
    rw (l, byte-behind front (cs ++ (13 ∷ 10 ∷ rest)) c, m)
      (rw (s, append_assoc front (c ∷ []) (cs ++ (13 ∷ 10 ∷ rest)), e) at ih)
