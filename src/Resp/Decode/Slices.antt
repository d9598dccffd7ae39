-- ===== src/Resp/Decode/Slices.antt =====
-- Stretches of the buffer, and what the scanners of src/resp_scan.c find in them.
use zedis.Base.{
  ℕ, zero, suc, ◌+◌, ◌-◌, ◌*◌, ◌^◌, Option, ◌≤◌, ◌<◌, ◌≡◌, ◌≢◌, refl, sym, ap, ap₂, ◌∙◌, Bool, true,
  false, some, none, List, [], ◌∷◌, ◌++◌, length, get_or, take, drop, take-split, drop-drop, ◌==◌,
  arith, inl, inr, Bool-cases, ltb, leb, ◌&&◌, length-take, length-drop,
}
use zedis.Base.Int.{ℤ, pos}
use zedis.Base.Run.{Run, done, undefined}
use zedis.Resp.Scan.{
  byte_at, slice, find_from, find_crlf, find_lf, digits, is_digit, signed, with_sign, parse_int,
  skip_while,
}
use zedis.Resp.Format.{crlf}
use zedis.Resp.Decode.Lines.{Digits, value_of}
use zedis.Resp.Decode.Grammar.{AllOf, NoCrlf, Numeral, plain, minus, opposite, not_lf}

drop_cons : (xs : List ℕ) (i : ℕ) → i < length xs → drop i xs ≡ get_or xs i 0 ∷ drop (suc i) xs
drop_cons [] i h = absurd (omega arith)
drop_cons (x ∷ xs) zero h = refl
drop_cons (x ∷ xs) (suc i) h = drop_cons xs i (omega arith)

pub slice_cons :
    (buf : List ℕ) (a b : ℕ)
    → a < length buf
    → a < b
    → slice buf a b ≡ byte_at buf a ∷ slice buf (a + 1) b
slice_cons buf a b l h =
    let e : b - a ≡ suc (b - (a + 1)) = omega arith in
    let f : suc a ≡ a + 1 = omega arith in
    ap₂ (λ n xs. take n xs) e (drop_cons buf a l ∙ ap (λ k. byte_at buf a ∷ drop k buf) f)

pub slice_none : (buf : List ℕ) (a b : ℕ) → b ≤ a → slice buf a b ≡ []
slice_none buf a b h = let e : b - a ≡ 0 = omega arith in ap (λ k. take k (drop a buf)) e

pub slice_join :
    (buf : List ℕ) (a b c : ℕ) → a ≤ b → b ≤ c → slice buf a b ++ slice buf b c ≡ slice buf a c
slice_join buf a b c h k =
    let e : a + (b - a) ≡ b = omega arith in
    let f : b - a + (c - b) ≡ c - a = omega arith in
    ap (λ xs. slice buf a b ++ take (c - b) xs)
      (sym (drop-drop (b - a) a buf ∙ ap (λ n. drop n buf) e))
    ∙ (sym (take-split (b - a) (c - b) (drop a buf)) ∙ ap (λ n. take n (drop a buf)) f)

pub length-slice : (buf : List ℕ) (a b : ℕ) → b ≤ length buf → length (slice buf a b) ≡ b - a
length-slice buf a b h = omega (arith, length-take (b - a) (drop a buf), length-drop a buf)

get_or-slice :
    (n : ℕ) (buf : List ℕ) (a k : ℕ)
    → k < n
    → get_or (take n (drop a buf)) k 0 ≡ get_or buf (a + k) 0
get_or-slice zero buf a k h = absurd (omega arith)
get_or-slice (suc n) [] zero k h = refl
get_or-slice (suc n) [] (suc a) k h = refl
get_or-slice (suc n) (x ∷ buf) zero zero h = refl
get_or-slice (suc n) (x ∷ buf) zero (suc k) h =
    let e : suc (0 + k) ≡ 0 + suc k = omega arith in
    get_or-slice n buf zero k (omega arith) ∙ ap (λ j. get_or (x ∷ buf) j 0) e
get_or-slice (suc n) (x ∷ buf) (suc a) k h =
    let e : suc (a + k) ≡ suc a + k = omega arith in
    get_or-slice (suc n) buf a k h ∙ ap (λ j. get_or (x ∷ buf) j 0) e

pub byte-slice :
    (buf : List ℕ) (a b k : ℕ) → k < b - a → get_or (slice buf a b) k 0 ≡ byte_at buf (a + k)
byte-slice buf a b k h = get_or-slice (b - a) buf a k h

find_from-found :
    (fuel : ℕ) (buf : List ℕ) (w i c : ℕ)
    → find_from fuel buf w i ≡ some c
    → (byte_at buf c ≡ 13) × (byte_at buf (c + 1) ≡ 10)
unfolding find_from
find_from-found zero buf w i c h = cc
find_from-found (suc fuel) buf w i c h = ground (arith, find_from-found fuel buf w (i + 1) c)

find_from-first :
    (fuel : ℕ) (buf : List ℕ) (w i c j : ℕ)
    → find_from fuel buf w i ≡ some c
    → i ≤ j
    → j < c
    → byte_at buf j ≡ 13
    → byte_at buf (j + 1) ≢ 10
unfolding find_from
find_from-first zero buf w i c j h a b p q = cc
find_from-first (suc fuel) buf w i c j h a b p q =
    ground (arith, find_from-first fuel buf w (i + 1) c j)

-- The two bytes behind a line.
pub slice-crlf :
    (buf : List ℕ) (w i c : ℕ)
    → find_crlf buf w i ≡ some c
    → c + 1 < length buf
    → slice buf c (c + 2) ≡ crlf
unfolding find_crlf
slice-crlf buf w i c h l =
    let (a, b) = find_from-found (w - i) buf w i c h in
    slice_cons buf c (c + 2) (omega arith) (omega arith)
    ∙ ap₂ ◌∷◌ a (
        slice_cons buf (c + 1) (c + 2) l (omega arith)
        ∙ ap₂ ◌∷◌ b (slice_none buf (c + 1 + 1) (c + 2) (omega arith)))

pub line-NoCrlf :
    (buf : List ℕ) (w i c : ℕ)
    → find_crlf buf w i ≡ some c
    → c ≤ length buf
    → NoCrlf (slice buf i c)
unfolding find_crlf
line-NoCrlf buf w i c h l k m p q =
    let n = length-slice buf i c l in
    let e : i + (k + 1) ≡ i + k + 1 = omega arith in
    find_from-first (w - i) buf w i c (i + k) h (omega arith) (omega (arith, n, m))
      (sym (byte-slice buf i c k (omega (arith, n, m))) ∙ p)
      (ap (byte_at buf) (sym e) ∙ (sym (byte-slice buf i c (k + 1) (omega (arith, n, m))) ∙ q))

-- Digits, and the number they spell.
digits_sound :
    (fuel : ℕ) (buf : List ℕ) (i v n : ℕ)
    → i + fuel ≤ length buf
    → digits fuel buf i v ≡ done (some n)
    → Digits (slice buf i (i + fuel)) × (value_of v (slice buf i (i + fuel)) ≡ n)
unfolding digits
digits_sound zero buf i v n l h =
    let e : v ≡ n = cc in rw (slice_none buf i (i + 0) (omega arith)) (tt, e)
digits_sound (suc fuel) buf i v n l h =
    let next : ℕ = v * 10 + (byte_at buf i - 48) in
    elim (Bool-cases (is_digit (byte_at buf i))) [
      | inr d ↦ absurd (let k = rw d at h in cc)
      | inl d ↦ elim (Bool-cases (ltb next (2 ^ 63))) [
        | inr s ↦ absurd (let k = rw (d, s) at h in cc)
        | inl s ↦
            let (ds, e) = digits_sound fuel buf (i + 1) next n (omega arith) (rw (d, s) at h) in
            let end : i + suc fuel ≡ i + 1 + fuel = omega arith in
            let low : 48 ≤ byte_at buf i = ground arith in
            let high : byte_at buf i ≤ 57 = ground arith in
            rw (end, slice_cons buf i (i + 1 + fuel) (omega arith) (omega arith))
              ((low, high, ds), e)
      ]
    ]

signed-opposite : (n : ℕ) → signed true n ≡ opposite n
signed-opposite zero = refl
signed-opposite (suc n) = refl

with_sign-inv :
    (neg : Bool) (r : Run (Option ℕ)) (z : ℤ)
    → with_sign neg r ≡ done (some z)
    → (n : ℕ) × (r ≡ done (some n)) × (signed neg n ≡ z)
with_sign-inv neg undefined z h = absurd cc
with_sign-inv neg (done none) z h = absurd cc
with_sign-inv neg (done (some n)) z h = (n, refl, cc)

-- `resp__parse_int` reads numerals.
pub parse_int-Numeral :
    (buf : List ℕ) (from to : ℕ) (z : ℤ)
    → to ≤ length buf
    → parse_int buf from to ≡ done (some z)
    → Numeral (slice buf from to) z
unfolding parse_int
parse_int-Numeral buf from to z l h = elim (Bool-cases (leb to from)) [
  | inl e ↦ absurd (let k = rw e at h in cc)
  | inr e ↦
      let some_bytes : from < to = ground arith in
      elim (Bool-cases (byte_at buf from == 45)) [
        | inl m ↦ elim (Bool-cases (ltb (from + 1) to && is_digit (byte_at buf (from + 1)))) [
          | inr d ↦ absurd (let k = rw (e, m, d) at h in cc)
          | inl d ↦
              let more : from + 1 < to = ground arith in
              let (n, run, s) =
                with_sign-inv true (digits (to - (from + 1)) buf (from + 1) 0) z
                  (rw (e, m, d) at h) in
              let end : from + 1 + (to - (from + 1)) ≡ to = omega arith in
              let (ds, v) =
                rw end at (digits_sound (to - (from + 1)) buf (from + 1) 0 n (omega arith) run) in
              minus (slice buf (from + 1) to)
                (slice_cons buf from to (omega arith) some_bytes
                  ∙ ap (λ c. c ∷ slice buf (from + 1) to) (ground arith))
                ds (omega (arith, length-slice buf (from + 1) to l, more))
                (sym s ∙ (signed-opposite n ∙ ap opposite (sym v)))
        ]
        | inr m ↦ elim (Bool-cases (ltb from to && is_digit (byte_at buf from))) [
          | inr d ↦ absurd (let k = rw (e, m, d) at h in cc)
          | inl d ↦
              let (n, run, s) =
                with_sign-inv false (digits (to - from) buf from 0) z (rw (e, m, d) at h) in
              let end : from + (to - from) ≡ to = omega arith in
              let (ds, v) = rw end at (digits_sound (to - from) buf from 0 n (omega arith) run) in
              plain ds (omega (arith, length-slice buf from to l, some_bytes))
                (sym s ∙ ap pos (sym v))
        ]
      ]
]

-- How far a loop over one kind of bytes runs.
pub record Stretch (test : ℕ → Bool) (buf : List ℕ) (i end j : ℕ) : Type 0 where
  pub from : i ≤ j
  pub to : j ≤ end
  pub pass : AllOf test (slice buf i j)
  pub stops : j < end → test (byte_at buf j) ≡ false

pub skip_while-runs :
    (test : ℕ → Bool) (fuel : ℕ) (buf : List ℕ) (i : ℕ)
    → i + fuel ≤ length buf
    → Stretch test buf i (i + fuel) (skip_while test fuel buf i)
unfolding skip_while
skip_while-runs test zero buf i l = record {
  from = omega arith;
  to = omega arith;
  pass = rw (slice_none buf i i (omega arith)) tt;
  stops = λ h. absurd (omega arith);
}
skip_while-runs test (suc fuel) buf i l = elim (Bool-cases (test (byte_at buf i))) [
  | inr e ↦ rw e (record {
    from = omega arith;
    to = omega arith;
    pass = rw (slice_none buf i i (omega arith)) tt;
    stops = λ h. e;
  })
  | inl e ↦
      let r = skip_while-runs test fuel buf (i + 1) (omega arith) in
      let j : ℕ = skip_while test fuel buf (i + 1) in
      rw e (record {
        from = omega (arith, r.from);
        to = omega (arith, r.to);
        pass = rw (slice_cons buf i j (omega arith) (omega (arith, r.from))) (e, r.pass);
        stops = λ h. r.stops (omega arith);
      })
]

-- The first LF, and the bytes before it.
pub find_lf-found :
    (fuel : ℕ) (buf : List ℕ) (i c : ℕ)
    → i + fuel ≤ length buf
    → find_lf fuel buf i ≡ some c
    → (byte_at buf c ≡ 10) × AllOf not_lf (slice buf i c) × (i ≤ c) × (c < i + fuel)
unfolding find_lf
find_lf-found zero buf i c l h = absurd cc
find_lf-found (suc fuel) buf i c l h = elim (Bool-cases (byte_at buf i == 10)) [
  | inl e ↦
      let f : i ≡ c = (let k = rw e at h in cc) in
      (ground arith, rw (slice_none buf i c (omega arith)) tt, omega arith, omega arith)
  | inr e ↦
      let (b, a, f, g) = find_lf-found fuel buf (i + 1) c (omega arith) (rw e at h) in
      (
        b,
        rw (slice_cons buf i c (omega arith) (omega arith)) (rw e refl, a),
        omega arith,
        omega arith,
      )
]
