-- ===== src/Resp/Decode/Bounds.antt =====
-- Where the scanners of src/resp_scan.c may stop, and how large a number they read.
use zedis.Base.{
  ℕ, zero, suc, ◌+◌, ◌-◌, ◌*◌, ◌^◌, ◌≤◌, ◌<◌, ◌≡◌, refl, Bool, true, false, ◌&&◌, Option, none,
  some, List, ltb, leb, ◌==◌, if◌then◌else◌, arith, inl, inr, Bool-cases,
}
use zedis.Base.Int.{pos}
use zedis.Base.Run.{Run, done, undefined}
use zedis.Resp.{Outcome, parsed, no_fuel}
use zedis.Resp.Scan.{byte_at, find_from, find_crlf, find_lf, is_digit, digits, with_sign, parse_int}
use zedis.Resp.Decode.{next}

abbrev pub Consumes : {A : Type 0} → ℕ → ℕ → Outcome A → Type 0
Consumes from w (parsed x next) = (from < next) × (next ≤ w)
Consumes from w no_fuel = ⊥
Consumes from w _ = Unit

pub find_from-bounds :
    (fuel : ℕ) (buf : List ℕ) (w i c : ℕ) → find_from fuel buf w i ≡ some c → (i ≤ c) × (c + 1 < w)
unfolding find_from
find_from-bounds zero buf w i c h = cc
find_from-bounds (suc fuel) buf w i c h = ground (arith, find_from-bounds fuel buf w (i + 1) c)

pub find_crlf-bounds :
    (buf : List ℕ) (w i c : ℕ) → find_crlf buf w i ≡ some c → (i ≤ c) × (c + 1 < w)
unfolding find_crlf
find_crlf-bounds buf w i c h = find_from-bounds (w - i) buf w i c h

pub find_lf-bounds :
    (fuel : ℕ) (buf : List ℕ) (i c : ℕ) → find_lf fuel buf i ≡ some c → (i ≤ c) × (c < i + fuel)
unfolding find_lf
find_lf-bounds zero buf i c h = cc
find_lf-bounds (suc fuel) buf i c h = ground (arith, find_lf-bounds fuel buf (i + 1) c)

pub digits-bound :
    (fuel : ℕ) (buf : List ℕ) (i value n : ℕ)
    → value < 2 ^ 63
    → digits fuel buf i value ≡ done (some n)
    → n < 2 ^ 63
unfolding digits
digits-bound zero buf i value n small h = let e : value ≡ n = cc in omega arith
digits-bound (suc fuel) buf i value n small h =
    ground (arith, digits-bound fuel buf (i + 1) (value * 10 + (byte_at buf i - 48)) n)

pub with_sign-bound :
    (neg : Bool) (r : Run (Option ℕ)) (n : ℕ)
    → with_sign neg r ≡ done (some (pos n))
    → ((m : ℕ) → r ≡ done (some m) → m < 2 ^ 63)
    → n < 2 ^ 63
with_sign-bound false (done (some m)) n h b = let e : m ≡ n = cc in let k = b m refl in omega arith
with_sign-bound true (done (some zero)) n h b = let e : 0 ≡ n = cc in omega arith
with_sign-bound true (done (some (suc m))) n h b = cc
with_sign-bound neg (done none) n h b = cc
with_sign-bound neg undefined n h b = cc

pub parse_int-bound :
    (buf : List ℕ) (from to n : ℕ) → parse_int buf from to ≡ done (some (pos n)) → n < 2 ^ 63
unfolding parse_int
parse_int-bound buf from to n h = elim (Bool-cases (leb to from)) [
  | inl e ↦ let k = rw e at h in cc
  | inr e ↦ elim (Bool-cases (ltb i to && is_digit (byte_at buf i))) [
    | inr f ↦ let k = rw (e, f) at h in cc
    | inl f ↦
        with_sign-bound (byte_at buf from == 45) (digits (to - i) buf i 0) n (rw (e, f) at h)
          (λ m. digits-bound (to - i) buf i 0 m (omega arith))
  ]
]
  where
    i : ℕ
    i = if byte_at buf from == 45 then from + 1 else from
