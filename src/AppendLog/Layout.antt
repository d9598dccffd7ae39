-- ===== src/AppendLog/Layout.antt =====
-- The bytes of one record of src/append_log.c.
use zedis.Base.{
  ℕ, zero, suc, ◌+◌, ◌^◌, ◌≤◌, ◌<◌, ◌≡◌, refl, sym, ap, ◌∙◌, List, [], ◌∷◌, ◌++◌, length, take,
  drop, arith, append_assoc, length-append, length-take, take-append-drop, take-append_self,
  drop-append_self, drop-drop,
}
use zedis.Base.Bytes.{memcpy}
use zedis.AppendLog.{header, record_size, prev_off, key_len, val_len, val_at}

memcpy-append :
    (xs ys : List ℕ) (n : ℕ) (s : List ℕ)
    → memcpy (xs ++ ys) (length xs + n) s ≡ xs ++ memcpy ys n s
memcpy-append [] ys n s = ap (λ k. memcpy ys k s) (omega arith)
memcpy-append (x ∷ xs) ys n s =
    let e : length (x ∷ xs) + n ≡ suc (length xs + n) = omega arith in
    let f : suc (length xs + n) + length s ≡ suc (length xs + n + length s) = omega arith in
    rw (e, f) (ap (◌∷◌ x) (memcpy-append xs ys n s))

drop-append_right : (xs ys : List ℕ) (n : ℕ) → drop (length xs + n) (xs ++ ys) ≡ drop n ys
drop-append_right xs ys n =
    sym (drop-drop n (length xs) (xs ++ ys)) ∙ ap (drop n) (drop-append_self xs ys)

-- A write at `n` leaves the first bytes as they are.
pub take-memcpy_early :
    (k n : ℕ) (dst s : List ℕ) → k ≤ n → n ≤ length dst → take k (memcpy dst n s) ≡ take k dst
take-memcpy_early zero n dst s h l = refl
take-memcpy_early (suc k) zero dst s h l = absurd (omega arith)
take-memcpy_early (suc k) (suc n) [] s h l = absurd (omega arith)
take-memcpy_early (suc k) (suc n) (d ∷ dst) s h l =
    let f : suc n + length s ≡ suc (n + length s) = omega arith in
    rw f (ap (◌∷◌ d) (take-memcpy_early k n dst s (omega arith) (omega arith)))

-- A write behind an offset, seen from the offset.
pub drop-memcpy_late :
    (off n : ℕ) (dst s : List ℕ)
    → off ≤ length dst
    → drop off (memcpy dst (off + n) s) ≡ memcpy (drop off dst) n s
drop-memcpy_late off n dst s h =
    let front : List ℕ = take off dst in
    let len : length front ≡ off = length-take off dst ∙ omega arith in
    ap (λ d. drop off (memcpy d (off + n) s)) (sym (take-append-drop off dst))
    ∙ (ap (λ k. drop k (memcpy (front ++ drop off dst) (k + n) s)) (sym len)
        ∙ (ap (drop (length front)) (memcpy-append front (drop off dst) n s)
            ∙ drop-append_self front (memcpy (drop off dst) n s)))

memcpy-append_end : (xs ys s : List ℕ) → memcpy (xs ++ ys) (length xs) s ≡ xs ++ memcpy ys 0 s
memcpy-append_end xs ys s = ap (λ k. memcpy (xs ++ ys) k s) (omega arith) ∙ memcpy-append xs ys 0 s

-- Three writes, each behind the one before it.
pub written_thrice :
    (dst xs ys zs : List ℕ)
    → take
        (length xs + length ys + length zs)
        (memcpy (memcpy (memcpy dst 0 xs) (length xs) ys) (length xs + length ys) zs)
      ≡ xs ++ (ys ++ zs)
written_thrice dst xs ys zs =
    let d1 : List ℕ = drop (0 + length xs) dst in
    let d2 : List ℕ = drop (0 + length ys) d1 in
    let n : length (xs ++ (ys ++ zs)) ≡ length xs + length ys + length zs =
      omega (arith, length-append xs (ys ++ zs), length-append ys zs) in
    let m : length (xs ++ ys) ≡ length xs + length ys = length-append xs ys in
    let e : memcpy (xs ++ (ys ++ d2)) (length xs + length ys) zs
        ≡ (xs ++ (ys ++ zs)) ++ drop (0 + length zs) d2 =
      ap (λ k. memcpy (xs ++ (ys ++ d2)) k zs) (sym m)
      ∙ (ap (λ d. memcpy d (length (xs ++ ys)) zs) (sym (append_assoc xs ys d2))
          ∙ (memcpy-append_end (xs ++ ys) d2 zs
              ∙ (sym (append_assoc (xs ++ ys) zs (drop (0 + length zs) d2))
                  ∙ ap (λ l. l ++ drop (0 + length zs) d2) (append_assoc xs ys zs)))) in
    ap (λ d. take (length xs + length ys + length zs) (memcpy d (length xs + length ys) zs))
      (memcpy-append_end xs d1 ys)
    ∙ (ap (take (length xs + length ys + length zs)) e
        ∙ (ap (λ k. take k ((xs ++ (ys ++ zs)) ++ drop (0 + length zs) d2)) (sym n)
            ∙ take-append_self (xs ++ (ys ++ zs)) (drop (0 + length zs) d2)))

-- The bytes of a record.
abbrev pub packed : ℕ → List ℕ → List ℕ → List ℕ
packed prev key val = header prev (length key) (length val) ++ (key ++ val)

pub length-packed :
    (prev : ℕ) (key val : List ℕ)
    → length (packed prev key val) ≡ record_size (length key) (length val)
length-packed prev key val = omega (arith, length-append key val)

module _ (prev : ℕ) (key val rest : List ℕ) (p : prev < 2 ^ 32) (k : length key < 2 ^ 16)
    (v : length val < 2 ^ 16) where
  pub prev_off-packed : prev_off (packed prev key val ++ rest) ≡ prev
  prev_off-packed = omega arith

  pub key_len-packed : key_len (packed prev key val ++ rest) ≡ length key
  key_len-packed = omega arith

  pub val_len-packed : val_len (packed prev key val ++ rest) ≡ length val
  val_len-packed = omega arith

  pub val_at-packed : val_at (packed prev key val ++ rest) ≡ val
  val_at-packed =
      rw (key_len-packed, val_len-packed)
        (ap (take (length val)) (
            drop-append_right (header prev (length key) (length val)) (key ++ val ++ rest)
              (length key))
          ∙ (ap (λ xs. take (length val) (drop (length key) xs)) (append_assoc key val rest)
              ∙ (ap (take (length val)) (drop-append_self key (val ++ rest))
                  ∙ take-append_self val rest)))
