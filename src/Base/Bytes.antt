-- ===== src/Base/Bytes.antt =====
-- Byte arrays and C strings. A byte is a number; `memcpy` replaces a stretch of the array.
use zedis.Base.{ℕ, zero, suc, ◌+◌, ◌≤◌, ◌<◌, ◌≡◌, refl, ap, ◌∙◌, List, [], ◌∷◌, ◌++◌, arith}
use zedis.Base.{length, take, drop, length-append, length-take, length-drop}
use zedis.Base.{take-append_self, drop-append_left, append_assoc, ◌-◌, sym}

-- memcpy(dst + off, src, length src)
abbrev pub memcpy {ℓ} : {A : Type ℓ} → List A → ℕ → List A → List A
memcpy dst off src = take off dst ++ (src ++ drop (off + length src) dst)

-- The C string that stands in an array: what comes before its first NUL.
unfoldable pub cstr : List ℕ → List ℕ
cstr [] = []
cstr (zero ∷ cs) = []
cstr (suc c ∷ cs) = suc c ∷ cstr cs

-- No byte is NUL.
abbrev pub Text : List ℕ → Type 0
Text [] = Unit
Text (c ∷ cs) = (0 < c) × Text cs

pub cstr-terminated : (s rest : List ℕ) → Text s → cstr (s ++ 0 ∷ rest) ≡ s
unfolding cstr
cstr-terminated [] rest h = refl
cstr-terminated (zero ∷ s) rest h = absurd (omega (arith, h.0))
cstr-terminated (suc c ∷ s) rest h = ap (◌∷◌ (suc c)) (cstr-terminated s rest h.1)

-- A text is all of its C string.
pub cstr_all : (s : List ℕ) → Text s → cstr s ≡ s
unfolding cstr
cstr_all [] h = refl
cstr_all (zero ∷ s) h = absurd (omega (arith, h.0))
cstr_all (suc c ∷ s) h = ap (◌∷◌ (suc c)) (cstr_all s h.1)

pub take-Text : (n : ℕ) (s : List ℕ) → Text s → Text (take n s)
take-Text zero s h = tt
take-Text (suc n) [] h = tt
take-Text (suc n) (c ∷ s) h = (h.0, take-Text n s h.1)

pub length-memcpy {ℓ} :
    {A : Type ℓ} (dst : List A) (off : ℕ) (src : List A)
    → off + length src ≤ length dst
    → length (memcpy dst off src) ≡ length dst
length-memcpy dst off src h =
    rw
      (
        length-append (take off dst) (src ++ drop (off + length src) dst),
        length-append src (drop (off + length src) dst),
        length-take,
        length-drop,
      )
      (omega arith)

drop-take-append {ℓ} :
    {A : Type ℓ} (n : ℕ) (xs ys : List A) → n ≤ length xs → drop n (take n xs ++ ys) ≡ ys
drop-take-append zero xs ys h = refl
drop-take-append (suc n) [] ys h = absurd (omega arith)
drop-take-append (suc n) (x ∷ xs) ys h = drop-take-append n xs ys (omega arith)

-- What was written is read back, by offset and length.
pub take-drop-memcpy {ℓ} :
    {A : Type ℓ} (dst : List A) (off : ℕ) (src : List A)
    → off ≤ length dst
    → take (length src) (drop off (memcpy dst off src)) ≡ src
take-drop-memcpy dst off src h =
    ap (take (length src)) (drop-take-append off dst (src ++ drop (off + length src) dst) h)
    ∙ take-append_self src (drop (off + length src) dst)

take_none {ℓ} : {A : Type ℓ} (k : ℕ) → take {A = A} k [] ≡ []
take_none zero = refl
take_none (suc k) = refl

pub drop-take {ℓ} :
    {A : Type ℓ} (n m : ℕ) (xs : List A) → drop n (take m xs) ≡ take (m - n) (drop n xs)
drop-take zero m xs = ap (λ k. take k xs) (omega arith)
drop-take (suc n) zero xs =
    (let e : 0 ≡ 0 - suc n = omega arith in ap (λ k. take k (drop (suc n) xs)) e)
drop-take (suc n) (suc m) [] = sym (take_none (suc m - suc n))
drop-take (suc n) (suc m) (x ∷ xs) = drop-take n m xs ∙ ap (λ k. take k (drop n xs)) (omega arith)

-- Bytes written behind a stretch lengthen it.
pub take-memcpy :
    (n m : ℕ) (dst src : List ℕ)
    → n ≤ m
    → m ≤ length dst
    → take (m + length src - n) (drop n (memcpy dst m src)) ≡ take (m - n) (drop n dst) ++ src
take-memcpy n m dst src le h =
    let front : List ℕ = take (m - n) (drop n dst) in
    let size : length front ≡ m - n =
      rw (length-take (m - n) (drop n dst), length-drop n dst) (omega arith) in
    let len : length (take m dst) ≡ m = rw (length-take m dst) (omega arith) in
    let all : m + length src - n ≡ length (front ++ src) =
      rw (length-append front src, size) (omega arith) in
    let rest : List ℕ = drop (m + length src) dst in
    rw
      (
        all,
        drop-append_left n (take m dst) (src ++ rest) (omega (arith, len)),
        drop-take n m dst,
        ← append_assoc front src rest,
      )
      (take-append_self (front ++ src) rest)
