-- ===== src/Resp/Format/Text.antt =====
-- What the formats of src/resp_format.c leave in the caller's array.
use zedis.Base.{
  ℕ, suc, ◌+◌, ◌-◌, ◌%◌, ◌^◌, true, lt→ltb, ◌≤◌, ◌<◌, ◌≡◌, refl, sym, ap, ◌∙◌, false, List, [], ◌∷◌,
  ◌++◌, ltb, leb, ◌==◌, arith, inl, inr, Bool-cases, ltb→lt, ltb→le, leb→le, take, drop, length,
  length-append, append_assoc, take-append_left, take_all, take-append_self, length-take,
}
use zedis.Base.Int.{pos, negsuc}
use zedis.Base.Bytes.{memcpy, length-memcpy, take-memcpy}
use zedis.Resp.Format.{
  to_int, format_line, append_str, decimal, crlf, printed, Reply, terminated, format_bulk,
}

-- A byte string as a bulk string.
abbrev pub bulk_text : List ℕ → List ℕ
bulk_text bytes = 36 ∷ decimal (length bytes) ++ (crlf ++ (bytes ++ crlf))

-- Bytes written at `m` stand behind the first `m`.
take-memcpy_end :
    (m : ℕ) (dst src : List ℕ)
    → m ≤ length dst
    → take (m + length src) (memcpy dst m src) ≡ take m dst ++ src
take-memcpy_end m dst src h =
    let e : m + length src - 0 ≡ m + length src = omega arith in
    let f : m - 0 ≡ m = omega arith in rw (e, f) at (take-memcpy 0 m dst src (omega arith) h)

-- Bytes written at `m` leave the first `m` alone.
take-memcpy_before :
    (m : ℕ) (dst src : List ℕ) → m ≤ length dst → take m (memcpy dst m src) ≡ take m dst
take-memcpy_before m dst src h =
    let n : length (take m dst) ≡ m = length-take m dst ∙ omega arith in
    take-append_left m (take m dst) (src ++ drop (m + length src) dst) (omega (arith, n))
    ∙ take_all m (take m dst) (omega (arith, n))

-- What a call of a format made: `text`, with a NUL behind it, or -1.
pub data Written (dst : List ℕ) (size : ℕ) (text : List ℕ) (r : Reply) : Type 0 where
  written :
      (d : List ℕ)
      → r ≡ (pos (length text), d)
      → length text < size
      → take (length text + 1) d ≡ text ++ (0 ∷ [])
      → length d ≡ length dst
      → Written dst size text r
  too_long :
      (d : List ℕ)
      → r ≡ (negsuc 0, d)
      → size ≤ length text
      → length d ≡ length dst
      → Written dst size text r

-- The array begins with the text, and has room for `more` bytes behind it.
record Holds (size : ℕ) (dst : List ℕ) (d text : List ℕ) (more : ℕ) : Type 0 where
  front : take (length text) d ≡ text
  same : length d ≡ length dst
  room : length text + more ≤ length dst

put-Holds :
    (size : ℕ) (dst d text s : List ℕ) (more : ℕ)
    → Holds size dst d text (length s + more)
    → Holds size dst (memcpy d (length text) s) (text ++ s) more
put-Holds size dst d text s more h =
    let n = length-append text s in
    record {
      front =
          ap (λ k. take k (memcpy d (length text) s)) n
          ∙ (take-memcpy_end (length text) d s (omega (arith, h.same, h.room))
              ∙ ap (λ x. x ++ s) h.front);
      same = length-memcpy d (length text) s (omega (arith, h.same, h.room)) ∙ h.same;
      room = omega (arith, n, h.room);
    }

to_int-small : (n : ℕ) → n < 2 ^ 31 → to_int n ≡ pos n
to_int-small n h =
    let m : n % 2 ^ 32 ≡ n = omega arith in
    let l : ltb n (2 ^ 31) ≡ true = lt→ltb _ _ h in rw (m, l) refl

terminated-Written :
    (size : ℕ) (dst d text : List ℕ)
    → size ≤ 2 ^ 31
    → Holds size dst d text 1
    → length text < size
    → Written dst size text (terminated d (length text))
terminated-Written size dst d text int h l =
    let e =
      put-Holds size dst d text (0 ∷ []) 0
        (record { front = h.front; same = h.same; room = omega (arith, h.room) }) in
    written _
      (ap (λ n. (n, memcpy d (length text) (0 ∷ []))) (to_int-small (length text) (omega arith))) l
      (ap (λ k. take k (memcpy d (length text) (0 ∷ []))) (sym (length-append text (0 ∷ [])))
        ∙ e.front)
      e.same

printed-Holds :
    (size : ℕ) (dst text : List ℕ) (more : ℕ)
    → length text < size
    → size ≤ length dst
    → length text + more ≤ length dst
    → Holds size dst (printed dst size text) text more
printed-Holds size dst text more l h r =
    let z : (size == 0) ≡ false = ground arith in
    let all : take (size - 1) text ≡ text = take_all (size - 1) text (omega arith) in
    let n = length-append text (0 ∷ []) in
    rw (z, all)
      (record {
        front =
            ap (take (length text))
              (append_assoc text (0 ∷ []) (drop (0 + length (text ++ 0 ∷ [])) dst))
            ∙ take-append_self text ((0 ∷ []) ++ drop (0 + length (text ++ 0 ∷ [])) dst);
        same = length-memcpy dst 0 (text ++ 0 ∷ []) (omega (arith, n));
        room = r;
      })

printed-size :
    (size : ℕ) (dst text : List ℕ) → size ≤ length dst → length (printed dst size text) ≡ length dst
printed-size size dst text h = elim (Bool-cases (size == 0)) [
  | inl z ↦ rw z refl
  | inr z ↦
      let p : 0 < size = positive size z in
      rw z (
        length-memcpy dst 0 (take (size - 1) text ++ 0 ∷ []) (
          omega
            (arith, p, length-append (take (size - 1) text) (0 ∷ []), length-take (size - 1) text)))
]
  where
    positive : (n : ℕ) → (n == 0) ≡ false → 0 < n
    positive n h = ground arith

-- The stores of `resp_format_bulk` behind its first line.
after_head :
    (dst : List ℕ) (size : ℕ) (head bytes : List ℕ)
    → size ≤ 2 ^ 31
    → size ≤ length dst
    → length head + length bytes + 3 ≤ size
    → Written dst size (head ++ bytes ++ crlf) (
        terminated
          (memcpy
            (memcpy (printed dst size head) (length head) bytes)
            (length head + length bytes)
            crlf)
          (length head + length bytes + 2))
after_head dst size head bytes int h k =
    let n = length-append head bytes in
    let m : length (head ++ bytes ++ crlf) ≡ length head + length bytes + 2 =
      length-append (head ++ bytes) crlf ∙ omega (arith, n) in
    let a = printed-Holds size dst head (length bytes + 3) (omega arith) h (omega arith) in
    let b = put-Holds size dst (printed dst size head) head bytes 3 a in
    let c =
      put-Holds size dst (memcpy (printed dst size head) (length head) bytes) (head ++ bytes) crlf 1
        b in
    rw (n, m) at
      (terminated-Written size dst
        (memcpy (memcpy (printed dst size head) (length head) bytes) (length (head ++ bytes)) crlf)
        (head ++ bytes ++ crlf) int c (omega (arith, m)))

-- With a `size` of 2 ^ 31 at most and an array of at least `size` bytes, `resp_format_bulk` returns the length of the bulk string when that
-- is below `size`, and the array then begins with the bulk string and a NUL; otherwise it returns -1. It
-- never writes past the array.
pub format_bulk-Written :
    (dst : List ℕ) (size : ℕ) (bytes : List ℕ)
    → size ≤ 2 ^ 31
    → size ≤ length dst
    → Written dst size (bulk_text bytes) (format_bulk dst size bytes)
unfolding format_bulk
format_bulk-Written dst size bytes int h = elim (Bool-cases (leb size n)) [
  | inl l ↦ rw l (
      let k = leb→le size n l in
      too_long _ refl (omega (arith, total)) (printed-size size dst head h))
  | inr l ↦ elim (Bool-cases (ltb size (n + length bytes + 3))) [
    | inl m ↦
        rw (l, m)
          (let k = ltb→lt size _ m in
            too_long _ refl (omega (arith, total)) (printed-size size dst head h))
    | inr m ↦ rw (l, m, ← same) (after_head dst size head bytes int h (ltb→le size _ m))
  ]
]
  where
    head : List ℕ
    head = 36 ∷ decimal (length bytes) ++ crlf

    n : ℕ
    n = length head

    same : head ++ bytes ++ crlf ≡ bulk_text bytes
    same =
        append_assoc (36 ∷ decimal (length bytes) ++ crlf) bytes crlf
        ∙ append_assoc (36 ∷ decimal (length bytes)) crlf (bytes ++ crlf)

    total : length (bulk_text bytes) ≡ n + length bytes + 2
    total = omega (
      arith,
      length-append (decimal (length bytes)) (crlf ++ (bytes ++ crlf)),
      length-append (decimal (length bytes)) crlf,
      length-append bytes crlf,
    )

respelt :
    {size : ℕ} {dst text d d' : List ℕ} (n : ℕ)
    → Written dst size text (terminated d (length text))
    → d ≡ d'
    → length text ≡ n
    → Written dst size text (terminated d' n)
respelt n w e f = rw (e, f) at w

-- With a `size` of 2 ^ 31 at most and an array of at least `size` bytes, the simple string and the error
-- string of a reply are written as their mark, the bytes and CR LF, with a NUL behind, and the number of
-- bytes before the NUL is returned, when it is below `size`; otherwise the call returns -1. It never writes past the array.
pub format_line-Written :
    (mark : ℕ) (dst : List ℕ) (size : ℕ) (str : List ℕ)
    → size ≤ 2 ^ 31
    → size ≤ length dst
    → Written dst size (mark ∷ str ++ crlf) (format_line mark dst size str)
unfolding format_line append_str
format_line-Written mark dst size str int h = elim (Bool-cases (leb size 1)) [
  | inl l ↦ rw l (let k = leb→le size 1 l in too_long dst refl (omega (arith, total)) refl)
  | inr l ↦
      let k1 = below 1 l in
      let a =
        put-Holds size dst dst [] (mark ∷ []) 1
          (record { front = refl; same = refl; room = omega arith }) in
      elim (Bool-cases (leb size (1 + length str))) [
        | inl m ↦
            rw (l, m)
              (let k = leb→le size (1 + length str) m in
                too_long _ refl (omega (arith, total)) a.same)
        | inr m ↦
            let k2 = below (1 + length str) m in
            let b =
              put-Holds size dst (memcpy dst 0 (mark ∷ [])) (mark ∷ []) str 1
                (record { front = a.front; same = a.same; room = omega arith }) in
            elim (Bool-cases (leb size (1 + length str + 2))) [
              | inl n ↦
                  rw (l, m, n)
                    (let k = leb→le size (1 + length str + 2) n in
                      too_long _ refl (omega (arith, total)) b.same)
              | inr n ↦
                  let k3 = below (1 + length str + 2) n in
                  let e : suc (length str) ≡ 1 + length str = omega arith in
                  let f : length (mark ∷ str ++ crlf) ≡ 1 + length str + 2 = omega (arith, total) in
                  let c =
                    put-Holds size dst (memcpy (memcpy dst 0 (mark ∷ [])) 1 str) (mark ∷ str) crlf 1
                      (record { front = b.front; same = b.same; room = omega arith }) in
                  let d : List ℕ = memcpy (memcpy dst 0 (mark ∷ [])) 1 str in
                  rw (l, m, n)
                    (respelt (1 + length str + 2)
                      (terminated-Written size dst (memcpy d (suc (length str)) crlf)
                        (mark ∷ str ++ crlf) int c (omega (arith, f)))
                      (ap (λ k. memcpy d k crlf) e) f)
            ]
      ]
]
  where
    total : length (mark ∷ str ++ crlf) ≡ length str + 3
    total = length-append (mark ∷ str) crlf ∙ omega arith

    below : (n : ℕ) → leb size n ≡ false → n < size
    below n e = ground arith
