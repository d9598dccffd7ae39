-- ===== src/AppendLog/Range.antt =====
-- The replies of `zedis_aol_lrange` of src/append_log.c against the values of the list.
use zedis.Base.{
  ℕ, suc, zero, ◌+◌, ◌-◌, ◌^◌, ◌≤◌, ◌<◌, ◌≡◌, refl, sym, ap, ◌∙◌, true, false, none, List, [], ◌∷◌,
  ◌++◌, ltb, leb, ◌==◌, Bool-cases, inl, inr, length, take, drop, arith, length-append,
  append_assoc, append-nil, take_all, drop_all, ltb→lt, ltb→le, take-append-drop, length-take,
  length-drop, leb→le, lt→leb, le→leb, if◌then◌else◌,
}
use zedis.Base.Bytes.{cstr, Text, cstr_all, drop-take}
use zedis.Base.Int.{ℤ, pos, negsuc, pos_part}
use zedis.Resp.Format.{decimal, crlf}
use zedis.Resp.Format.Text.{bulk_text}
use zedis.AppendLog.{
  Log, Meta, no_prev, record_size, prev_off, val_len, val_at, hdr_at, hdr_ptr, collect,
  element_text, count_text, fitting, emit, clip, reply_range, lrange,
}
use zedis.AppendLog.Layout.{packed, prev_off-packed, val_len-packed, val_at-packed}
use zedis.AppendLog.Chain.{Stored, Chain, IsValid, Lists}

abbrev pub Texts : List (List ℕ) → Type 0
Texts [] = Unit
Texts (v ∷ vs) = Text v × Texts vs

-- The first values: up to an index, or all of them for a negative one.
abbrev pub upto : ℤ → List (List ℕ) → List (List ℕ)
upto (pos n) vals = take (n + 1) vals
upto (negsuc n) vals = vals

abbrev pub bulks : List (List ℕ) → List ℕ
bulks [] = []
bulks (v ∷ vs) = bulk_text v ++ bulks vs

-- An array of bulk strings.
abbrev pub array_text : List (List ℕ) → List ℕ
array_text vals = count_text (length vals) ++ bulks vals

-- The offsets are those of records with these values.
abbrev Shows : Log → List ℕ → List (List ℕ) → Type 0
Shows log [] [] = Unit
Shows log [] (v ∷ vs) = ⊥
Shows log (o ∷ os) [] = ⊥
Shows log (o ∷ os) (v ∷ vs) =
    (hdr_at log o ≡ true) × (element_text log o ≡ bulk_text v) × Shows log os vs

Shows-take :
    (n : ℕ) (log : Log) (os : List ℕ) (vs : List (List ℕ))
    → Shows log os vs
    → Shows log (take n os) (take n vs)
Shows-take zero log os vs h = tt
Shows-take (suc n) log [] [] h = tt
Shows-take (suc n) log [] (v ∷ vs) h = elim h [ ]
Shows-take (suc n) log (o ∷ os) [] h = elim h [ ]
Shows-take (suc n) log (o ∷ os) (v ∷ vs) (a, b, h) = (a, b, Shows-take n log os vs h)

Shows-drop :
    (n : ℕ) (log : Log) (os : List ℕ) (vs : List (List ℕ))
    → Shows log os vs
    → Shows log (drop n os) (drop n vs)
Shows-drop zero log os vs h = h
Shows-drop (suc n) log [] [] h = tt
Shows-drop (suc n) log [] (v ∷ vs) h = elim h [ ]
Shows-drop (suc n) log (o ∷ os) [] h = elim h [ ]
Shows-drop (suc n) log (o ∷ os) (v ∷ vs) (a, b, h) = Shows-drop n log os vs h

Shows-length :
    (log : Log) (os : List ℕ) (vs : List (List ℕ)) → Shows log os vs → length os ≡ length vs
Shows-length log [] [] h = refl
Shows-length log [] (v ∷ vs) h = elim h [ ]
Shows-length log (o ∷ os) [] h = elim h [ ]
Shows-length log (o ∷ os) (v ∷ vs) (a, b, h) = ap suc (Shows-length log os vs h)

module _ (log : Log) (cur prev : ℕ) (key val : List ℕ) (valid : IsValid log)
    (s : Stored log cur prev key val) where
  rest : List ℕ
  rest = drop (record_size (length key) (length val)) (drop cur log.base)

  record_at : hdr_ptr log cur ≡ packed prev key val ++ rest
  unfolding rest
  record_at =
      sym (take-append-drop (record_size (length key) (length val)) (drop cur log.base))
      ∙ ap (λ b. b ++ drop (record_size (length key) (length val)) (drop cur log.base)) s.bytes

  k : length key < 2 ^ 16
  k = omega (arith, s.short_key)

  v : length val < 2 ^ 16
  v = omega (arith, s.short_val)

  prev_off_at : prev_off (hdr_ptr log cur) ≡ prev
  prev_off_at = ap prev_off record_at ∙ prev_off-packed prev key val rest s.offset k v

  element_text_at : Text val → element_text log cur ≡ bulk_text val
  element_text_at t =
      let len : val_len (hdr_ptr log cur) ≡ length val =
        ap val_len record_at ∙ val_len-packed prev key val rest s.offset k v in
      let at : val_at (hdr_ptr log cur) ≡ val =
        ap val_at record_at ∙ val_at-packed prev key val rest s.offset k v in
      ap (λ n. 36 ∷ decimal n ++ (crlf ++ (cstr (val_at (hdr_ptr log cur)) ++ crlf))) len
      ∙ ap (λ x. 36 ∷ decimal (length val) ++ (crlf ++ (x ++ crlf))) (ap cstr at ∙ cstr_all val t)

  below : cur < no_prev
  below = omega (arith, s.inside, valid.written, valid.addressed)

  hdr_at_on : hdr_at log cur ≡ true
  unfolding hdr_at
  hdr_at_on =
      let e : (cur == no_prev) ≡ false = ground (arith, below) in
      let f : leb (cur + 8) log.capacity ≡ true =
        le→leb _ _ (omega (arith, s.inside, valid.written)) in
      rw (e, f) refl

collect-Shows :
    (room : ℕ) (log : Log) (cur : ℕ) (vals : List (List ℕ))
    → IsValid log
    → Chain log cur vals
    → Texts vals
    → Shows log (collect room log cur) (take room vals)
unfolding collect
collect-Shows zero log cur vals valid c t = tt
collect-Shows (suc room) log cur [] valid c t = rw c tt
collect-Shows (suc room) log cur (w ∷ vals) valid (p, k, s, c) t =
    let l = below log cur p k w valid s in
    let e : (cur == no_prev) ≡ false = ground arith in
    rw (e, hdr_at_on log cur p k w valid s, prev_off_at log cur p k w valid s)
      (
        hdr_at_on log cur p k w valid s,
        element_text_at log cur p k w valid s t.0,
        collect-Shows room log p vals valid c t.1,
      )

emit-Shows :
    (log : Log) (reply_cap : ℕ) (text : List ℕ) (os : List ℕ) (vs : List (List ℕ))
    → Shows log os vs
    → length text < reply_cap
    → emit log reply_cap text os ≡ fitting reply_cap (text ++ bulks vs)
unfolding emit
emit-Shows log reply_cap text [] [] h l =
    rw (append-nil text, lt→leb reply_cap (length text) l) refl
emit-Shows log reply_cap text [] (w ∷ vs) h l = elim h [ ]
emit-Shows log reply_cap text (o ∷ os) [] h l = elim h [ ]
emit-Shows log reply_cap text (o ∷ os) (w ∷ vs) (a, b, h) l =
    let text' : List ℕ = text ++ bulk_text w in
    let all : text ++ (bulk_text w ++ bulks vs) ≡ text' ++ bulks vs =
      sym (append_assoc text (bulk_text w) (bulks vs)) in
    rw (a, b)
      (elim (Bool-cases (leb reply_cap (length text'))) [
        | inl c ↦
            let d : leb reply_cap (length (text' ++ bulks vs)) ≡ true =
              le→leb _ _ (omega (arith, leb→le _ _ c, length-append text' (bulks vs))) in
            rw (c, all, d) refl
        | inr c ↦
            rw (c, all) (emit-Shows log reply_cap text' os vs h (within reply_cap (length text') c))
      ])
  where
    within : (n m : ℕ) → leb n m ≡ false → m < n
    within n m h = ground arith

-- The last index, for a list that is not empty.
abbrev pub clipped : ℤ → ℕ → ℕ
clipped (pos s) n = if leb n s then n - 1 else s
clipped (negsuc s) n = n - 1

pub clip_lem : (stop : ℤ) (n : ℕ) → 0 < n → clip stop n ≡ pos (clipped stop n)
clip_lem (pos s) n h = ground arith
clip_lem (negsuc s) n h = ground arith

pub upto-clipped :
    (stop : ℤ) (vals : List (List ℕ))
    → 0 < length vals
    → take (clipped stop (length vals) + 1) vals ≡ upto stop vals
upto-clipped (pos s) vals h = elim (Bool-cases (leb (length vals) s)) [
  | inl e ↦
      let l = leb→le (length vals) s e in
      rw (e, take_all (length vals - 1 + 1) vals (omega arith), take_all (s + 1) vals (omega arith))
        refl
  | inr e ↦ rw e refl
]
upto-clipped (negsuc s) vals h = take_all (length vals - 1 + 1) vals (omega arith)

pub clipped-bound : (stop : ℤ) (n : ℕ) → 0 < n → clipped stop n < n
clipped-bound (pos s) n h = ground arith
clipped-bound (negsuc s) n h = ground arith

-- The part of a list from `start` to `last`.
pub chosen :
    (start last : ℕ) (vals : List (List ℕ))
    → start ≤ last
    → take (last - start + 1) (drop start vals) ≡ drop start (take (last + 1) vals)
chosen start last vals h =
    ap (λ n. take n (drop start vals)) (omega arith) ∙ sym (drop-take start (last + 1) vals)

below_cap : (n m : ℕ) → leb n m ≡ false → m < n
below_cap n m h = ground arith

pub empty_array : (n : ℕ) → fitting n (count_text 0) ≡ fitting n (array_text [])
empty_array n = ap (fitting n) (sym (append-nil (count_text 0)))

cut_short :
    (n : ℕ) (text more : List ℕ) → leb n (length text) ≡ true → none ≡ fitting n (text ++ more)
cut_short n text more h =
    let e : leb n (length (text ++ more)) ≡ true =
      le→leb _ _ (omega (arith, leb→le _ _ h, length-append text more)) in
    rw e refl

pub empty_range :
    (start : ℕ) (stop : ℤ) (reply_cap : ℕ)
    → fitting reply_cap (count_text 0) ≡ fitting reply_cap (array_text (drop start (upto stop [])))
empty_range start stop reply_cap =
    rw (nothing stop, drop_all start (let e : List (List ℕ) = [] in e) (omega arith))
      (empty_array reply_cap)
  where
    nothing : (stop : ℤ) → upto stop [] ≡ []
    nothing (pos s) = take_all (s + 1) [] (omega arith)
    nothing (negsuc s) = refl

reply_range-array_text :
    (log : Log) (os : List ℕ) (vs : List (List ℕ)) (start : ℕ) (stop : ℤ) (reply_cap : ℕ)
    → Shows log os vs
    → 0 < length vs
    → reply_range log os start stop reply_cap
      ≡ fitting reply_cap (array_text (drop start (upto stop vs)))
unfolding reply_range
reply_range-array_text log os vs start stop reply_cap h some_v =
    let last : ℕ = clipped stop (length vs) in
    let picked : List (List ℕ) = drop start (take (last + 1) vs) in
    let size : last < length vs = clipped-bound stop (length vs) some_v in
    let count : length picked ≡ last + 1 - start =
      omega (arith, length-drop start (take (last + 1) vs), length-take (last + 1) vs) in
    rw (Shows-length log os vs h, clip_lem stop (length vs) some_v, ← upto-clipped stop vs some_v)
      (elim (Bool-cases (ltb (last + 0) (start + 0))) [
        | inl c ↦
            let e : drop start (take (last + 1) vs) ≡ [] =
              drop_all start (take (last + 1) vs)
                (omega (arith, ltb→lt _ _ c, length-take (last + 1) vs)) in
            rw (c, e) (empty_array reply_cap)
        | inr c ↦
            let le : start ≤ last = omega (arith, ltb→le _ _ c) in
            let n : last - start + 1 ≡ length picked = omega (arith, count) in
            let shown : Shows log (take (last - start + 1) (drop start os)) picked =
              rw (chosen start last vs le) at (
                Shows-take (last - start + 1) log (drop start os) (drop start vs)
                  (Shows-drop start log os vs h)) in
            rw c (elim (Bool-cases (leb reply_cap (length (count_text (last - start + 1))))) [
              | inl d ↦ rw d (
                  cut_short reply_cap (count_text (last - start + 1)) (bulks picked) d
                  ∙ ap (λ k. fitting reply_cap (count_text k ++ bulks picked)) n)
              | inr d ↦ rw d (
                  emit-Shows log reply_cap (count_text (last - start + 1)) _ picked shown
                    (below_cap reply_cap _ d)
                  ∙ ap (λ k. fitting reply_cap (count_text k ++ bulks picked)) n)
            ])
      ])

-- `zedis_aol_lrange` on a list whose values have no NUL byte: the reply is the array of the values from
-- `start` (0 when negative) up to `stop` (the end when negative), of the newest 1024 values, newest first;
-- the call fails exactly when that text and a NUL do not fit into the reply.
pub lrange-array_text :
    (log : Log) (meta : Meta) (vals : List (List ℕ)) (start stop : ℤ) (reply_cap : ℕ)
    → IsValid log
    → Lists log meta vals
    → length vals < 2 ^ 32
    → Texts vals
    → lrange log meta start stop reply_cap
      ≡ fitting reply_cap (array_text (drop (pos_part start) (upto stop (take 1024 vals))))
unfolding lrange
lrange-array_text log meta [] start stop reply_cap valid l few t =
    let e : (meta.count == 0) ≡ true = ground (arith, l.number) in
    rw e (empty_range (pos_part start) stop reply_cap)
lrange-array_text log meta (w ∷ vals) start stop reply_cap valid l few t =
    let e : (meta.count == 0) ≡ false = ground (arith, l.number, few) in
    let (p, k, s, c) = l.chain in
    let b = below log meta.head_off p k w valid s in
    let f : (meta.head_off == no_prev) ≡ false = ground (arith, b) in
    rw (e, f)
      (reply_range-array_text log (collect 1024 log meta.head_off) (take 1024 (w ∷ vals))
        (pos_part start) stop reply_cap
        (collect-Shows 1024 log meta.head_off (w ∷ vals) valid l.chain t)
        (omega (arith, length-take 1024 (w ∷ vals))))
