-- ===== src/Resp/Decode/Inlines.antt =====
-- What `resp__parse_inline` of src/resp_scan.c reads.
use zedis.Base.{
  ℕ, zero, suc, ◌+◌, ◌-◌, ◌≤◌, ◌<◌, ◌≡◌, ◌≢◌, refl, sym, ap, ap₂, ◌∙◌, Bool, true, false, not, List,
  [], ◌∷◌, ◌++◌, length, get_or, ◌==◌, arith, inl, inr, Bool-cases, Option-cases, ltb, ◌&&◌, ltb→lt,
  ltb→le,
}
use zedis.Resp.{Value, array, parsed}
use zedis.Resp.Scan.{
  byte_at, slice, find_lf, skip_while, tokens, is_blank, inline_line, parse_inline,
}
use zedis.Resp.Format.{crlf}
use zedis.Resp.Decode.{is_prefix}
use zedis.Resp.Decode.Grammar.{
  AllOf, is_word, WordEnds, Words, no_more, next_word, not_lf, Encodes, crlf_line, lf_line,
}
use zedis.Resp.Decode.Slices.{
  slice_cons, slice_none, slice_join, length-slice, byte-slice, Stretch, skip_while-runs,
  find_lf-found,
}

negated : (b : Bool) → not b ≡ false → b ≡ true
negated true h = refl
negated false h = sym h

-- The loop of `resp__parse_inline` splits the line into its words.
tokens-Words :
    (fuel : ℕ) (buf : List ℕ) (end i : ℕ)
    → i ≤ end
    → end ≤ length buf
    → end - i ≤ fuel
    → Words (slice buf i end) (tokens fuel buf end i)
unfolding tokens
tokens-Words zero buf end i a l f = no_more _ (rw (slice_none buf i end (omega arith)) tt)
tokens-Words (suc fuel) buf end i a l f =
    let tok : ℕ = skip_while is_blank (end - i) buf i in
    let whole : i + (end - i) ≡ end = omega arith in
    let b : Stretch is_blank buf i end tok =
      rw whole at (skip_while-runs is_blank (end - i) buf i (omega (arith, l))) in
    let stop : ℕ = skip_while is_word (end - tok) buf tok in
    let rest_ : tok + (end - tok) ≡ end = omega (arith, b.to) in
    let w : Stretch is_word buf tok end stop =
      rw rest_ at (skip_while-runs is_word (end - tok) buf tok (omega (arith, l, b.to))) in
    elim (Bool-cases (ltb tok end)) [
      | inr e ↦
          let done_ : tok ≡ end = omega (arith, b.to, ltb→le _ _ e) in
          rw e (no_more _ (rw done_ at b.pass))
      | inl e ↦
          let t : tok < end = ltb→lt _ _ e in
          let live : tok < stop = moved tok stop end t b w in
          rw (e, ← slice_join buf i tok end b.from b.to, ← slice_join buf tok stop end w.from w.to)
            (next_word (slice buf i tok) (slice buf tok stop) (slice buf stop end) _ b.pass w.pass
              (omega (arith, length-slice buf tok stop (omega (arith, w.to, l)), live))
              (ends stop w) (tokens-Words fuel buf end stop w.to l (omega (arith, live, b.from))))
    ]
  where
    moved :
        (tok stop end' : ℕ)
        → tok < end'
        → Stretch is_blank buf i end' tok
        → Stretch is_word buf tok end' stop
        → tok < stop
    moved tok stop end' t b w = elim (Bool-cases (ltb tok stop)) [
      | inl e ↦ ltb→lt _ _ e
      | inr e ↦
          let s : stop ≡ tok = omega (arith, ltb→le _ _ e, w.from) in
          let x : is_blank (byte_at buf tok) ≡ false = b.stops t in
          let y : is_word (byte_at buf tok) ≡ false =
            ap (λ k. is_word (byte_at buf k)) (sym s) ∙ w.stops (omega (arith, s, t)) in
          let z : is_blank (byte_at buf tok) ≡ true = negated _ y in absurd (cc (x, z))
    ]

    ends : (stop : ℕ) {tok : ℕ} → Stretch is_word buf tok end stop → WordEnds (slice buf stop end)
    ends stop w = elim (Bool-cases (ltb stop end)) [
      | inr e ↦ rw (slice_none buf stop end (ltb→le _ _ e)) tt
      | inl e ↦
          let t : stop < end = ltb→lt _ _ e in
          rw (slice_cons buf stop end (omega arith) t) (negated _ (w.stops t))
    ]

AllOf-front : (test : ℕ → Bool) (xs ys : List ℕ) → AllOf test (xs ++ ys) → AllOf test xs
AllOf-front test [] ys h = tt
AllOf-front test (x ∷ xs) ys (a, h) = (a, AllOf-front test xs ys h)

-- A line that an LF ends, with the CR before it if there is one.
pub inline-Encodes :
    (buf : List ℕ) (w at : ℕ) (x : Value) (next : ℕ)
    → w ≤ length buf
    → at < w
    → is_prefix (byte_at buf at) ≡ false
    → parse_inline buf w at ≡ parsed x next
    → (at < next) × (next ≤ w) × Encodes x (slice buf at next)
unfolding parse_inline inline_line
inline-Encodes buf w at x next l a p h = elim (Option-cases (find_lf (w - at) buf at)) [
  | inl e ↦ absurd (let k = rw e at h in cc)
  | inr (lf, e) ↦
      let (b, free, from, to) = find_lf-found (w - at) buf at lf (omega arith) e in
      let inside : lf < w = omega (arith, to) in
      let end : slice buf lf (lf + 1) ≡ 10 ∷ [] =
        slice_cons buf lf (lf + 1) (omega arith) (omega arith)
        ∙ ap₂ ◌∷◌ b (slice_none buf (lf + 1) (lf + 1) (omega arith)) in
      let first : get_or (slice buf at (lf + 1)) 0 0 ≡ byte_at buf at =
        byte-slice buf at (lf + 1) 0 (omega arith) ∙ ap (byte_at buf) (omega arith) in
      let plain_ : is_prefix (get_or (slice buf at (lf + 1)) 0 0) ≡ false = rw first p in
      elim (Bool-cases (ltb at lf && byte_at buf (lf - 1) == 13)) [
        | inl c ↦
            let more : at < lf = ground arith in
            let back : lf - 1 + 1 ≡ lf = omega arith in
            let cr : byte_at buf (lf - 1) ≡ 13 = ground arith in
            let two : slice buf (lf - 1) (lf + 1) ≡ crlf =
              slice_cons buf (lf - 1) (lf + 1) (omega arith) (omega arith)
              ∙ ap₂ ◌∷◌ cr (ap (λ k. slice buf k (lf + 1)) back ∙ end) in
            let whole : slice buf at (lf + 1) ≡ slice buf at (lf - 1) ++ crlf =
              sym (slice_join buf at (lf - 1) (lf + 1) (omega arith) (omega arith))
              ∙ ap (λ ys. slice buf at (lf - 1) ++ ys) two in
            let ex : array (tokens (lf - 1 - at) buf (lf - 1) at) ≡ x =
              (let k = rw (e, c) at h in cc) in
            let en : lf + 1 ≡ next = (let k = rw (e, c) at h in cc) in
            (
              omega (arith, en),
              omega (arith, en),
              rw (← en, ← ex, whole)
                  (crlf_line (slice buf at (lf - 1)) _
                    (AllOf-front not_lf _ (slice buf (lf - 1) lf)
                      (rw (slice_join buf at (lf - 1) lf (omega arith) (omega arith)) free))
                    (rw whole at plain_)
                    (tokens-Words (lf - 1 - at) buf (lf - 1) at (omega arith) (omega arith)
                      (omega arith))),
            )
        | inr c ↦
            let whole : slice buf at (lf + 1) ≡ slice buf at lf ++ 10 ∷ [] =
              sym (slice_join buf at lf (lf + 1) from (omega arith))
              ∙ ap (λ ys. slice buf at lf ++ ys) end in
            let ex : array (tokens (lf - at) buf lf at) ≡ x = (let k = rw (e, c) at h in cc) in
            let en : lf + 1 ≡ next = (let k = rw (e, c) at h in cc) in
            (
              omega (arith, en),
              omega (arith, en),
              rw (← en, ← ex, whole)
                  (lf_line (slice buf at lf) _ free (rw whole at plain_) (no_cr lf from inside c)
                    (tokens-Words (lf - at) buf lf at from (omega arith) (omega arith))),
            )
      ]
]
  where
    no_cr :
        (lf : ℕ)
        → at ≤ lf
        → lf < w
        → (ltb at lf && byte_at buf (lf - 1) == 13) ≡ false
        → get_or (slice buf at lf) (length (slice buf at lf) - 1) 0 ≢ 13
    no_cr lf from inside c q =
        let n = length-slice buf at lf (omega arith) in
        elim (Bool-cases (ltb at lf)) [
          | inr e ↦
              let z : slice buf at lf ≡ [] = slice_none buf at lf (ltb→le _ _ e) in
              let k : get_or [] (length (slice buf at lf) - 1) 0 ≡ 13 = rw z at q in
              omega (arith, k)
          | inl e ↦
              let t = ltb→lt _ _ e in
              let k : at + (length (slice buf at lf) - 1) ≡ lf - 1 = omega (arith, n, t) in
              let b : byte_at buf (lf - 1) ≡ 13 =
                ap (byte_at buf) (sym k)
                ∙ (sym (byte-slice buf at lf (length (slice buf at lf) - 1) (omega (arith, n, t)))
                    ∙ q) in
              let d : byte_at buf (lf - 1) ≢ 13 = ground arith in d b
        ]
