-- ===== src/Resp/Decode/Frames.antt =====
-- What the pieces of src/resp_decode.c return, one line, bulk string or run of values at a time, is what the
-- bytes encode.
use zedis.Base.{
  ℕ, suc, ◌+◌, ◌^◌, ◌≤◌, ◌<◌, ◌≡◌, refl, sym, ap, ap₂, ◌∙◌, Bool, true, false, some, none, Option,
  List, ◌∷◌, ◌++◌, length, ◌==◌, arith, inl, inr, Bool-cases, ltb, ◌&&◌, ltb→le, if◌then◌else◌,
}
use zedis.Base.Size.{add_size}
use zedis.Base.Int.{ℤ, pos, negsuc}
use zedis.Base.Run.{Run, done, undefined}
use zedis.Resp.{
  Value, null, array, Values, cons, Outcome, need_more, parsed, protocol_error, overflow, no_fuel,
}
use zedis.Resp.Scan.{byte_at, slice, find_crlf, parse_int}
use zedis.Resp.Format.{crlf}
use zedis.Resp.Decode.{and_then, with_int, parse_bulk}
use zedis.Resp.Decode.Bounds.{find_crlf-bounds, parse_int-bound}
use zedis.Resp.Decode.Grammar.{
  NoCrlf, Numeral, Encodes, null_bulk, bulk_string, EncodesAll, one_more, count_values,
}
use zedis.Resp.Decode.Slices.{
  slice_cons, slice_none, slice_join, length-slice, slice-crlf, line-NoCrlf, parse_int-Numeral,
}

-- A value that is returned is what the bytes up to the new position encode.
abbrev pub Means : List ℕ → ℕ → ℕ → Outcome Value → Type 0
Means buf w at (parsed x next) = (at < next) × (next ≤ w) × Encodes x (slice buf at next)
Means buf w at _ = Unit

-- The same for `count` values.
abbrev pub MeansAll : List ℕ → ℕ → ℕ → ℕ → Outcome Values → Type 0
MeansAll buf w at count (parsed xs next) =
    (at ≤ next) × (next ≤ w) × (count_values xs ≡ count) × EncodesAll xs (slice buf at next)
MeansAll buf w at count _ = Unit

pub with_int-Means :
    (buf : List ℕ) (w at : ℕ) (r : Run (Option ℤ)) (f : ℤ → Outcome Value)
    → ((z : ℤ) → r ≡ done (some z) → Means buf w at (f z))
    → Means buf w at (with_int r f)
with_int-Means buf w at undefined f h = tt
with_int-Means buf w at (done none) f h = tt
with_int-Means buf w at (done (some z)) f h = h z refl

pub either-Means :
    (buf : List ℕ) (w at : ℕ) (b : Bool) (x y : Outcome Value)
    → (b ≡ true → Means buf w at x)
    → (b ≡ false → Means buf w at y)
    → Means buf w at (if b then x else y)
either-Means buf w at true x y h k = h refl
either-Means buf w at false x y h k = k refl

pub after_array :
    (buf : List ℕ) (w at from count : ℕ) (r : Outcome Values)
    → ((xs : Values) (next : ℕ)
        → MeansAll buf w from count (parsed xs next)
        → Means buf w at (parsed (array xs) next))
    → MeansAll buf w from count r
    → Means buf w at (and_then r (λ xs end. parsed (array xs) end))
after_array buf w at from count need_more f h = tt
after_array buf w at from count (parsed xs next) f h = f xs next h
after_array buf w at from count protocol_error f h = tt
after_array buf w at from count overflow f h = tt
after_array buf w at from count no_fuel f h = tt

pub after_values :
    (buf : List ℕ) (w at mid count : ℕ) (x : Value) (r : Outcome Values)
    → at < mid
    → mid ≤ w
    → Encodes x (slice buf at mid)
    → MeansAll buf w mid count r
    → MeansAll buf w at (suc count) (and_then r (λ xs end. parsed (cons x xs) end))
after_values buf w at mid count x need_more a b e h = tt
after_values buf w at mid count x (parsed xs next) a b e (c, d, n, f) = (
  omega arith,
  d,
  ap suc n,
  rw (← slice_join buf at mid next (omega arith) c) (one_more x xs _ _ e f),
)
after_values buf w at mid count x protocol_error a b e h = tt
after_values buf w at mid count x overflow a b e h = tt
after_values buf w at mid count x no_fuel a b e h = tt

pub after_value :
    (buf : List ℕ) (w at count : ℕ) (r : Outcome Value) (f : Value → ℕ → Outcome Values)
    → Means buf w at r
    → ((x : Value) (next : ℕ)
        → at < next
        → next ≤ w
        → Encodes x (slice buf at next)
        → MeansAll buf w at count (f x next))
    → MeansAll buf w at count (and_then r f)
after_value buf w at count need_more f h g = tt
after_value buf w at count (parsed x next) f (a, b, e) g = g x next a b e
after_value buf w at count protocol_error f h g = tt
after_value buf w at count overflow f h g = tt
after_value buf w at count no_fuel f h g = tt

-- A line from its mark to the CR LF.
module _ (buf : List ℕ) (w at end mark : ℕ) (inside : w ≤ length buf)
    (marked : byte_at buf at ≡ mark) (line : find_crlf buf w (at + 1) ≡ some end) where
  pub bounds : (at + 1 ≤ end) × (end + 1 < w)
  bounds = find_crlf-bounds buf w (at + 1) end line

  line_slice : slice buf at (end + 2) ≡ mark ∷ (slice buf (at + 1) end ++ crlf)
  line_slice =
      let (a, b) = bounds in
      slice_cons buf at (end + 2) (omega arith) (omega arith)
      ∙ ap₂ ◌∷◌ marked (
          sym (slice_join buf (at + 1) end (end + 2) a (omega arith))
          ∙ ap (λ ys. slice buf (at + 1) end ++ ys)
              (slice-crlf buf w (at + 1) end line (omega arith)))

  -- What follows the line
  pub line_more :
      (next : ℕ)
      → end + 2 ≤ next
      → slice buf at next ≡ mark ∷ (slice buf (at + 1) end ++ crlf) ++ slice buf (end + 2) next
  line_more next h =
      let (a, b) = bounds in
      sym (slice_join buf at (end + 2) next (omega arith) h)
      ∙ ap (λ xs. xs ++ slice buf (end + 2) next) line_slice

  pub text_free : NoCrlf (slice buf (at + 1) end)
  text_free = let (a, b) = bounds in line-NoCrlf buf w (at + 1) end line (omega arith)

  pub numeral :
      (z : ℤ) → parse_int buf (at + 1) end ≡ done (some z) → Numeral (slice buf (at + 1) end) z
  numeral z h = let (a, b) = bounds in parse_int-Numeral buf (at + 1) end z (omega arith) h

  pub line-Means :
      (x : Value)
      → Encodes x (mark ∷ (slice buf (at + 1) end ++ crlf))
      → Means buf w at (parsed x (end + 2))
  line-Means x e = let (a, b) = bounds in (omega arith, omega arith, rw line_slice e)

pub parse_bulk-Means :
    (buf : List ℕ) (w at end : ℕ) (z : ℤ)
    → w ≤ length buf
    → w < 2 ^ 62
    → byte_at buf at ≡ 36
    → find_crlf buf w (at + 1) ≡ some end
    → parse_int buf (at + 1) end ≡ done (some z)
    → Means buf w at (parse_bulk buf w end z)
unfolding parse_bulk
parse_bulk-Means buf w at end (negsuc n) inside small m line h =
    line-Means buf w at end 36 inside m line null
      (null_bulk _ n (numeral buf w at end 36 inside m line (negsuc n) h))
parse_bulk-Means buf w at end (pos n) inside small m line h =
    let (a, b) = bounds buf w at end 36 inside m line in
    let few = parse_int-bound buf (at + 1) end n h in
    let stop : ℕ = add_size (end + 2) n in
    elim (Bool-cases (ltb w (add_size stop 2))) [
      | inl s ↦ rw s tt
      | inr s ↦ elim (Bool-cases (byte_at buf stop == 13 && byte_at buf (stop + 1) == 10)) [
        | inr e ↦ rw (s, e) tt
        | inl e ↦
            let k = ltb→le w (add_size stop 2) s in
            let at_stop : stop ≡ end + 2 + n = omega arith in
            let fits : stop + 2 ≤ w = omega (arith, k) in
            let cr : byte_at buf stop ≡ 13 = ground arith in
            let lf : byte_at buf (stop + 1) ≡ 10 = ground arith in
            let two : slice buf stop (stop + 2) ≡ crlf =
              slice_cons buf stop (stop + 2) (omega (arith, fits)) (omega arith)
              ∙ ap₂ ◌∷◌ cr (
                  slice_cons buf (stop + 1) (stop + 2) (omega (arith, fits)) (omega arith)
                  ∙ ap₂ ◌∷◌ lf (slice_none buf (stop + 1 + 1) (stop + 2) (omega arith))) in
            let data_ : slice buf (end + 2) (stop + 2) ≡ slice buf (end + 2) stop ++ crlf =
              sym (slice_join buf (end + 2) stop (stop + 2) (omega (arith, at_stop)) (omega arith))
              ∙ ap (λ ys. slice buf (end + 2) stop ++ ys) two in
            let size : n ≡ length (slice buf (end + 2) stop) =
              omega (arith, length-slice buf (end + 2) stop (omega (arith, fits)), at_stop) in
            let num = rw size at (numeral buf w at end 36 inside m line (pos n) h) in
            rw (s, e)
              (
                omega (arith, at_stop, a),
                fits,
                rw
                    (
                      line_more buf w at end 36 inside m line (stop + 2) (omega (arith, at_stop)),
                      data_,
                    )
                    (bulk_string (slice buf (at + 1) end) (slice buf (end + 2) stop) num),
              )
      ]
    ]
