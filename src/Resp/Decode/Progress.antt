-- ===== src/Resp/Decode/Progress.antt =====
-- The fuel and the new positions of the parsing calls of src/resp_decode.c.
use zedis.Resp.Decode.Bounds.{find_crlf-bounds, find_lf-bounds, parse_int-bound}
use zedis.Base.{
  ℕ, zero, suc, ◌+◌, ◌-◌, ◌*◌, ◌^◌, ◌≤◌, ◌<◌, ◌≡◌, refl, ap, ◌∙◌, Bool, true, false, ◌&&◌, Option,
  none, some, List, ltb, leb, ◌==◌, if◌then◌else◌, arith, inl, inr, Bool-cases, Option-cases,
  ltb→le,
}
use zedis.Base.Size.{add_size}
use zedis.Base.Int.{ℤ, pos, negsuc}
use zedis.Base.Run.{Run, done, undefined}
use zedis.Resp.{
  Value, simple, error, integer, array, Values, cons, Outcome, need_more, parsed, protocol_error,
  overflow, no_fuel,
}
use zedis.Resp.Scan.{byte_at, slice, find_crlf, find_lf, parse_int, parse_inline, inline_line}
use zedis.Resp.Decode.{
  and_then, with_int, parse_bulk, parse_value, parse_count, parse_array, next, is_prefix,
}

-- A value lies between `from`, which it passes, and `w`; the fuel was not used up.
abbrev pub Consumes : {A : Type 0} → ℕ → ℕ → Outcome A → Type 0
Consumes from w (parsed x next) = (from < next) × (next ≤ w)
Consumes from w no_fuel = ⊥
Consumes from w _ = Unit

parse_bulk-Consumes :
    (buf : List ℕ) (w from crlf : ℕ) (z : ℤ)
    → w < 2 ^ 62
    → from < crlf
    → crlf + 1 < w
    → ((n : ℕ) → z ≡ pos n → n < 2 ^ 63)
    → Consumes from w (parse_bulk buf w crlf z)
unfolding parse_bulk
parse_bulk-Consumes buf w from crlf (negsuc n) small l h b = (omega arith, omega arith)
parse_bulk-Consumes buf w from crlf (pos n) small l h b =
    elim (Bool-cases (ltb w (add_size data_end 2))) [
      | inl s ↦ rw s tt
      | inr s ↦ elim (Bool-cases (byte_at buf data_end == 13 && byte_at buf (data_end + 1) == 10)) [
        | inl e ↦
            let k = ltb→le w (add_size data_end 2) s in
            let m = b n refl in rw (s, e) (omega arith, omega arith)
        | inr e ↦ rw (s, e) tt
      ]
    ]
  where
    data_end : ℕ
    data_end = add_size (crlf + 2) n

parse_inline-Consumes : (buf : List ℕ) (w at : ℕ) → at < w → Consumes at w (parse_inline buf w at)
unfolding parse_inline inline_line
parse_inline-Consumes buf w at h = elim (Option-cases (find_lf (w - at) buf at)) [
  | inl e ↦ rw e tt
  | inr (lf, e) ↦
      let (a, b) = find_lf-bounds (w - at) buf at lf e in rw e (omega arith, omega arith)
]

with_int-Consumes :
    {A : Type 0} (from w : ℕ) (r : Run (Option ℤ)) (f : ℤ → Outcome A)
    → ((z : ℤ) → r ≡ done (some z) → Consumes from w (f z))
    → Consumes from w (with_int r f)
with_int-Consumes from w undefined f h = tt
with_int-Consumes from w (done none) f h = tt
with_int-Consumes from w (done (some z)) f h = h z refl

-- The elements of an array may be none: the new position is at `from` or behind it.
abbrev pub Reaches : {A : Type 0} → ℕ → ℕ → Outcome A → Type 0
Reaches from w (parsed x next) = (from ≤ next) × (next ≤ w)
Reaches from w no_fuel = ⊥
Reaches from w _ = Unit

after_array :
    (from from' w : ℕ) (r : Outcome Values)
    → from < from'
    → Reaches from' w r
    → Consumes from w (and_then r (λ xs end. parsed (array xs) end))
after_array from from' w need_more l h = tt
after_array from from' w (parsed x at) l h = (omega (arith, h.0), h.1)
after_array from from' w protocol_error l h = tt
after_array from from' w overflow l h = tt
after_array from from' w no_fuel l h = elim h [ ]

weaken : (from at w : ℕ) (r : Outcome Values) → from ≤ at → Reaches at w r → Reaches from w r
weaken from at w need_more l k = tt
weaken from at w (parsed y next) l k = (omega (arith, k.0), k.1)
weaken from at w protocol_error l k = tt
weaken from at w overflow l k = tt
weaken from at w no_fuel l k = elim k [ ]

after_value :
    (from w : ℕ) (r : Outcome Value) (f : Value → ℕ → Outcome Values)
    → Consumes from w r
    → ((x : Value) (at : ℕ) → from < at → at ≤ w → Reaches at w (f x at))
    → Reaches from w (and_then r f)
after_value from w need_more f h g = tt
after_value from w (parsed x at) f h g =
    weaken from at w (f x at) (omega (arith, h.0)) (g x at h.0 h.1)
after_value from w protocol_error f h g = tt
after_value from w overflow f h g = tt
after_value from w no_fuel f h g = elim h [ ]

after_values :
    (from w : ℕ) (x : Value) (r : Outcome Values)
    → Reaches from w r
    → Reaches from w (and_then r (λ xs end. parsed (cons x xs) end))
after_values from w x need_more h = tt
after_values from w x (parsed xs at) h = h
after_values from w x protocol_error h = tt
after_values from w x overflow h = tt
after_values from w x no_fuel h = elim h [ ]

either-Consumes :
    (from w : ℕ) (b : Bool) (x y : Outcome Value)
    → Consumes from w x
    → Consumes from w y
    → Consumes from w (if b then x else y)
either-Consumes from w true x y h k = h
either-Consumes from w false x y h k = k

mutual
  unfolding parse_value parse_count parse_array

  pub parse_value-Consumes :
      (fuel : ℕ) (buf : List ℕ) (w at : ℕ)
      → w < 2 ^ 62
      → 3 * (w - at) + 1 ≤ fuel
      → Consumes at w (parse_value fuel buf w at)
  parse_value-Consumes zero buf w at small h = absurd (omega arith)
  parse_value-Consumes (suc fuel) buf w at small h = elim (Bool-cases (leb w at)) [
    | inl e ↦ rw e tt
    | inr e ↦ elim (Bool-cases (is_prefix (byte_at buf at))) [
      | inr p ↦ rw (e, p) (parse_inline-Consumes buf w at (let k = above e in omega arith))
      | inl p ↦ elim (Option-cases (find_crlf buf w (at + 1))) [
        | inl c ↦ rw (e, p, c) tt
        | inr (crlf, c) ↦
            let (a, b) = find_crlf-bounds buf w (at + 1) crlf c in
            rw (e, p, c)
              (lines crlf (omega arith) b (λ z.
                parse_count-Consumes fuel buf w at crlf z small (omega arith) b (omega arith)))
      ]
    ]
  ]
    where
      above : leb w at ≡ false → at < w
      above e = ground arith

      text : (x : Value) (crlf : ℕ) → at < crlf → crlf + 1 < w → Consumes at w (parsed x (crlf + 2))
      text x crlf a b = (omega arith, omega arith)

      lines :
          (crlf : ℕ)
          → at < crlf
          → crlf + 1 < w
          → ((z : ℤ) → Consumes at w (parse_count fuel buf w crlf z))
          → Consumes at w (
              if byte_at buf at == 43
              then parsed (simple (slice buf (at + 1) crlf)) (crlf + 2)
              else if byte_at buf at == 45
              then parsed (error (slice buf (at + 1) crlf)) (crlf + 2)
              else if byte_at buf at == 58
              then with_int (parse_int buf (at + 1) crlf) (λ z. parsed (integer z) (crlf + 2))
              else if byte_at buf at == 36
              then with_int (parse_int buf (at + 1) crlf) (λ z. parse_bulk buf w crlf z)
              else with_int (parse_int buf (at + 1) crlf) (λ z. parse_count fuel buf w crlf z))
      lines crlf a b counted =
          either-Consumes at w (byte_at buf at == 43) _ _
            (text (simple (slice buf (at + 1) crlf)) crlf a b)
            (either-Consumes at w (byte_at buf at == 45) _ _
              (text (error (slice buf (at + 1) crlf)) crlf a b)
              (either-Consumes at w (byte_at buf at == 58) _ _
                (with_int-Consumes at w (parse_int buf (at + 1) crlf) _
                  (λ z e. text (integer z) crlf a b))
                (either-Consumes at w (byte_at buf at == 36) _ _
                  (with_int-Consumes at w (parse_int buf (at + 1) crlf) _ (λ z e.
                    parse_bulk-Consumes buf w at crlf z small a b
                      (λ n f. parse_int-bound buf (at + 1) crlf n (e ∙ ap (λ k. done (some k)) f))))
                  (with_int-Consumes at w (parse_int buf (at + 1) crlf) _ (λ z e. counted z)))))

  parse_count-Consumes :
      (fuel : ℕ) (buf : List ℕ) (w at crlf : ℕ) (z : ℤ)
      → w < 2 ^ 62
      → at < crlf
      → crlf + 1 < w
      → 3 * (w - at) ≤ fuel
      → Consumes at w (parse_count fuel buf w crlf z)
  parse_count-Consumes zero buf w at crlf z small l c h = absurd (omega arith)
  parse_count-Consumes (suc fuel) buf w at crlf (negsuc n) small l c h = (omega arith, omega arith)
  parse_count-Consumes (suc fuel) buf w at crlf (pos n) small l c h =
      after_array at (crlf + 2) w (parse_array fuel buf w (crlf + 2) n) (omega arith)
        (parse_array-Reaches fuel buf w (crlf + 2) n small (omega arith) (omega arith))

  parse_array-Reaches :
      (fuel : ℕ) (buf : List ℕ) (w at count : ℕ)
      → w < 2 ^ 62
      → at ≤ w
      → 3 * (w - at) + 2 ≤ fuel
      → Reaches at w (parse_array fuel buf w at count)
  parse_array-Reaches zero buf w at count small l h = absurd (omega arith)
  parse_array-Reaches (suc fuel) buf w at zero small l h = (omega arith, l)
  parse_array-Reaches (suc fuel) buf w at (suc count) small l h =
      after_value at w (parse_value fuel buf w at) _
        (parse_value-Consumes fuel buf w at small (omega arith))
        (λ x next a b.
          after_values next w x (parse_array fuel buf w next count)
            (parse_array-Reaches fuel buf w next count small b (omega arith)))
