-- ===== src/Resp/Decode/Sound.antt =====
-- The values that `resp__parse_value` and `resp__parse_array` of src/resp_decode.c return are those that the
-- bytes encode.
use zedis.Base.{
  ℕ, zero, suc, ◌+◌, ◌^◌, ◌≤◌, ◌<◌, ◌≡◌, refl, sym, true, false, some, List, length, ◌==◌, arith,
  inl, inr, Bool-cases, Option-cases, leb, if◌then◌else◌,
}
use zedis.Base.Int.{ℤ, pos, negsuc}
use zedis.Base.Run.{done}
use zedis.Resp.{
  Value, simple, error, integer, null, Outcome, need_more, parsed, protocol_error, overflow,
  no_fuel,
}
use zedis.Resp.Scan.{byte_at, slice, find_crlf, parse_int, parse_inline}
use zedis.Resp.Decode.{with_int, parse_bulk, parse_value, parse_count, parse_array, is_prefix}
use zedis.Resp.Decode.Grammar.{
  simple_line, error_line, integer_line, null_array, array_of, no_values,
}
use zedis.Resp.Decode.Slices.{slice_none}
use zedis.Resp.Decode.Inlines.{inline-Encodes}
use zedis.Resp.Decode.Frames.{
  Means, MeansAll, with_int-Means, either-Means, after_array, after_values, after_value,
  parse_bulk-Means, bounds, line_more, text_free, numeral, line-Means,
}

mutual
  unfolding parse_value parse_count parse_array

  pub parse_value-Means :
      (fuel : ℕ) (buf : List ℕ) (w at : ℕ)
      → w ≤ length buf
      → w < 2 ^ 62
      → Means buf w at (parse_value fuel buf w at)
  parse_value-Means zero buf w at inside small = tt
  parse_value-Means (suc fuel) buf w at inside small = elim (Bool-cases (leb w at)) [
    | inl e ↦ rw e tt
    | inr e ↦ elim (Bool-cases (is_prefix (byte_at buf at))) [
      | inr p ↦ rw (e, p) (inlined (parse_inline buf w at) (above e) p refl)
      | inl p ↦ elim (Option-cases (find_crlf buf w (at + 1))) [
        | inl c ↦ rw (e, p, c) tt
        | inr (end, c) ↦
            rw (e, p, c)
              (lines end p c (λ z m h. parse_count-Means fuel buf w at end z inside small m c h))
      ]
    ]
  ]
    where
      above : leb w at ≡ false → at < w
      above e = ground arith

      inlined :
          (r : Outcome Value)
          → at < w
          → is_prefix (byte_at buf at) ≡ false
          → parse_inline buf w at ≡ r
          → Means buf w at r
      inlined (parsed x next) a p h = inline-Encodes buf w at x next inside a p h
      inlined need_more a p h = tt
      inlined protocol_error a p h = tt
      inlined overflow a p h = tt
      inlined no_fuel a p h = tt

      star :
          is_prefix (byte_at buf at) ≡ true
          → (byte_at buf at == 43) ≡ false
          → (byte_at buf at == 45) ≡ false
          → (byte_at buf at == 58) ≡ false
          → (byte_at buf at == 36) ≡ false
          → byte_at buf at ≡ 42
      star p a b c d = ground arith

      is_mark : (k : ℕ) → (byte_at buf at == k) ≡ true → byte_at buf at ≡ k
      is_mark k e = ground arith

      lines :
          (end : ℕ)
          → is_prefix (byte_at buf at) ≡ true
          → find_crlf buf w (at + 1) ≡ some end
          → ((z : ℤ)
              → byte_at buf at ≡ 42
              → parse_int buf (at + 1) end ≡ done (some z)
              → Means buf w at (parse_count fuel buf w end z))
          → Means buf w at (
              if byte_at buf at == 43
              then parsed (simple (slice buf (at + 1) end)) (end + 2)
              else if byte_at buf at == 45
              then parsed (error (slice buf (at + 1) end)) (end + 2)
              else if byte_at buf at == 58
              then with_int (parse_int buf (at + 1) end) (λ z. parsed (integer z) (end + 2))
              else if byte_at buf at == 36
              then with_int (parse_int buf (at + 1) end) (λ z. parse_bulk buf w end z)
              else with_int (parse_int buf (at + 1) end) (λ z. parse_count fuel buf w end z))
      lines end p c counted =
          either-Means buf w at (byte_at buf at == 43) _ _
            (λ m.
              let k = is_mark 43 m in
              line-Means buf w at end 43 inside k c _
                (simple_line _ (text_free buf w at end 43 inside k c)))
            (λ n1.
              either-Means buf w at (byte_at buf at == 45) _ _
                (λ m.
                  let k = is_mark 45 m in
                  line-Means buf w at end 45 inside k c _
                    (error_line _ (text_free buf w at end 45 inside k c)))
                (λ n2.
                  either-Means buf w at (byte_at buf at == 58) _ _
                    (λ m.
                      let k = is_mark 58 m in
                      with_int-Means buf w at (parse_int buf (at + 1) end) _ (λ z h.
                        line-Means buf w at end 58 inside k c _
                          (integer_line _ z (numeral buf w at end 58 inside k c z h))))
                    (λ n3.
                      either-Means buf w at (byte_at buf at == 36) _ _
                        (λ m.
                          with_int-Means buf w at (parse_int buf (at + 1) end) _ (λ z h.
                            parse_bulk-Means buf w at end z inside small (is_mark 36 m) c h))
                        (λ n4.
                          with_int-Means buf w at (parse_int buf (at + 1) end) _
                            (λ z h. counted z (star p n1 n2 n3 n4) h)))))

  parse_count-Means :
      (fuel : ℕ) (buf : List ℕ) (w at end : ℕ) (z : ℤ)
      → w ≤ length buf
      → w < 2 ^ 62
      → byte_at buf at ≡ 42
      → find_crlf buf w (at + 1) ≡ some end
      → parse_int buf (at + 1) end ≡ done (some z)
      → Means buf w at (parse_count fuel buf w end z)
  parse_count-Means zero buf w at end z inside small m line h = tt
  parse_count-Means (suc fuel) buf w at end (negsuc n) inside small m line h =
      line-Means buf w at end 42 inside m line null
        (null_array _ n (numeral buf w at end 42 inside m line (negsuc n) h))
  parse_count-Means (suc fuel) buf w at end (pos n) inside small m line h =
      let (a, b) = bounds buf w at end 42 inside m line in
      after_array buf w at (end + 2) n (parse_array fuel buf w (end + 2) n)
        (λ xs next (from, to, count, e). (
          omega (arith, a, from),
          to,
          rw (line_more buf w at end 42 inside m line next from) (
              array_of _ _ xs (rw (sym count) at (numeral buf w at end 42 inside m line (pos n) h))
                e),
        ))
        (parse_array-Means fuel buf w (end + 2) n (omega (arith, b)) inside small)

  parse_array-Means :
      (fuel : ℕ) (buf : List ℕ) (w at count : ℕ)
      → at ≤ w
      → w ≤ length buf
      → w < 2 ^ 62
      → MeansAll buf w at count (parse_array fuel buf w at count)
  parse_array-Means zero buf w at count l inside small = tt
  parse_array-Means (suc fuel) buf w at zero l inside small =
      (omega arith, l, refl, rw (slice_none buf at at (omega arith)) no_values)
  parse_array-Means (suc fuel) buf w at (suc count) l inside small =
      after_value buf w at (suc count) (parse_value fuel buf w at) _
        (parse_value-Means fuel buf w at inside small)
        (λ x next a b e.
          after_values buf w at next count x (parse_array fuel buf w next count) a b e
            (parse_array-Means fuel buf w next count b inside small))
