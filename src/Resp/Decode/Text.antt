-- ===== src/Resp/Decode/Text.antt =====
-- src/resp_decode.c on the text of a bulk string that src/resp_format.c writes.
use zedis.Base.{
  ℕ, suc, ◌+◌, ◌-◌, ◌^◌, ◌≤◌, ◌<◌, ◌≡◌, refl, ap, ◌∙◌, false, some, List, [], ◌∷◌, ◌++◌, ltb, leb,
  arith, length, get_or-append_right, length-append, append_assoc, le→ltb, drop-append_self,
  take-append_self,
}
use zedis.Base.Size.{add_size}
use zedis.Base.Int.{pos}
use zedis.Base.Run.{done}
use zedis.Resp.{bulk, parsed}
use zedis.Resp.Scan.{byte_at, slice, find_from, find_crlf, parse_int}
use zedis.Resp.Format.{decimal, crlf}
use zedis.Resp.Format.Text.{bulk_text}
use zedis.Resp.Decode.{parse_bulk, parse_value}
use zedis.Resp.Decode.Lines.{
  byte-behind, Digits, value_of, decimal-Digits, decimal-value, decimal_first, parse_int-Digits,
  Digits-Inline, find_from-line,
}

behind-slice :
    (front bytes rest : List ℕ) (i j : ℕ)
    → i ≡ length front
    → j ≡ length front + length bytes
    → slice (front ++ (bytes ++ rest)) i j ≡ bytes
behind-slice front bytes rest i j a b =
    let n : length front + length bytes - length front ≡ length bytes = omega arith in
    rw (a, b, drop-append_self front (bytes ++ rest), n) (take-append_self bytes rest)

parse_bulk-text :
    (front bytes rest : List ℕ) (w at : ℕ)
    → w < 2 ^ 62
    → at + 2 ≡ length front
    → length front + length bytes + 2 ≤ w
    → parse_bulk (front ++ (bytes ++ (13 ∷ 10 ∷ rest))) w at (pos (length bytes))
      ≡ parsed (bulk bytes) (length front + length bytes + 2)
unfolding parse_bulk
parse_bulk-text front bytes rest w at small a h =
    let e : add_size (length front) (length bytes) ≡ length front + length bytes = omega arith in
    let room : ltb w (add_size (length front + length bytes) 2) ≡ false =
      le→ltb _ _ (omega arith) in
    let s : length (front ++ bytes) ≡ length front + length bytes = length-append front bytes in
    let buf : List ℕ = front ++ (bytes ++ (13 ∷ 10 ∷ rest)) in
    let assoc : front ++ bytes ++ (13 ∷ 10 ∷ rest) ≡ buf =
      append_assoc front bytes (13 ∷ 10 ∷ rest) in
    let b1 : byte_at buf (length front + length bytes) ≡ 13 =
      rw (s, assoc) at (byte-behind (front ++ bytes) (10 ∷ rest) 13) in
    let b2 : byte_at buf (length front + length bytes + 1) ≡ 10 = rw assoc at (
      get_or-append_right (front ++ bytes) (13 ∷ 10 ∷ rest) (length front + length bytes + 1) 1 0
        (omega (arith, s))) in
    rw (a, e, room, b1, b2)
      (ap (λ x. parsed (bulk x) (length front + length bytes + 2))
        (behind-slice front bytes (13 ∷ 10 ∷ rest) (length front) (length front + length bytes) refl
          refl))

-- The text of a bulk string in a buffer, taken apart.
module _ (front bytes rest : List ℕ) where
  tail : List ℕ
  tail = bytes ++ (13 ∷ 10 ∷ rest)

  laid : (ds : List ℕ) → List ℕ
  unfolding tail
  laid ds = front ++ (36 ∷ (ds ++ (13 ∷ 10 ∷ tail)))

  laid-text : (ds : List ℕ) → front ++ ((36 ∷ (ds ++ (crlf ++ (bytes ++ crlf)))) ++ rest) ≡ laid ds
  unfolding tail laid
  laid-text ds =
      ap (λ x. front ++ 36 ∷ x)
        (append_assoc ds (crlf ++ (bytes ++ crlf)) rest
          ∙ ap (λ x. ds ++ (13 ∷ 10 ∷ x)) (append_assoc bytes crlf rest))

  laid-head : (ds : List ℕ) → front ++ (36 ∷ []) ++ (ds ++ (13 ∷ 10 ∷ tail)) ≡ laid ds
  unfolding tail laid
  laid-head ds = append_assoc front (36 ∷ []) (ds ++ (13 ∷ 10 ∷ tail))

  laid-line : (ds : List ℕ) → front ++ (36 ∷ (ds ++ crlf)) ++ tail ≡ laid ds
  unfolding tail laid
  laid-line ds =
      append_assoc front (36 ∷ (ds ++ crlf)) tail
      ∙ ap (λ x. front ++ 36 ∷ x) (append_assoc ds crlf tail)

  laid-mark : (ds : List ℕ) → byte_at (laid ds) (length front) ≡ 36
  unfolding laid
  laid-mark ds = byte-behind front (ds ++ (13 ∷ 10 ∷ tail)) 36

  parse_value-laid :
      (fuel w c : ℕ) (ds : List ℕ)
      → w < 2 ^ 62
      → Digits (c ∷ ds)
      → value_of 0 (c ∷ ds) ≡ length bytes
      → length front + length (c ∷ ds) + length bytes + 5 ≤ w
      → parse_value (suc fuel) (laid (c ∷ ds)) w (length front)
        ≡ parsed (bulk bytes) (length front + length (c ∷ ds) + length bytes + 5)
  unfolding parse_value find_crlf tail
  parse_value-laid fuel w c ds small d n h =
      let f : length (front ++ 36 ∷ []) ≡ length front + 1 = length-append front (36 ∷ []) in
      let open_ : leb w (length front) ≡ false = ground arith in
      let mark : byte_at (laid (c ∷ ds)) (length front) ≡ 36 = laid-mark (c ∷ ds) in
      let line : find_from (w - (length front + 1)) (laid (c ∷ ds)) w (length front + 1)
          ≡ some (length front + 1 + suc (length ds)) =
        rw (laid-head (c ∷ ds), f) at
          (find_from-line (w - (length front + 1)) w (c ∷ ds) (front ++ 36 ∷ []) tail
            (Digits-Inline (c ∷ ds) d) (omega arith) (omega (arith, f))) in
      let number : parse_int (laid (c ∷ ds)) (length front + 1) (length front + 1 + suc (length ds))
          ≡ done (some (pos (length bytes))) =
        rw (laid-head (c ∷ ds), f, n) at
          (parse_int-Digits c ds (front ++ 36 ∷ []) (13 ∷ 10 ∷ tail) d (omega (arith, n))) in
      let g : length (front ++ 36 ∷ (c ∷ ds ++ crlf)) ≡ length front + suc (length ds) + 3 =
        length-append front (36 ∷ (c ∷ ds ++ crlf)) ∙ omega (arith, length-append ds crlf) in
      let data_ : parse_bulk (laid (c ∷ ds)) w (length front + 1 + suc (length ds))
            (pos (length bytes))
          ≡ parsed (bulk bytes) (length front + suc (length ds) + 3 + length bytes + 2) =
        rw (laid-line (c ∷ ds), g) at
          (parse_bulk-text (front ++ 36 ∷ (c ∷ ds ++ crlf)) bytes rest w
            (length front + 1 + suc (length ds)) small (omega (arith, g)) (omega (arith, g))) in
      rw (open_, mark, line, number, data_) (rw mark (ap (parsed (bulk bytes)) (omega arith)))

-- Where a bulk string stands in the form that `resp_format_bulk` writes, behind any bytes and before any, and
-- all of it was received into a buffer of less than 2 ^ 62 bytes, `parse_value` returns RESP_OK with exactly
-- its bytes, which may be any, CR and LF among them, and moves the position right behind it.
pub parse_value-bulk_text :
    (fuel w : ℕ) (front bytes rest : List ℕ)
    → w < 2 ^ 62
    → length front + length (bulk_text bytes) ≤ w
    → parse_value (suc fuel) (front ++ (bulk_text bytes ++ rest)) w (length front)
      ≡ parsed (bulk bytes) (length front + length (bulk_text bytes))
parse_value-bulk_text fuel w front bytes rest small h =
    let (c, ds, e) = decimal_first 19 (length bytes) in
    let size : length (bulk_text bytes) ≡ length (c ∷ ds) + length bytes + 5 = omega (
      arith,
      length-append (decimal (length bytes)) (crlf ++ (bytes ++ crlf)),
      length-append bytes crlf,
      ap length e,
    ) in
    let d : Digits (c ∷ ds) = rw e at (decimal-Digits 20 (length bytes)) in
    let n : value_of 0 (c ∷ ds) ≡ length bytes =
      rw e at (decimal-value 20 (length bytes) (omega (arith, size))) in
    ap (λ b. parse_value (suc fuel) b w (length front))
      (laid-text front bytes rest (decimal (length bytes)) ∙ ap (laid front bytes rest) e)
    ∙ (parse_value-laid front bytes rest fuel w c ds small d n (omega (arith, size))
        ∙ ap (parsed (bulk bytes)) (omega (arith, size)))
