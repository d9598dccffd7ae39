-- ===== src/Resp/Decode/Next.antt =====
-- `resp_parser_next` of src/resp_decode.c and the unread bytes.
use zedis.Base.{
  ℕ, ◌/◌, ◌^◌, ◌<◌, ◌≡◌, ◌≢◌, refl, sym, ◌∙◌, List, ◌++◌, ltb, arith, inl, inr, Bool-cases, length,
}
use zedis.Resp.{Value, Outcome, need_more, parsed, protocol_error, overflow, no_fuel, Parser}
use zedis.Resp.Buffer.{compact}
use zedis.Resp.Buffer.Stream.{IsValid, unread, compact-Kept}
use zedis.Resp.Decode.{parse_value, next, settle, fuel_for}
use zedis.Resp.Decode.Progress.{Consumes, parse_value-Consumes}
use zedis.Resp.Decode.Grammar.{Encodes}
use zedis.Resp.Decode.Slices.{slice_join, length-slice}
use zedis.Resp.Decode.Frames.{Means}
use zedis.Resp.Decode.Sound.{parse_value-Means}
use zedis.Resp.Scan.{slice}

-- What a call of `resp_parser_next` does: under RESP_OK it takes from the front of the unread bytes those that
-- encode its value; under every other status it takes none.
pub data Taken (p : Parser) (r : Outcome Value × Parser) : Type 0 where
  value :
      (x : Value) (at : ℕ) (q : Parser) (bytes : List ℕ)
      → r ≡ (parsed x at, q)
      → unread p ≡ bytes ++ unread q
      → 0 < length bytes
      → Encodes x bytes
      → IsValid q
      → Taken p r
  nothing :
      (s : Outcome Value) (q : Parser)
      → r ≡ (s, q)
      → s ≢ no_fuel
      → ((x : Value) (at : ℕ) → s ≢ parsed x at)
      → unread q ≡ unread p
      → IsValid q
      → Taken p r

settle-Taken :
    (p q : Parser) (r : Outcome Value)
    → IsValid q
    → unread q ≡ unread p
    → Consumes q.r_pos q.w_pos r
    → Means q.buf q.w_pos q.r_pos r
    → Taken p (settle q r)
unfolding unread
settle-Taken p q need_more v u c m = nothing need_more q refl (λ e. cc) (λ x at e. cc) u v
settle-Taken p q protocol_error v u c m = nothing protocol_error q refl (λ e. cc) (λ x at e. cc) u v
settle-Taken p q overflow v u c m = nothing overflow q refl (λ e. cc) (λ x at e. cc) u v
settle-Taken p q no_fuel v u c m = elim c [ ]
settle-Taken p q (parsed x at) v u c (a, b, e) =
    value x at (record q { r_pos = at }) (slice q.buf q.r_pos at) refl
      (sym u ∙ sym (slice_join q.buf q.r_pos at q.w_pos (omega arith) b))
      (omega (arith, length-slice q.buf q.r_pos at (omega (arith, b, v.written, v.sized)), a)) e
      (record { sized = v.sized; small = v.small; written = v.written; read = b })

-- On a valid parser with a buffer of less than 2 ^ 62 bytes `resp_parser_next` ends within the fuel given.
-- Under RESP_OK the bytes that it takes from the front of the unread ones, one at least, encode exactly the
-- value that it returns, as a RESP line, bulk string or array, or as an inline command; the others stay, in
-- order. Under any other status, and where a number overflows `int64_t`, which is undefined behaviour
-- in C, the unread bytes stay as they are. The parser stays valid.
pub next-Taken : {p : Parser} → IsValid p → p.buf_cap < 2 ^ 62 → Taken p (next p)
unfolding next
next-Taken {p} v small = elim (Bool-cases (ltb (p.buf_cap / 2) p.r_pos)) [
  | inr e ↦ rw e (
      settle-Taken p p (run p) v refl
        (parse_value-Consumes (fuel_for p.w_pos) p.buf p.w_pos p.r_pos (omega (arith, v.written))
          (omega arith))
        (parse_value-Means (fuel_for p.w_pos) p.buf p.w_pos p.r_pos
          (omega (arith, v.written, v.sized)) (omega (arith, v.written))))
  | inl e ↦
      let (v', u, c, _) = compact-Kept v in
      rw e (
        settle-Taken p (compact p) (run (compact p)) v' u
          (parse_value-Consumes (fuel_for (compact p).w_pos) (compact p).buf (compact p).w_pos
            (compact p).r_pos (omega (arith, v'.written)) (omega arith))
          (parse_value-Means (fuel_for (compact p).w_pos) (compact p).buf (compact p).w_pos
            (compact p).r_pos (omega (arith, v'.written, v'.sized)) (omega (arith, v'.written))))
]
  where
    run : Parser → Outcome Value
    run q = parse_value (fuel_for q.w_pos) q.buf q.w_pos q.r_pos
