-- ===== src/Resp/Decode.antt =====
-- src/resp_decode.c: one value from the unread bytes.
pub mod Grammar
pub mod Slices
pub mod Inlines
pub mod Frames
pub mod Sound
pub mod Bounds
pub mod Lines
pub mod Progress
pub mod Next
pub mod Text
use zedis.Base.{
  ℕ, zero, suc, ◌+◌, ◌-◌, ◌*◌, ◌/◌, Bool, true, false, ◌&&◌, Option, none, some, List, ltb, leb,
  ◌==◌, if◌then◌else◌,
}
use zedis.Base.Size.{add_size}
use zedis.Base.Int.{ℤ, pos, negsuc}
use zedis.Base.Run.{Run, done, undefined}
use zedis.Resp.{
  Value, simple, error, integer, bulk, null, array, Values, nil, cons, Outcome, need_more, parsed,
  protocol_error, overflow, no_fuel, Parser,
}
use zedis.Resp.Buffer.{compact}
use zedis.Resp.Scan.{byte_at, slice, find_crlf, parse_int, parse_inline}

-- A status other than RESP_OK is handed on.
abbrev pub and_then : {A B : Type 0} → Outcome A → (A → ℕ → Outcome B) → Outcome B
and_then need_more f = need_more
and_then (parsed a at) f = f a at
and_then protocol_error f = protocol_error
and_then overflow f = overflow
and_then no_fuel f = no_fuel

abbrev pub with_int : {A : Type 0} → Run (Option ℤ) → (ℤ → Outcome A) → Outcome A
with_int undefined f = overflow
with_int (done none) f = protocol_error
with_int (done (some z)) f = f z

-- `$<len>\r\n` was read up to `crlf`.
unfoldable pub parse_bulk : List ℕ → ℕ → ℕ → ℤ → Outcome Value
parse_bulk buf w crlf (negsuc n) = parsed null (crlf + 2)
parse_bulk buf w crlf (pos bulk_len) =
    let data_start = crlf + 2 in
    let data_end = add_size data_start bulk_len in
    if ltb w (add_size data_end 2)
    then need_more
    else if byte_at buf data_end == 13 && byte_at buf (data_end + 1) == 10
    then parsed (bulk (slice buf data_start data_end)) (data_end + 2)
    else protocol_error

abbrev pub is_prefix : ℕ → Bool
is_prefix c =
    if c == 43
    then true
    else if c == 45
    then true
    else if c == 58
    then true
    else if c == 36
    then true
    else c == 42

unfoldable mutual
  pub parse_value : ℕ → List ℕ → ℕ → ℕ → Outcome Value
  parse_value zero buf w at = no_fuel
  parse_value (suc fuel) buf w at =
      if leb w at
      then need_more
      else let prefix = byte_at buf at in
        let line_start = at + 1 in
        if is_prefix prefix
        then elim (find_crlf buf w line_start) [
          | none ↦ need_more
          | some crlf ↦
              if prefix == 43
              then parsed (simple (slice buf line_start crlf)) (crlf + 2)
              else if prefix == 45
              then parsed (error (slice buf line_start crlf)) (crlf + 2)
              else if prefix == 58
              then with_int (parse_int buf line_start crlf) (λ z. parsed (integer z) (crlf + 2))
              else if prefix == 36
              then with_int (parse_int buf line_start crlf) (λ z. parse_bulk buf w crlf z)
              else with_int (parse_int buf line_start crlf) (λ z. parse_count fuel buf w crlf z)
        ]
        else parse_inline buf w at

  -- `*<count>\r\n` was read up to `crlf`.
  pub parse_count : ℕ → List ℕ → ℕ → ℕ → ℤ → Outcome Value
  parse_count zero buf w crlf count = no_fuel
  parse_count (suc fuel) buf w crlf (negsuc n) = parsed null (crlf + 2)
  parse_count (suc fuel) buf w crlf (pos count) =
      and_then (parse_array fuel buf w (crlf + 2) count) (λ xs end. parsed (array xs) end)

  pub parse_array : ℕ → List ℕ → ℕ → ℕ → ℕ → Outcome Values
  parse_array zero buf w at count = no_fuel
  parse_array (suc fuel) buf w at zero = parsed nil at
  parse_array (suc fuel) buf w at (suc count) =
      and_then (parse_value fuel buf w at)
        (λ x next. and_then (parse_array fuel buf w next count) (λ xs end. parsed (cons x xs) end))

-- Three calls of the model to a byte are enough.
abbrev pub fuel_for : ℕ → ℕ
fuel_for w = 3 * w + 3

abbrev pub settle : Parser → Outcome Value → Outcome Value × Parser
settle p (parsed x at) = (parsed x at, record p { r_pos = at })
settle p r = (r, p)

-- `resp_parser_next`
unfoldable pub next : Parser → Outcome Value × Parser
next parser =
    let p = if ltb (parser.buf_cap / 2) parser.r_pos then compact parser else parser in
    settle p (parse_value (fuel_for p.w_pos) p.buf p.w_pos p.r_pos)
