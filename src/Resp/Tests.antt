-- ===== src/Resp/Tests.antt =====
-- Runs of the RESP parser and formats, and the theorems at concrete inputs.
use zedis.Base.{ℕ, ◌≡◌, refl, List, [], ◌∷◌, ◌++◌, arith, replicate}
use zedis.Base.Int.{negsuc, pos}
use zedis.Resp.{bulk, integer, array, nil, cons, parsed, need_more, Parser}
use zedis.Resp.Buffer.{feed}
use zedis.Resp.Buffer.Stream.{IsValid, Fed, feed_refines}
use zedis.Resp.Scan.{
  find_from, find_crlf, digits, parse_int, find_lf, skip_while, tokens, inline_line, parse_inline,
}
use zedis.Resp.Decode.{parse_bulk, parse_value, parse_count, parse_array, next}
use zedis.Resp.Decode.Next.{Taken, next-Taken}
use zedis.Resp.Decode.Text.{parse_value-bulk_text}
use zedis.Resp.Format.{crlf, format_line, decimal_in, format_bulk, format_integer}
use zedis.Resp.Format.Text.{bulk_text, Written, format_bulk-Written, format_line-Written}

-- "*2\r\n$1\r\nG\r\n:-7\r\n"
abbrev command : List ℕ
command = 42 ∷ 50 ∷ 13 ∷ 10 ∷ 36 ∷ 49 ∷ 13 ∷ 10 ∷ 71 ∷ 13 ∷ 10 ∷ 58 ∷ 45 ∷ 55 ∷ 13 ∷ 10 ∷ []

parsed_command :
    parse_value 51 command 16 0
    ≡ parsed (array (cons (bulk (71 ∷ [])) (cons (integer (negsuc 6)) nil))) 16
unfolding parse_value parse_count parse_array find_crlf find_from parse_int digits parse_bulk
parsed_command = refl

part_of_command : parse_value 51 command 15 0 ≡ need_more
unfolding parse_value parse_count parse_array find_crlf find_from parse_int digits parse_bulk
part_of_command = refl

-- "A  BC\r\n"
inline_command :
    parse_value 9 (65 ∷ 32 ∷ 32 ∷ 66 ∷ 67 ∷ 13 ∷ 10 ∷ []) 7 0
    ≡ parsed (array (cons (bulk (65 ∷ [])) (cons (bulk (66 ∷ 67 ∷ [])) nil))) 7
unfolding parse_value parse_inline inline_line find_lf tokens skip_while
inline_command = refl

minus_twelve :
    format_integer (replicate 8 0) 8 (negsuc 11) ≡ (pos 6, 58 ∷ 45 ∷ 49 ∷ 50 ∷ 13 ∷ 10 ∷ 0 ∷ 0 ∷ [])
unfolding format_integer decimal_in
minus_twelve = refl

-- A parser that has read the first of two commands.
abbrev half_read : Parser
half_read = record { buf = 80 ∷ 10 ∷ 81 ∷ 10 ∷ 0 ∷ []; buf_cap = 5; r_pos = 2; w_pos = 4 }

half_read-IsValid : IsValid half_read
half_read-IsValid = record {
  sized = refl;
  small = omega arith;
  written = omega arith;
  read = omega arith;
}

feed_refines_example : Fed half_read (82 ∷ 83 ∷ []) (feed half_read (82 ∷ 83 ∷ []))
feed_refines_example = feed_refines {p = half_read} (82 ∷ 83 ∷ []) half_read-IsValid (omega arith)

next-Taken_example : Taken half_read (next half_read)
next-Taken_example = next-Taken {p = half_read} half_read-IsValid (omega arith)

parse_value-bulk_text_example :
    parse_value 1 ((80 ∷ 10 ∷ []) ++ (bulk_text (13 ∷ 10 ∷ []) ++ (36 ∷ []))) 10 2
    ≡ parsed (bulk (13 ∷ 10 ∷ [])) 10
unfolding decimal_in
parse_value-bulk_text_example =
    parse_value-bulk_text 0 10 (80 ∷ 10 ∷ []) (13 ∷ 10 ∷ []) (36 ∷ []) (omega arith) (omega arith)

format_bulk-Written_example :
    Written
      (replicate 16 0)
      12
      (bulk_text (65 ∷ 66 ∷ []))
      (format_bulk (replicate 16 0) 12 (65 ∷ 66 ∷ []))
format_bulk-Written_example =
    format_bulk-Written (replicate 16 0) 12 (65 ∷ 66 ∷ []) (omega arith) (omega arith)

format_line-Written_example :
    Written
      (replicate 8 0)
      8
      (43 ∷ (79 ∷ 75 ∷ []) ++ crlf)
      (format_line 43 (replicate 8 0) 8 (79 ∷ 75 ∷ []))
format_line-Written_example =
    format_line-Written 43 (replicate 8 0) 8 (79 ∷ 75 ∷ []) (omega arith) (omega arith)
