-- ===== src/Resp/Scan.antt =====
-- src/resp_scan.c: line ends, numbers and inline commands.
use zedis.Base.{
  ℕ, zero, suc, ◌+◌, ◌-◌, ◌*◌, ◌^◌, Bool, true, false, ◌&&◌, not, Option, none, some, List, ltb,
  leb, ◌==◌, if◌then◌else◌, get_or, take, drop,
}
use zedis.Base.Int.{ℤ, pos, negsuc}
use zedis.Base.Run.{Run, done, undefined}
use zedis.Resp.{Value, bulk, array, Values, nil, cons, Outcome, need_more, parsed}

abbrev pub byte_at : List ℕ → ℕ → ℕ
byte_at buf i = get_or buf i 0

-- The bytes from `i` up to `j`.
abbrev pub slice : List ℕ → ℕ → ℕ → List ℕ
slice buf i j = take (j - i) (drop i buf)

-- The loop of `resp__find_crlf` at `i`; it has `fuel` = w - i rounds left at most.
unfoldable pub find_from : ℕ → List ℕ → ℕ → ℕ → Option ℕ
find_from zero buf w i = none
find_from (suc fuel) buf w i =
    let rest = find_from fuel buf w (i + 1) in
    if ltb (i + 1) w
    then (if byte_at buf i == 13 && byte_at buf (i + 1) == 10 then some i else rest)
    else none

unfoldable pub find_crlf : List ℕ → ℕ → ℕ → Option ℕ
find_crlf buf w from = find_from (w - from) buf w from

abbrev pub is_digit : ℕ → Bool
is_digit c = leb 48 c && leb c 57

-- The loop of `resp__parse_int`: `fuel` = to - i digits are left.
unfoldable pub digits : ℕ → List ℕ → ℕ → ℕ → Run (Option ℕ)
digits zero buf i value = done (some value)
digits (suc fuel) buf i value =
    let next = value * 10 + (byte_at buf i - 48) in
    let rest = digits fuel buf (i + 1) next in
    if is_digit (byte_at buf i) then (if ltb next (2 ^ 63) then rest else undefined) else done none

abbrev pub signed : Bool → ℕ → ℤ
signed false n = pos n
signed true zero = pos 0
signed true (suc n) = negsuc n

abbrev pub with_sign : Bool → Run (Option ℕ) → Run (Option ℤ)
with_sign neg undefined = undefined
with_sign neg (done none) = done none
with_sign neg (done (some n)) = done (some (signed neg n))

-- `none` for -1.
unfoldable pub parse_int : List ℕ → ℕ → ℕ → Run (Option ℤ)
parse_int buf from to =
    if leb to from
    then done none
    else let neg = byte_at buf from == 45 in
      let i = if neg then from + 1 else from in
      if ltb i to && is_digit (byte_at buf i)
      then with_sign neg (digits (to - i) buf i 0)
      else done none

-- The first '\n' from `i` on.
unfoldable pub find_lf : ℕ → List ℕ → ℕ → Option ℕ
find_lf zero buf i = none
find_lf (suc fuel) buf i =
    let rest = find_lf fuel buf (i + 1) in if byte_at buf i == 10 then some i else rest

abbrev pub is_blank : ℕ → Bool
is_blank c = if c == 32 then true else c == 9

-- The two inner loops: past the blanks, and past the token; `fuel` = line_end - i.
unfoldable pub skip_while : (ℕ → Bool) → ℕ → List ℕ → ℕ → ℕ
skip_while test zero buf i = i
skip_while test (suc fuel) buf i =
    let rest = skip_while test fuel buf (i + 1) in if test (byte_at buf i) then rest else i

unfoldable pub tokens : ℕ → List ℕ → ℕ → ℕ → Values
tokens zero buf line_end i = nil
tokens (suc fuel) buf line_end i =
    let tok = skip_while is_blank (line_end - i) buf i in
    let end = skip_while (λ c. not (is_blank c)) (line_end - tok) buf tok in
    let rest = tokens fuel buf line_end end in
    if ltb tok line_end then cons (bulk (slice buf tok end)) rest else nil

abbrev pub line_end_of : List ℕ → ℕ → ℕ → ℕ
line_end_of buf start lf = if ltb start lf && byte_at buf (lf - 1) == 13 then lf - 1 else lf

unfoldable pub inline_line : List ℕ → ℕ → Option ℕ → Outcome Value
inline_line buf start none = need_more
inline_line buf start (some lf) =
    let line_end = line_end_of buf start lf in
    parsed (array (tokens (line_end - start) buf line_end start)) (lf + 1)

-- `resp__parse_inline`; every round of the outer loop takes a byte at least.
unfoldable pub parse_inline : List ℕ → ℕ → ℕ → Outcome Value
parse_inline buf w start = inline_line buf start (find_lf (w - start) buf start)
