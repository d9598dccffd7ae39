-- ===== src/Resp/Format.antt =====
-- src/resp_format.c: the replies. `dst` is the caller's array, of at least `size` bytes; a result is the
-- `int` that the call returns, with the array as the call leaves it.
pub mod Text
use zedis.Base.{
  ℕ, zero, suc, ◌+◌, ◌-◌, ◌*◌, ◌/◌, ◌%◌, ◌^◌, List, [], ◌∷◌, ◌++◌, Bool, true, false, leb, ltb,
  ◌==◌, if◌then◌else◌, length, take,
}
use zedis.Base.Int.{ℤ, pos, negsuc}
use zedis.Base.Bytes.{memcpy}

-- The digits that `printf` writes; 20 of them hold every 64-bit number.
unfoldable pub decimal_in : ℕ → ℕ → List ℕ
decimal_in zero n = []
decimal_in (suc fuel) n =
    let front = decimal_in fuel (n / 10) in
    if ltb n 10 then (48 + n) ∷ [] else front ++ ((48 + n % 10) ∷ [])

abbrev pub decimal : ℕ → List ℕ
decimal n = decimal_in 20 n

abbrev pub decimal_ℤ : ℤ → List ℕ
decimal_ℤ (pos n) = decimal n
decimal_ℤ (negsuc n) = 45 ∷ decimal (n + 1)

abbrev pub crlf : List ℕ
crlf = 13 ∷ 10 ∷ []

-- snprintf(dst, size, ...) of a format that makes `text`: the array it leaves; it returns the text's length.
abbrev pub printed : List ℕ → ℕ → List ℕ → List ℕ
printed dst size text = if size == 0 then dst else memcpy dst 0 (take (size - 1) text ++ (0 ∷ []))

abbrev pub Reply : Type 0
Reply = ℤ × List ℕ

-- -1
abbrev pub refused : ℤ
refused = negsuc 0

-- (int)n, as the compilers for Linux define it: modulo 2 ^ 32, into the range of `int`.
abbrev pub to_int : ℕ → ℤ
to_int n = if ltb (n % 2 ^ 32) (2 ^ 31) then pos (n % 2 ^ 32) else negsuc (2 ^ 32 - 1 - n % 2 ^ 32)

-- `append_str` of `s`, and what comes after it when it returns 0.
unfoldable pub append_str : List ℕ → ℕ → ℕ → List ℕ → (List ℕ → ℕ → Reply) → Reply
append_str dst size used s go =
    if leb size (used + length s) then (refused, dst) else go (memcpy dst used s) (used + length s)

-- The last store of a format: the NUL.
abbrev pub terminated : List ℕ → ℕ → Reply
terminated dst used = (to_int used, memcpy dst used (0 ∷ []))

unfoldable pub format_line : ℕ → List ℕ → ℕ → List ℕ → Reply
format_line mark dst size str =
    append_str dst size 0 (mark ∷ [])
      (λ d used. append_str d size used str (λ e n. append_str e size n crlf terminated))

-- `str` is the string's bytes, the NUL apart.
unfoldable pub format_simple : List ℕ → ℕ → List ℕ → Reply
format_simple dst size str = format_line 43 dst size str

unfoldable pub format_error : List ℕ → ℕ → List ℕ → Reply
format_error dst size msg = format_line 45 dst size msg

unfoldable pub format_integer : List ℕ → ℕ → ℤ → Reply
format_integer dst size value =
    let text = 58 ∷ decimal_ℤ value ++ crlf in
    let n = length text in (if leb size n then refused else pos n, printed dst size text)

unfoldable pub format_bulk : List ℕ → ℕ → List ℕ → Reply
format_bulk dst size bytes =
    let head = 36 ∷ decimal (length bytes) ++ crlf in
    let n = length head in
    let d1 = printed dst size head in
    if leb size n
    then (refused, d1)
    else if ltb size (n + length bytes + 3)
    then (refused, d1)
    else terminated (memcpy (memcpy d1 n bytes) (n + length bytes) crlf) (n + length bytes + 2)

unfoldable pub format_null : List ℕ → ℕ → Reply
format_null dst size =
    let text = 36 ∷ 45 ∷ 49 ∷ crlf in
    if leb size (length text) then (refused, dst) else terminated (memcpy dst 0 text) (length text)
