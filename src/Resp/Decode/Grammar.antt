-- ===== src/Resp/Decode/Grammar.antt =====
-- The byte strings that src/resp_decode.c reads as values: RESP as the protocol writes it, and inline commands.
use zedis.Base.{
  ℕ, zero, suc, ◌+◌, ◌-◌, ◌<◌, ◌≡◌, ◌≢◌, Bool, true, false, not, List, [], ◌∷◌, ◌++◌, length,
  get_or, ◌==◌,
}
use zedis.Base.Int.{ℤ, pos, negsuc}
use zedis.Resp.{Value, simple, error, integer, bulk, null, array, Values, nil, cons}
use zedis.Resp.Scan.{is_blank}
use zedis.Resp.Format.{crlf}
use zedis.Resp.Decode.{is_prefix}
use zedis.Resp.Decode.Lines.{Digits, value_of}

-- Every byte passes the test.
abbrev pub AllOf : (ℕ → Bool) → List ℕ → Type 0
AllOf test [] = Unit
AllOf test (c ∷ cs) = (test c ≡ true) × AllOf test cs

-- No CR stands before a LF.
abbrev pub NoCrlf : List ℕ → Type 0
NoCrlf s = (k : ℕ) → k + 1 < length s → get_or s k 0 ≡ 13 → get_or s (k + 1) 0 ≢ 10

abbrev pub opposite : ℕ → ℤ
opposite zero = pos 0
opposite (suc n) = negsuc n

-- Decimal digits, one at least, with a minus sign or none.
pub data Numeral (text : List ℕ) (z : ℤ) : Type 0 where
  plain : Digits text → 0 < length text → z ≡ pos (value_of 0 text) → Numeral text z
  minus :
      (ds : List ℕ)
      → text ≡ 45 ∷ ds
      → Digits ds
      → 0 < length ds
      → z ≡ opposite (value_of 0 ds)
      → Numeral text z

abbrev pub is_word : ℕ → Bool
is_word c = not (is_blank c)

-- The end of a word: the text ends, or a blank comes.
abbrev pub WordEnds : List ℕ → Type 0
WordEnds [] = Unit
WordEnds (c ∷ cs) = is_blank c ≡ true

-- The words of a line, which blanks separate, as bulk strings.
pub data Words : List ℕ → Values → Type 0 where
  no_more : (blanks : List ℕ) → AllOf is_blank blanks → Words blanks nil
  next_word :
      (blanks word rest : List ℕ) (xs : Values)
      → AllOf is_blank blanks
      → AllOf is_word word
      → 0 < length word
      → WordEnds rest
      → Words rest xs
      → Words (blanks ++ (word ++ rest)) (cons (bulk word) xs)

abbrev pub not_lf : ℕ → Bool
not_lf c = not (c == 10)

abbrev pub count_values : Values → ℕ
count_values nil = 0
count_values (cons x xs) = suc (count_values xs)

mutual
  -- These bytes are the value: `+`, `-`, `:`, `$` and `*` lines, or a line of words, which ends in LF with or
  -- without a CR before it.
  pub data Encodes : Value → List ℕ → Type 0 where
    simple_line : (s : List ℕ) → NoCrlf s → Encodes (simple s) (43 ∷ (s ++ crlf))
    error_line : (s : List ℕ) → NoCrlf s → Encodes (error s) (45 ∷ (s ++ crlf))
    integer_line : (t : List ℕ) (z : ℤ) → Numeral t z → Encodes (integer z) (58 ∷ (t ++ crlf))
    null_bulk : (t : List ℕ) (n : ℕ) → Numeral t (negsuc n) → Encodes null (36 ∷ (t ++ crlf))
    bulk_string :
        (t s : List ℕ)
        → Numeral t (pos (length s))
        → Encodes (bulk s) (36 ∷ (t ++ crlf) ++ (s ++ crlf))
    null_array : (t : List ℕ) (n : ℕ) → Numeral t (negsuc n) → Encodes null (42 ∷ (t ++ crlf))
    array_of :
        (t bytes : List ℕ) (xs : Values)
        → Numeral t (pos (count_values xs))
        → EncodesAll xs bytes
        → Encodes (array xs) (42 ∷ (t ++ crlf) ++ bytes)
    crlf_line :
        (text : List ℕ) (xs : Values)
        → AllOf not_lf text
        → is_prefix (get_or (text ++ crlf) 0 0) ≡ false
        → Words text xs
        → Encodes (array xs) (text ++ crlf)
    lf_line :
        (text : List ℕ) (xs : Values)
        → AllOf not_lf text
        → is_prefix (get_or (text ++ 10 ∷ []) 0 0) ≡ false
        → get_or text (length text - 1) 0 ≢ 13
        → Words text xs
        → Encodes (array xs) (text ++ 10 ∷ [])

  pub data EncodesAll : Values → List ℕ → Type 0 where
    no_values : EncodesAll nil []
    one_more :
        (x : Value) (xs : Values) (a b : List ℕ)
        → Encodes x a
        → EncodesAll xs b
        → EncodesAll (cons x xs) (a ++ b)
