-- ===== src/AppendLog/Tests.antt =====
-- Runs of the log, and the theorems at concrete inputs.
use zedis.Base.{ℕ, ◌≡◌, refl, none, some, List, [], ◌∷◌, replicate, arith, take}
use zedis.Base.Int.{pos, negsuc}
use zedis.Base.Bytes.{cstr}
use zedis.Base.Status.{failed}
use zedis.Resp.Format.{decimal_in}
use zedis.AppendLog.{
  Log, Meta, no_prev, init, append_record, push_meta, lpush, lrange, fitting, element_text,
}
use zedis.AppendLog.Chain.{IsValid, Lists, Pushed, lpush_refines}
use zedis.AppendLog.Range.{upto, array_text, lrange-array_text}

abbrev tiny : Log
tiny = record { base = replicate 32 0; capacity = 32; write_pos = 0 }

abbrev nothing : Meta
nothing = record { head_off = no_prev; tail_off = no_prev; count = 0 }

-- "k" and "ab"
abbrev key : List ℕ
key = 107 ∷ []

abbrev val : List ℕ
val = 97 ∷ 98 ∷ []

abbrev one_record : Log
one_record = append_record tiny no_prev key val

abbrev one_value : Meta
one_value = push_meta nothing 0

tiny-IsValid : IsValid tiny
tiny-IsValid = record { size = refl; written = omega arith; addressed = omega arith }

one_record-IsValid : IsValid one_record
one_record-IsValid = record { size = refl; written = omega arith; addressed = omega arith }

one_value-Lists : Lists one_record one_value (val ∷ [])
one_value-Lists = record {
  chain = (
    no_prev,
    key,
    record {
      bytes = refl;
      inside = omega arith;
      offset = omega arith;
      short_key = omega arith;
      short_val = omega arith;
    },
    refl,
  );
  number = refl;
}

-- A mapping of fewer than 4096 bytes is refused, and so is a record behind the end.
too_small : init 4095 (some (replicate 4095 0)) ≡ none
unfolding init
too_small = refl

full : (lpush (record one_record { write_pos = 22 }) one_value key val).0 ≡ failed
unfolding lpush
full = refl

-- A value with a NUL byte is printed short of the length in front of it.
abbrev cut_value : Log
cut_value = append_record tiny no_prev key (97 ∷ 0 ∷ [])

cut : element_text cut_value 0 ≡ 36 ∷ 50 ∷ 13 ∷ 10 ∷ 97 ∷ 13 ∷ 10 ∷ []
unfolding cstr decimal_in
cut = refl

lpush_refines_example :
    Pushed one_record one_value (val ∷ []) key val (lpush one_record one_value key val)
lpush_refines_example =
    lpush_refines one_record one_value (val ∷ []) key val one_record-IsValid one_value-Lists

lrange-array_text_example :
    lrange one_record one_value (negsuc 0) (pos 9) 100
    ≡ fitting 100 (array_text (upto (pos 9) (take 1024 (val ∷ []))))
lrange-array_text_example =
    lrange-array_text one_record one_value (val ∷ []) (negsuc 0) (pos 9) 100 one_record-IsValid
      one_value-Lists (omega arith) ((omega arith, (omega arith, tt)), tt)
