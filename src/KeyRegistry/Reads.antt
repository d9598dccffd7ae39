-- ===== src/KeyRegistry/Reads.antt =====
-- What the reading calls of src/key_registry.c answer about a list.
use zedis.Base.{
  ℕ, ◌%◌, ◌^◌, ◌<◌, ◌≡◌, refl, ap, Option, none, some, List, length, arith, take, drop,
}
use zedis.Base.Int.{ℤ, pos_part}
use zedis.AppendLog.{Log, Meta, fitting}
use zedis.AppendLog.Range.{Texts, upto, array_text, empty_range, lrange-array_text}
use zedis.KeyRegistry.{Registry, list_of, list_reg_lrange, range_at, list_reg_llen, len_at}
use zedis.KeyRegistry.Index.{lookup_index-Indexed}
use zedis.KeyRegistry.Lists.{Tracks, values, values_of}

-- LRANGE over the registry, for a key whose values have no NUL byte: the array of the values from `start` up
-- to `stop` of the newest 1024 values of the key's list, the empty array for a key without a list; the call
-- fails exactly when the text and a NUL do not fit into the reply.
pub list_reg_lrange-array_text :
    (reg : Registry Meta) (log : Log) (index : List ℕ → Option ℕ) (vals : ℕ → List (List ℕ))
    (key : List ℕ) (start stop : ℤ) (reply_cap : ℕ)
    → Tracks reg log index vals
    → length (values index vals key) < 2 ^ 32
    → Texts (values index vals key)
    → list_reg_lrange reg log key start stop reply_cap
      ≡ some (
          fitting reply_cap
            (array_text (drop (pos_part start) (upto stop (take 1024 (values index vals key))))))
unfolding list_reg_lrange
list_reg_lrange-array_text reg log index vals key start stop reply_cap t few texts =
    rw (lookup_index-Indexed reg index key t.indexed) (decide (index key) refl few texts)
  where
    decide :
        (o : Option ℕ)
        → index key ≡ o
        → length (values_of vals o) < 2 ^ 32
        → Texts (values_of vals o)
        → range_at reg log start stop reply_cap (some o)
          ≡ some (
              fitting reply_cap
                (array_text (drop (pos_part start) (upto stop (take 1024 (values_of vals o))))))
    decide none e few texts = ap some (empty_range (pos_part start) stop reply_cap)
    decide (some i) e few texts = ap some (
        lrange-array_text log (list_of reg i) (vals i) start stop reply_cap t.log_valid
          (t.lists i (omega (arith, t.indexed.bound key i e, t.indexed.limit))) few texts)

-- LLEN counts the values of the key's list, modulo 2 ^ 32, and gives 0 for a key without one.
pub list_reg_llen-length :
    (reg : Registry Meta) (log : Log) (index : List ℕ → Option ℕ) (vals : ℕ → List (List ℕ))
    (key : List ℕ)
    → Tracks reg log index vals
    → list_reg_llen reg key ≡ some (length (values index vals key) % 2 ^ 32)
unfolding list_reg_llen
list_reg_llen-length reg log index vals key t =
    rw (lookup_index-Indexed reg index key t.indexed) (decide (index key) refl)
  where
    decide :
        (o : Option ℕ)
        → index key ≡ o
        → len_at reg (some o) ≡ some (length (values_of vals o) % 2 ^ 32)
    decide none e = refl
    decide (some i) e =
        ap some (t.lists i (omega (arith, t.indexed.bound key i e, t.indexed.limit))).number
