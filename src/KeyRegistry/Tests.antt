-- ===== src/KeyRegistry/Tests.antt =====
-- Runs of the list registry, and the theorems at concrete inputs.
use zedis.Base.{
  ℕ, ◌+◌, ◌*◌, ◌%◌, ◌^◌, ◌<◌, ◌≤◌, ◌≡◌, refl, Option, none, some, List, [], ◌∷◌, ◌++◌, replicate,
  length, arith, take, drop, Bool, true, false, if◌then◌else◌,
}
use zedis.Base.Int.{pos, negsuc}
use zedis.Base.Status.{Status}
use zedis.Arena.{Arena, alloc, start, align_up, calloc}
use zedis.HashTable as Table
use zedis.HashTable.{ht_hash, set_key, set_loop, advance, entry_key_match, get, search, probe}
use zedis.Resp.Format.{decimal_in}
use zedis.AppendLog.{Log, Meta, lpush, fitting}
use zedis.AppendLog.Chain as Chains
use zedis.AppendLog.Range.{upto, array_text}
use zedis.KeyRegistry.{
  Registry, index_for_key, lookup_index, store_index, list_reg_init, list_reg_lpush,
  list_reg_lrange, list_reg_llen,
}
use zedis.KeyRegistry.Index.{Found, index_for_key-Found}
use zedis.KeyRegistry.Lists.{Tracks, PushedList, values, list_reg_lpush_refines}
use zedis.KeyRegistry.Reads.{list_reg_lrange-array_text, list_reg_llen-length}
use zedis.KeyRegistry.Start.{fresh_lists, fresh_lists-Tracks, list_reg_init-Tracks}

abbrev no_index : List ℕ → Option ℕ
no_index q = none

abbrev no_values : ℕ → List (List ℕ)
no_values i = []

abbrev small_log : Log
small_log = record { base = replicate 32 0; capacity = 32; write_pos = 0 }

small_log-IsValid : Chains.IsValid small_log
small_log-IsValid = record { size = refl; written = omega arith; addressed = omega arith }

two_lists-Tracks : Tracks (fresh_lists 2) small_log no_index no_values
two_lists-Tracks = fresh_lists-Tracks 2 small_log (omega arith) (omega arith) small_log-IsValid

abbrev key : List ℕ
key = 107 ∷ []

abbrev val : List ℕ
val = 97 ∷ 98 ∷ []

abbrev llen_after : Option (Status × Registry Meta × Log) → Option ℕ
llen_after none = none
llen_after (some (s, reg, log)) = list_reg_llen reg key

pushed_once : llen_after (list_reg_lpush (fresh_lists 2) small_log key val) ≡ some 1
unfolding list_reg_lpush list_reg_llen index_for_key lookup_index store_index lpush set_key set_loop
    advance entry_key_match ht_hash get search probe decimal_in zedis.Base.Bytes.cstr
pushed_once = refl

list_reg_lpush_refines_example :
    PushedList
      (fresh_lists 2)
      small_log
      no_index
      no_values
      key
      val
      (list_reg_lpush (fresh_lists 2) small_log key val)
list_reg_lpush_refines_example =
    list_reg_lpush_refines (fresh_lists 2) small_log no_index no_values key val two_lists-Tracks

index_for_key-Found_example :
    Found (fresh_lists 2) no_index key (index_for_key (fresh_lists 2) key true)
index_for_key-Found_example =
    index_for_key-Found (fresh_lists 2) no_index key two_lists-Tracks.indexed

list_reg_lrange-array_text_example :
    list_reg_lrange (fresh_lists 2) small_log key (pos 0) (negsuc 0) 64
    ≡ some (
        fitting 64
          (array_text (drop 0 (upto (negsuc 0) (take 1024 (values no_index no_values key))))))
list_reg_lrange-array_text_example =
    list_reg_lrange-array_text (fresh_lists 2) small_log no_index no_values key (pos 0) (negsuc 0)
      64 two_lists-Tracks (omega arith) tt

list_reg_llen-length_example :
    list_reg_llen (fresh_lists 2) key ≡ some (length (values no_index no_values key) % 2 ^ 32)
list_reg_llen-length_example =
    list_reg_llen-length (fresh_lists 2) small_log no_index no_values key two_lists-Tracks

abbrev arena : Arena
arena = record { base = 4096; size = 65536; offset = 0; used_hugepages = false }

-- 24 bytes for the two lists, then four entries of 4384 bytes.
made : list_reg_init arena 2 ≡ (some (fresh_lists 2), record arena { offset = 17600 })
unfolding list_reg_init calloc alloc start align_up Table.init
made = refl

list_reg_init-Tracks_example : Tracks (fresh_lists 2) small_log no_index no_values
list_reg_init-Tracks_example =
    list_reg_init-Tracks arena (record arena { offset = 17600 }) 2 (fresh_lists 2) small_log
      (omega arith) small_log-IsValid made
