-- ===== src/Metrics.antt =====
-- src/metrics.c: the counters of the commands handled, and the time of the next snapshot. The snapshot
-- itself is file output; the clock's answer is given. A null `server` is no call of the model.
pub mod Counts
mod Tests
use zedis.Base.{
  ℕ, suc, ◌+◌, Bool, true, false, Option, none, some, List, [], ◌∷◌, length, get_or, set, replicate,
  ◌==◌, ltb, ◌&&◌, not, if◌then◌else◌,
}
use zedis.HashTable.{same_bytes}
use zedis.Base.Size.{add_size, sub_size}

-- PING, ECHO, SET, GET, BID, ASK, BOOK, DEL, ZADD, ZSCORE, ZRANGE, LPUSH, LRANGE, LLEN, PUBLISH,
-- SUBSCRIBE, QUIT
abbrev pub command_names : List (List ℕ)
command_names =
    (80 ∷ 73 ∷ 78 ∷ 71 ∷ [])
    ∷ (69 ∷ 67 ∷ 72 ∷ 79 ∷ [])
    ∷ (83 ∷ 69 ∷ 84 ∷ [])
    ∷ (71 ∷ 69 ∷ 84 ∷ [])
    ∷ (66 ∷ 73 ∷ 68 ∷ [])
    ∷ (65 ∷ 83 ∷ 75 ∷ [])
    ∷ (66 ∷ 79 ∷ 79 ∷ 75 ∷ [])
    ∷ (68 ∷ 69 ∷ 76 ∷ [])
    ∷ (90 ∷ 65 ∷ 68 ∷ 68 ∷ [])
    ∷ (90 ∷ 83 ∷ 67 ∷ 79 ∷ 82 ∷ 69 ∷ [])
    ∷ (90 ∷ 82 ∷ 65 ∷ 78 ∷ 71 ∷ 69 ∷ [])
    ∷ (76 ∷ 80 ∷ 85 ∷ 83 ∷ 72 ∷ [])
    ∷ (76 ∷ 82 ∷ 65 ∷ 78 ∷ 71 ∷ 69 ∷ [])
    ∷ (76 ∷ 76 ∷ 69 ∷ 78 ∷ [])
    ∷ (80 ∷ 85 ∷ 66 ∷ 76 ∷ 73 ∷ 83 ∷ 72 ∷ [])
    ∷ (83 ∷ 85 ∷ 66 ∷ 83 ∷ 67 ∷ 82 ∷ 73 ∷ 66 ∷ 69 ∷ [])
    ∷ (81 ∷ 85 ∷ 73 ∷ 84 ∷ [])
    ∷ []

-- `zedis_metrics_t`
pub record Metrics : Type 0 where
  pub collector_dir : List ℕ
  pub interval_ms : ℕ
  pub last_write_ms : ℕ
  pub command_counts : List ℕ

-- strncmp over the whole of a table name, which has no NUL, is the comparison of its bytes.
abbrev pub name_equal : List ℕ → List ℕ → Bool
name_equal a name = length a == length name && same_bytes a name

-- The loop from the `k`th name on; `none` is the C code's -1.
unfoldable pub index_from : ℕ → List (List ℕ) → List ℕ → Option ℕ
index_from k [] name = none
index_from k (a ∷ names) name =
    let rest = index_from (suc k) names name in if name_equal a name then some k else rest

abbrev pub command_index : List ℕ → Option ℕ
command_index name = index_from 0 command_names name

abbrev pub fresh : List ℕ → ℕ → Metrics
fresh dir interval = record {
  collector_dir = dir;
  interval_ms = if interval == 0 then 1000 else interval;
  last_write_ms = 0;
  command_counts = replicate (length command_names) 0;
}

-- `none` for a null `collector_dir`; the two tests tell whether calloc and strdup had memory.
unfoldable pub init : Option (List ℕ) → ℕ → Bool → Bool → Option Metrics
init none interval calloc_ok strdup_ok = none
init (some []) interval calloc_ok strdup_ok = none
init (some (c ∷ dir)) interval calloc_ok strdup_ok =
    if calloc_ok && strdup_ok then some (fresh (c ∷ dir) interval) else none

abbrev pub count : Metrics → Option ℕ → Metrics
count m none = m
count m (some i) = record {
  collector_dir = m.collector_dir;
  interval_ms = m.interval_ms;
  last_write_ms = m.last_write_ms;
  command_counts = set m.command_counts i (add_size (get_or m.command_counts i 0) 1);
}

-- A server without metrics counts nothing.
unfoldable pub record_command : Option Metrics → List ℕ → Option Metrics
record_command none name = none
record_command (some m) name = some (count m (command_index name))

-- The snapshot is not due.
abbrev pub early : Metrics → ℕ → Bool
early m now = not (m.last_write_ms == 0) && ltb (sub_size now m.last_write_ms) m.interval_ms

-- Whether a snapshot is written at the clock's answer `now`, and the record afterwards.
unfoldable pub maybe_write : Option Metrics → ℕ → Bool × Option Metrics
maybe_write none now = (false, none)
maybe_write (some m) now = if early m now then (false, some m) else (
  true,
  some (record {
    collector_dir = m.collector_dir;
    interval_ms = m.interval_ms;
    last_write_ms = now;
    command_counts = m.command_counts;
  }),
)

unfoldable pub destroy : Option Metrics → Option Metrics
destroy m = none
