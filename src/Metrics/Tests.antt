-- ===== src/Metrics/Tests.antt =====
-- The metrics on concrete calls.
use zedis.Base.{ℕ, ◌%◌, ◌^◌, ◌≡◌, refl, arith, true, false, none, some, List, [], ◌∷◌, get_or}
use zedis.Metrics.{Metrics, command_names, command_index, index_from, init, maybe_write, fresh}
use zedis.Metrics.Counts.{counter, record_all, occurrences, counter-record_all}

abbrev set_name : List ℕ
set_name = 83 ∷ 69 ∷ 84 ∷ []

abbrev get_name : List ℕ
get_name = 71 ∷ 69 ∷ 84 ∷ []

abbrev lower_get : List ℕ
lower_get = 103 ∷ 101 ∷ 116 ∷ []

abbrev calls : List (List ℕ)
calls = get_name ∷ set_name ∷ lower_get ∷ get_name ∷ []

abbrev dir : List ℕ
dir = 47 ∷ 116 ∷ []

get_index : command_index get_name ≡ some 3
unfolding index_from
get_index = refl

-- Only the spelling of the table is counted.
lower_get_index : command_index lower_get ≡ none
unfolding index_from
lower_get_index = refl

empty_dir : init (some []) 5 true true ≡ none
unfolding init
empty_dir = refl

default_interval : init (some dir) 0 true true ≡ some (fresh dir 1000)
unfolding init
default_interval = refl

counter-record_all_example :
    counter 3 (record_all calls (some (fresh dir 0)))
    ≡ occurrences (get_or command_names 3 []) calls % 2 ^ 64
counter-record_all_example = counter-record_all dir 0 calls 3 (omega arith)

abbrev written : ℕ → Metrics
written t = record {
  collector_dir = dir;
  interval_ms = 1000;
  last_write_ms = t;
  command_counts = [];
}

first_write : (maybe_write (some (written 0)) 7).0 ≡ true
unfolding maybe_write
first_write = refl

too_early : maybe_write (some (written 7)) 1006 ≡ (false, some (written 7))
unfolding maybe_write
too_early = refl

due : maybe_write (some (written 7)) 1007 ≡ (true, some (written 1007))
unfolding maybe_write
due = refl
