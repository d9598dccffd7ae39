-- ===== src/KeyRegistry.antt =====
-- src/key_registry.c, include/key_registry.h: the tables that give a key the index of its list. The two
-- registries have the same shape over their items; `none` outside a result means that a loop of the hash
-- table ran out of fuel.
pub mod Index
pub mod Lists
pub mod Reads
pub mod Start
pub mod Zsets
mod Tests
use zedis.Base.{
  ℕ, zero, suc, ◌+◌, ◌-◌, ◌*◌, ◌%◌, ◌^◌, Bool, true, false, not, Option, none, some, List, [], ◌∷◌,
  ltb, leb, ◌==◌, if◌then◌else◌, get_or, set, min, replicate,
}
use zedis.Base.Int.{ℤ}
use zedis.Base.Status.{Status, ok, failed}
use zedis.Base.Bytes.{cstr}
use zedis.Arena.{Arena, calloc}
use zedis.HashTable.{Table, Fetched, set_key, get, init, destroy}
use zedis.Resp.Scan.{is_digit}
use zedis.Resp.Format.{decimal}
use zedis.AppendLog.{Log, Meta, no_prev, lpush, lrange, llen, fitting, count_text}

-- `zedis_list_registry_t`, and `zedis_zset_registry_t` over its trees
pub record Registry (A : Type 0) : Type 0 where
  pub items : List A
  pub keys : Table
  pub max_items : ℕ
  pub used : ℕ

-- strtoul(s, NULL, 10) of a string that begins with a digit, as `store_index` writes it.
abbrev pub strtoul_from : ℕ → List ℕ → ℕ
strtoul_from v [] = v
strtoul_from v (c ∷ cs) =
    if is_digit c then strtoul_from (min (v * 10 + (c - 48)) (2 ^ 64 - 1)) cs else v

abbrev pub index_of : Fetched → ℕ
index_of f = strtoul_from 0 (cstr f.copied) % 2 ^ 32

abbrev pub looked_up : Option (Option Fetched) → Option (Option ℕ)
looked_up none = none
looked_up (some none) = some none
looked_up (some (some f)) = some (some (index_of f))

-- `buf` has 32 bytes.
unfoldable pub lookup_index : Table → List ℕ → Option (Option ℕ)
lookup_index keys key = looked_up (get keys key 32)

unfoldable pub store_index : Table → List ℕ → ℕ → Option (Status × Table)
store_index keys key idx = set_key keys key (decimal idx)

module _ {A : Type 0} where
  -- `idx_out`, `none` for -1, and the registry.
  abbrev pub stored : Registry A → ℕ → Option (Status × Table) → Option (Option ℕ × Registry A)
  stored reg idx none = none
  stored reg idx (some (ok, t)) = some (some idx, record reg { keys = t })
  stored reg idx (some (failed, t)) = some (none, record reg { keys = t })

  abbrev pub take_index : Registry A → List ℕ → Option (Option ℕ × Registry A)
  take_index reg key =
      if leb reg.max_items reg.used
      then some (none, reg)
      else stored (record reg { used = (reg.used + 1) % 2 ^ 32 }) reg.used
          (store_index reg.keys key reg.used)

  abbrev pub index_or :
      Registry A → List ℕ → Bool → Option (Option ℕ) → Option (Option ℕ × Registry A)
  index_or reg key create none = none
  index_or reg key create (some (some idx)) = some (some idx, reg)
  index_or reg key create (some none) = if not create then some (none, reg) else take_index reg key

  -- `zset_index_for_key` and `list_index_for_key`
  unfoldable pub index_for_key : Registry A → List ℕ → Bool → Option (Option ℕ × Registry A)
  index_for_key reg key create = index_or reg key create (lookup_index reg.keys key)

abbrev pub empty_list : Meta
empty_list = record { head_off = no_prev; tail_off = no_prev; count = 0 }

abbrev pub list_of : Registry Meta → ℕ → Meta
list_of reg idx = get_or reg.items idx empty_list

abbrev pub with_keys : ℕ → Option Table × Arena → Option (Registry Meta) × Arena
with_keys max_lists (none, arena) = (none, arena)
with_keys max_lists (some keys, arena) = (
  some (record {
    items = replicate max_lists empty_list;
    keys = keys;
    max_items = max_lists;
    used = 0;
  }),
  arena,
)

abbrev pub with_lists : ℕ → Option ℕ × Arena → Option (Registry Meta) × Arena
with_lists max_lists (none, arena) = (none, arena)
with_lists max_lists (some storage, arena) =
    with_keys max_lists (init arena (max_lists * 2 % 2 ^ 32))

-- `zedis_list_reg_init`; a `list_meta_t` has 12 bytes.
unfoldable pub list_reg_init : Arena → ℕ → Option (Registry Meta) × Arena
list_reg_init arena max_lists =
    if max_lists == 0 then (none, arena) else with_lists max_lists (calloc arena max_lists 12 64)

abbrev pub pushed_to : Registry Meta → ℕ → Status × Log × Meta → Status × Registry Meta × Log
pushed_to reg idx (status, log, meta) = (status, record reg { items = set reg.items idx meta }, log)

abbrev pub push_at :
    Log
    → List ℕ
    → List ℕ
    → Option (Option ℕ × Registry Meta)
    → Option (Status × Registry Meta × Log)
push_at log key val none = none
push_at log key val (some (none, reg)) = some (failed, reg, log)
push_at log key val (some (some idx, reg)) =
    some (pushed_to reg idx (lpush log (list_of reg idx) key val))

-- `zedis_list_reg_lpush`
unfoldable pub list_reg_lpush :
    Registry Meta → Log → List ℕ → List ℕ → Option (Status × Registry Meta × Log)
list_reg_lpush reg log key val = push_at log key val (index_for_key reg key true)

abbrev pub range_at : Registry Meta → Log → ℤ → ℤ → ℕ → Option (Option ℕ) → Option (Option (List ℕ))
range_at reg log start stop reply_cap none = none
range_at reg log start stop reply_cap (some none) = some (fitting reply_cap (count_text 0))
range_at reg log start stop reply_cap (some (some idx)) =
    some (lrange log (list_of reg idx) start stop reply_cap)

-- `zedis_list_reg_lrange`
unfoldable pub list_reg_lrange : Registry Meta → Log → List ℕ → ℤ → ℤ → ℕ → Option (Option (List ℕ))
list_reg_lrange reg log key start stop reply_cap =
    range_at reg log start stop reply_cap (lookup_index reg.keys key)

abbrev pub len_at : Registry Meta → Option (Option ℕ) → Option ℕ
len_at reg none = none
len_at reg (some none) = some 0
len_at reg (some (some idx)) = some (llen (list_of reg idx))

-- `zedis_list_reg_llen`
unfoldable pub list_reg_llen : Registry Meta → List ℕ → Option ℕ
list_reg_llen reg key = len_at reg (lookup_index reg.keys key)

-- `zedis_list_reg_destroy`: the structure is zeroed.
abbrev pub list_reg_destroy : Registry Meta → Registry Meta
list_reg_destroy reg = record { items = []; keys = destroy reg.keys; max_items = 0; used = 0 }
