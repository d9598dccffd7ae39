-- ===== src/HashTable.antt =====
-- src/hash_table.c, include/hash_table.h: the fixed-capacity Robin Hood table behind the string keys and
-- the two registries. An entry's `key` and `value` are the first `key_len` and `value_len` bytes of its
-- arrays: the code never reads past them. The `for (;;)` loops take fuel, a `none` means that it ran out.
pub mod Walk
pub mod Total
pub mod Search
pub mod Invariant
pub mod Insert
pub mod Loop
pub mod Pair
pub mod Own
pub mod Refine
pub mod Delete
pub mod Dictionary
pub mod Tombstone
mod Tests
use Prim.Native.Nat.{bit_xor}
use zedis.Base.{
  ℕ, zero, suc, ◌+◌, ◌-◌, ◌*◌, ◌%◌, ◌^◌, Bool, true, false, ◌&&◌, Option, none, some, List, [], ◌∷◌,
  ltb, leb, ◌==◌, if◌then◌else◌, length, get_or, set, take, replicate,
}
use zedis.Base.Size.{mul_size}
use zedis.Base.Status.{Status, ok, failed}
use zedis.Arena.{Arena, calloc}

abbrev pub max_key : ℕ
max_key = 256

abbrev pub max_value : ℕ
max_value = 4096

-- `ht_state_t`
pub data State : Type 0 where
  empty occupied tombstone : State

-- `ht_entry_t`
pub record Entry : Type 0 where
  pub state : State
  pub psl : ℕ
  pub hash : ℕ
  pub key : List ℕ
  pub value : List ℕ

-- `zedis_hash_table_t`
pub record Table : Type 0 where
  pub entries : List Entry
  pub capacity : ℕ
  pub count : ℕ

abbrev pub empty_entry : Entry
empty_entry = record { state = empty; psl = 0; hash = 0; key = []; value = [] }

-- `uint32_t` addition of one
abbrev pub next32 : ℕ → ℕ
next32 n = (n + 1) % 2 ^ 32

hash_from : ℕ → List ℕ → ℕ
hash_from h [] = h
hash_from h (c ∷ key) = hash_from (bit_xor h c * 16777619 % 2 ^ 32) key

-- FNV-1a over the bytes of the key
unfoldable pub ht_hash : List ℕ → ℕ
unfolding hash_from
ht_hash key = hash_from 2166136261 key

abbrev pub fresh : ℕ → Table
fresh capacity = record { entries = replicate capacity empty_entry; capacity = capacity; count = 0 }

-- sizeof(ht_entry_t)
abbrev pub entry_size : ℕ
entry_size = 4384

abbrev pub on_entries : ℕ → Option ℕ × Arena → Option Table × Arena
on_entries capacity (none, arena) = (none, arena)
on_entries capacity (some entries, arena) = (some (fresh capacity), arena)

unfoldable pub init : Arena → ℕ → Option Table × Arena
init arena capacity =
    if capacity == 0
    then (none, arena)
    else on_entries capacity (calloc arena capacity entry_size 64)

abbrev pub is_occupied : Entry → Bool
is_occupied e = elim e.state [ occupied ↦ true | _ ↦ false ]

abbrev pub is_empty : Entry → Bool
is_empty e = elim e.state [ empty ↦ true | _ ↦ false ]

-- memcmp of two byte strings of one length
abbrev pub same_bytes : List ℕ → List ℕ → Bool
same_bytes [] [] = true
same_bytes (a ∷ u) (b ∷ v) = a == b && same_bytes u v
same_bytes _ _ = false

unfoldable pub entry_key_match : Entry → ℕ → List ℕ → Bool
entry_key_match e hash key =
    is_occupied e && (e.hash == hash && (length e.key == length key && same_bytes e.key key))

abbrev pub entry_at : List Entry → ℕ → Entry
entry_at es i = get_or es i empty_entry

-- What the loop of `zedis_ht_set` carries from round to round.
pub record Cursor : Type 0 where
  pub entries : List Entry
  pub idx : ℕ
  pub psl : ℕ
  pub incoming : Entry

-- The stores that put the incoming entry into the slot.
abbrev pub placed : Cursor → Entry
placed c = record c.incoming { state = occupied; psl = c.psl }

-- The rest of a round that met another key: a richer entry gives up its slot and becomes the incoming one.
unfoldable pub advance : ℕ → Cursor → Cursor
advance capacity c =
    let e = entry_at c.entries c.idx in
    if ltb e.psl c.psl
    then record {
      entries = set c.entries c.idx (placed c);
      idx = (c.idx + 1) % capacity;
      psl = next32 e.psl;
      incoming = e;
    }
    else record c { idx = (c.idx + 1) % capacity; psl = next32 c.psl }

unfoldable pub set_loop : ℕ → Table → ℕ → List ℕ → List ℕ → Cursor → Option Table
set_loop zero t hash key value c = none
set_loop (suc fuel) t hash key value c =
    let e = entry_at c.entries c.idx in
    let rest = set_loop fuel t hash key value (advance t.capacity c) in
    if is_occupied e
    then (if entry_key_match e hash key
        then some (record t { entries = set c.entries c.idx (record e { value = value }) })
        else rest)
    else some (record t { entries = set c.entries c.idx (placed c); count = t.count + 1 })

abbrev pub start : Table → List ℕ → List ℕ → Cursor
start t key value = record {
  entries = t.entries;
  idx = ht_hash key % t.capacity;
  psl = 0;
  incoming = record { state = empty; psl = 0; hash = ht_hash key; key = key; value = value };
}

-- `capacity` rounds are enough.
unfoldable pub set_key : Table → List ℕ → List ℕ → Option (Status × Table)
set_key t key value =
    if ltb max_key (length key)
    then some (failed, t)
    else if ltb max_value (length value)
    then some (failed, t)
    else if leb (mul_size t.capacity 7) (mul_size t.count 10)
    then some (failed, t)
    else elim (set_loop t.capacity t (ht_hash key) key value (start t key value)) [
      | none ↦ none
      | some t' ↦ some (ok, t')
    ]

-- The search loop of `zedis_ht_get` and `zedis_ht_del`: the slot of the key, `some none` for -1.
unfoldable pub probe : ℕ → Table → ℕ → List ℕ → ℕ → ℕ → Option (Option ℕ)
probe zero t hash key idx psl = none
probe (suc fuel) t hash key idx psl =
    let e = entry_at t.entries idx in
    let rest = probe fuel t hash key ((idx + 1) % t.capacity) (next32 psl) in
    if is_empty e
    then some none
    else if entry_key_match e hash key
    then some (some idx)
    else if ltb e.psl psl
    then some none
    else rest

-- The bytes written to `value_out` before the NUL, and `*value_len_out`.
pub record Fetched : Type 0 where
  pub copied : List ℕ
  pub value_len : ℕ

abbrev pub fetch : ℕ → List ℕ → Fetched
fetch value_cap value =
    let n = length value in
    record { copied = take (if ltb n value_cap then n else value_cap - 1) value; value_len = n }

-- From the home slot of the key; `capacity + 1` rounds are enough.
unfoldable pub search : Table → List ℕ → Option (Option ℕ)
search t key = probe (suc t.capacity) t (ht_hash key) key (ht_hash key % t.capacity) 0

abbrev pub got : Table → ℕ → Option (Option ℕ) → Option (Option Fetched)
got t value_cap none = none
got t value_cap (some none) = some none
got t value_cap (some (some i)) = some (some (fetch value_cap (entry_at t.entries i).value))

-- The callers pass a buffer, so `value_out` is not NULL and `value_cap` not 0.
unfoldable pub get : Table → List ℕ → ℕ → Option (Option Fetched)
get t key value_cap = if t.capacity == 0 then some none else got t value_cap (search t key)

-- The stores of a deletion.
abbrev pub bury : Table → ℕ → Table
bury t i = record t {
  entries = set t.entries i (record (entry_at t.entries i) { state = tombstone; psl = 0 });
  count = t.count - 1;
}

abbrev pub deleted : Table → Option (Option ℕ) → Option (Status × Table)
deleted t none = none
deleted t (some none) = some (failed, t)
deleted t (some (some i)) = some (ok, bury t i)

unfoldable pub del : Table → List ℕ → Option (Status × Table)
del t key = deleted t (search t key)

-- `zedis_ht_destroy`: the structure is zeroed.
abbrev pub destroy : Table → Table
destroy t = record { entries = []; capacity = 0; count = 0 }
