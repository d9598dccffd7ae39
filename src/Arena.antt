-- ===== src/Arena.antt =====
-- src/arena.c, include/arena.h: the bump allocator from which every table of the server is cut.
-- An address is a number; `size_t` arithmetic wraps at 2 ^ 64. The kernel's `mmap` enters as the two
-- results that `zedis_arena_init` may get from it. Only the fields of the arena are state: what the
-- `memset` of `zedis_arena_calloc` clears is the fresh state of the component that asked.
pub mod Bounds
mod Tests
use Prim.Native.Nat.{bit_and}
use zedis.Base.{ℕ, ◌+◌, ◌*◌, Bool, true, false, Option, none, some, List, [], ◌∷◌}
use zedis.Base.{ltb, ◌==◌, if◌then◌else◌}
use zedis.Base.Size.{add_size, sub_size, mul_size, not_size}

-- `zedis_arena_t`
pub record Arena : Type 0 where
  pub base : ℕ
  pub size : ℕ
  pub offset : ℕ
  pub used_hugepages : Bool

unfoldable pub align_up : ℕ → ℕ → ℕ
align_up value align = bit_and (sub_size (add_size value align) 1) (not_size (sub_size align 1))

-- `huge` and `plain` are the results of the two `mmap` calls, `none` for MAP_FAILED.
unfoldable pub init : ℕ → Option ℕ → Option ℕ → Option Arena
init size huge plain = if size == 0 then none else elim huge [
  | some mem ↦ some (fresh mem true)
  | none ↦ elim plain [ some mem ↦ some (fresh mem false) | none ↦ none ]
]
  where
    fresh : ℕ → Bool → Arena
    fresh mem hugepages = record {
      base = mem;
      size = align_up size (2 * 1024 * 1024);
      offset = 0;
      used_hugepages = hugepages;
    }

-- The offset at which `zedis_arena_alloc` would place a block.
unfoldable pub start : Arena → ℕ → ℕ
start a align = align_up a.offset (if align == 0 then 64 else align)

-- The pointer returned (`none` for NULL), and the arena after the call.
unfoldable pub alloc : Arena → ℕ → ℕ → Option ℕ × Arena
alloc a size align =
    if size == 0
    then (none, a)
    else if ltb a.size (add_size (start a align) size)
    then (none, a)
    else (some (a.base + start a align), record a { offset = add_size (start a align) size })

unfoldable pub calloc : Arena → ℕ → ℕ → ℕ → Option ℕ × Arena
calloc a count size align = alloc a (mul_size count size) align

-- A client's requests in order, each a size with an alignment; every block served is listed with its
-- address and size.
keep : Option ℕ → ℕ → List (ℕ × ℕ) → List (ℕ × ℕ)
keep none size later = later
keep (some addr) size later = (addr, size) ∷ later

unfoldable pub serve : Arena → List (ℕ × ℕ) → List (ℕ × ℕ)
unfolding keep
serve a [] = []
serve a ((size, align) ∷ rest) = let (p, a') = alloc a size align in keep p size (serve a' rest)

-- `zedis_arena_destroy`: the mapping goes back and the structure is zeroed.
abbrev pub destroy : Arena → Arena
destroy arena =
    if arena.base == 0
    then arena
    else record { base = 0; size = 0; offset = 0; used_hugepages = false }
