-- ===== src/Slab.antt =====
-- src/slab.c, include/slab.h: four pools of equal blocks, the free ones linked through their first word. An
-- address is a number; `links` is the word that stands at each block's address, `none` for NULL. The
-- server runs on one thread, so a compare-and-exchange that fails is tried again on the same head.
pub mod Pools
pub mod Start
mod Tests
use zedis.Base.{
  ℕ, zero, suc, ◌+◌, ◌-◌, ◌*◌, Option, none, some, List, [], ◌∷◌, leb, ◌==◌, if◌then◌else◌, get_or,
  set,
}
use zedis.Base.Size.{mul_size}
use zedis.Base.Run.{Run, done, undefined}
use zedis.Arena.{Arena, alloc}

-- `zedis_slab_pool_t`
pub record Pool : Type 0 where
  pub block_size : ℕ
  pub block_count : ℕ
  pub free_list : Option ℕ
  pub storage : ℕ

-- `zedis_slab_t`, with the words of the blocks
pub record Slab : Type 0 where
  pub pools : List Pool
  pub links : ℕ → Option ℕ

-- block->next = v
abbrev pub store : (ℕ → Option ℕ) → ℕ → Option ℕ → ℕ → Option ℕ
store links block v b = if block == b then v else links b

-- The loop of `init_pool` over the blocks from `block` on: the last head, and the words. The storage ends
-- at `limit`; a store of a word past it is undefined behaviour.
unfoldable pub thread : ℕ → ℕ → ℕ → ℕ → Option ℕ → (ℕ → Option ℕ) → Run (Option ℕ × (ℕ → Option ℕ))
thread zero block stride limit head links = done (head, links)
thread (suc count) block stride limit head links =
    let rest = thread count (block + stride) stride limit (some block) (store links block head) in
    if leb (block + 8) limit then rest else undefined

abbrev pub Made : Type 0
Made = Option (Pool × (ℕ → Option ℕ))

abbrev pub with_blocks : ℕ → ℕ → ℕ → Run (Option ℕ × (ℕ → Option ℕ)) → Run Made
with_blocks block_size block_count storage undefined = undefined
with_blocks block_size block_count storage (done (head, links)) = done (
    some (
      record {
        block_size = block_size;
        block_count = block_count;
        free_list = head;
        storage = storage;
      },
      links,
    ))

-- The pool on the storage that was served, `none` for -1.
abbrev pub on_storage : (ℕ → Option ℕ) → ℕ → ℕ → Option ℕ → Run Made
on_storage links block_size block_count none = done none
on_storage links block_size block_count (some storage) =
    with_blocks block_size block_count storage
      (thread block_count storage block_size (storage + mul_size block_size block_count) none links)

unfoldable pub init_pool : (ℕ → Option ℕ) → Arena → ℕ → ℕ → Run Made × Arena
init_pool links arena block_size block_count =
    let (mem, arena') = alloc arena (mul_size block_size block_count) 64 in
    (on_storage links block_size block_count mem, arena')

abbrev pub no_pool : Pool
no_pool = record { block_size = 0; block_count = 0; free_list = none; storage = 0 }

-- The index of the pool for a size, `none` for NULL.
unfoldable pub pool_for_size : ℕ → Option ℕ
pool_for_size size =
    if leb size 64
    then some 0
    else if leb size 256
    then some 1
    else if leb size 512
    then some 2
    else if leb size 4096
    then some 3
    else none

abbrev pub pool_at : Slab → ℕ → Pool
pool_at s i = get_or s.pools i no_pool

abbrev pub with_head : Slab → ℕ → Option ℕ → ℕ → Option ℕ → Slab
with_head s i head block v = record {
  pools = set s.pools i (record (pool_at s i) { free_list = head });
  links = store s.links block v;
}

-- `head->data` stands behind the link, 8 bytes on.
abbrev pub take_block : Slab → ℕ → Option ℕ → Option ℕ × Slab
take_block s i none = (none, s)
take_block s i (some block) = (some (block + 8), with_head s i (s.links block) block none)

abbrev pub from_pool : Slab → Option ℕ → Option ℕ × Slab
from_pool s none = (none, s)
from_pool s (some i) = take_block s i (pool_at s i).free_list

unfoldable pub slab_alloc : Slab → ℕ → Option ℕ × Slab
slab_alloc s size = from_pool s (pool_for_size size)

abbrev pub to_pool : Slab → ℕ → Option ℕ → Slab
to_pool s block none = s
to_pool s block (some i) = with_head s i (some block) block (pool_at s i).free_list

-- `ptr` is not NULL.
unfoldable pub slab_free : Slab → ℕ → ℕ → Slab
slab_free s ptr size = to_pool s (ptr - 8) (pool_for_size size)

-- The calls of `init_pool` for the sizes in order, each in what the last one left; -1 ends them.
unfoldable pub init_pools :
    List (ℕ × ℕ) → (ℕ → Option ℕ) → Arena → Run (Option (List Pool × (ℕ → Option ℕ))) × Arena
init_pools [] links arena = (done (some ([], links)), arena)
init_pools ((block_size, block_count) ∷ rest) links arena =
    let (made, arena') = init_pool links arena block_size block_count in
    let later = λ (pool : Pool) (links' : ℕ → Option ℕ). init_pools rest links' arena' in
    elim made [
      | undefined ↦ (undefined, arena')
      | done none ↦ (done none, arena')
      | done (some (pool, links')) ↦
          let (pools, arena2) = later pool links' in
          (
            elim pools [
              | undefined ↦ undefined
              | done none ↦ done none
              | done (some (ps, links2)) ↦ done (some (pool ∷ ps, links2))
            ],
            arena2,
          )
    ]

unfoldable pub slab_init : (ℕ → Option ℕ) → Arena → ℕ → ℕ → ℕ → ℕ → Run (Option Slab) × Arena
slab_init links arena count_64 count_256 count_512 count_4096 =
    let (made, arena') =
      init_pools ((64, count_64) ∷ (256, count_256) ∷ (512, count_512) ∷ (4096, count_4096) ∷ [])
        links arena in
    (
      elim made [
        | undefined ↦ undefined
        | done none ↦ done none
        | done (some (pools, links')) ↦ done (some (record { pools = pools; links = links' }))
      ],
      arena',
    )

-- `zedis_slab_destroy`: the pools are zeroed, the blocks keep their bytes.
abbrev pub destroy : Slab → Slab
destroy s = record { pools = no_pool ∷ no_pool ∷ no_pool ∷ no_pool ∷ []; links = s.links }
