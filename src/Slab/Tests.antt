-- ===== src/Slab/Tests.antt =====
-- Runs of the slab, and the theorems at concrete inputs.
use zedis.Base.{
  ℕ, zero, suc, ◌+◌, ◌*◌, ◌≤◌, ◌<◌, ◌≡◌, refl, Option, none, some, List, [], ◌∷◌, length, replicate,
  inl, inr, false, ◌==◌, if◌then◌else◌, arith,
}
use zedis.Base.Size.{mul_size}
use zedis.Base.Run.{done}
use zedis.Arena.{Arena, alloc, start, align_up}
use zedis.Slab.{Pool, Slab, no_pool, pool_for_size, pool_at, init_pool, slab_alloc, slab_free}
use zedis.Slab.Pools.{
  In, Distinct, Linked, IsValid, Popped, slab_alloc-Popped, slab_free-pushes, update,
}
use zedis.Slab.Start.{Place, init_pool-Linked}

-- One pool of two blocks of 64 bytes, the other three empty.
abbrev words : ℕ → Option ℕ
words a = if a == 1064 then some 1000 else none

abbrev two_blocks : Slab
two_blocks = record {
  pools =
      record { block_size = 64; block_count = 2; free_list = some 1064; storage = 1000 }
      ∷ replicate 3 no_pool;
  links = words;
}

abbrev both : ℕ → List ℕ
both zero = 1064 ∷ 1000 ∷ []
both (suc i) = []

two_blocks-IsValid : IsValid two_blocks both
two_blocks-IsValid = record { four = refl; linked = linked; distinct = distinct; apart = apart }
  where
    linked : (i : ℕ) → i < 4 → Linked words (pool_at two_blocks i).free_list (both i)
    linked zero h = (refl, (refl, refl))
    linked (suc zero) h = refl
    linked (suc (suc zero)) h = refl
    linked (suc (suc (suc zero))) h = refl
    linked (suc (suc (suc (suc i)))) h = refl

    distinct : (i : ℕ) → i < 4 → Distinct (both i)
    distinct zero h = ((λ p. elim p [ inl e ↦ omega (arith, e) | inr q ↦ q ]), ((λ p. p), tt))
    distinct (suc i) h = tt

    apart : (i j a : ℕ) → i < 4 → j < 4 → In a (both i) → In a (both j) → i ≡ j
    apart zero zero a h g p q = refl
    apart zero (suc j) a h g p q = elim q [ ]
    apart (suc i) j a h g p q = elim p [ ]

-- A block comes back to the front of its list.
back_again : (slab_alloc (slab_free (slab_alloc two_blocks 40).1 1072 40) 64).0 ≡ some 1072
unfolding slab_alloc slab_free pool_for_size
back_again = refl

small : pool_for_size 40 ≡ some 0
unfolding pool_for_size
small = refl

slab_alloc-Popped_example : Popped two_blocks both 0 (slab_alloc two_blocks 40)
slab_alloc-Popped_example =
    slab_alloc-Popped {s = two_blocks} {free = both} 40 0 two_blocks-IsValid small

not_held : (j : ℕ) → j < 4 → ¬ In 5000 (both j)
not_held zero h = λ p. elim p [
  | inl e ↦ omega (arith, e)
  | inr q ↦ elim q [ inl e ↦ omega (arith, e) | inr r ↦ r ]
]
not_held (suc j) h = λ p. p

slab_free-pushes_example : IsValid (slab_free two_blocks 5008 40) (update 0 (5000 ∷ both 0) both)
slab_free-pushes_example =
    slab_free-pushes {s = two_blocks} {free = both} 5000 40 0 two_blocks-IsValid small not_held

abbrev arena : Arena
arena = record { base = 4096; size = 8192; offset = 100; used_hugepages = false }

storage_served : alloc arena (mul_size 64 2) 64 ≡ (some 4224, record arena { offset = 256 })
unfolding alloc start align_up
storage_served = refl

init_pool-Linked_example :
    (pool : Pool) × (links' : ℕ → Option ℕ) × (blocks : List ℕ) × (init_pool words arena 64 2
      ≡ (done (some (pool, links')), record arena { offset = 256 }))
    × Linked links' pool.free_list blocks
    × Distinct blocks
    × (length blocks ≡ 2)
    × ((a : ℕ) → In a blocks → Place 4224 64 2 a × (a + 64 ≤ 4224 + 64 * 2))
init_pool-Linked_example =
    init_pool-Linked words arena (record arena { offset = 256 }) 64 2 4224 (omega arith)
      (omega arith) storage_served
