-- ===== src/Slab/Start.antt =====
-- The free list that `init_pool` threads through its storage.
use native.Mathlib.Nat.{mul-le-mul_right}
use zedis.Base.{
  ℕ, zero, suc, ◌+◌, ◌*◌, ◌^◌, ◌≤◌, ◌<◌, leb, le→leb, true, ◌≡◌, refl, ◌∙◌, Option, none, some,
  List, [], ◌∷◌, length, arith, inl, inr, ◌⊎◌, ==_refl,
}
use zedis.Base.Size.{mul_size}
use zedis.Base.Run.{done}
use zedis.Arena.{Arena, alloc}
use zedis.Slab.{Pool, store, thread, init_pool}
use zedis.Slab.Pools.{In, Distinct, Linked, Linked-store}

-- The blocks that the loop puts in front of a list, the last one first.
laid : ℕ → ℕ → ℕ → List ℕ → List ℕ
laid zero block stride acc = acc
laid (suc count) block stride acc = laid count (block + stride) stride (block ∷ acc)

-- Where a block of a pool of `count` blocks may stand.
abbrev pub Place : ℕ → ℕ → ℕ → ℕ → Type 0
Place storage stride count a = (k : ℕ) × (k < count) × (a ≡ storage + k * stride)

laid-Place :
    (count block stride a : ℕ) (acc : List ℕ)
    → In a (laid count block stride acc)
    → In a acc ⊎ Place block stride count a
unfolding laid
laid-Place zero block stride a acc p = inl p
laid-Place (suc count) block stride a acc p =
    elim (laid-Place count (block + stride) stride a (block ∷ acc) p) [
      | inl (inl e) ↦ inr (0, omega arith, omega (arith, e))
      | inl (inr q) ↦ inl q
      | inr (k, l, e) ↦ inr (suc k, omega arith, omega (arith, e))
    ]

length-laid :
    (count block stride : ℕ) (acc : List ℕ)
    → length (laid count block stride acc) ≡ count + length acc
unfolding laid
length-laid zero block stride acc = omega arith
length-laid (suc count) block stride acc =
    omega (arith, length-laid count (block + stride) stride (block ∷ acc))

thread-Linked :
    (count block stride limit : ℕ) (head : Option ℕ) (links : ℕ → Option ℕ) (acc : List ℕ)
    → 8 ≤ stride
    → block + count * stride ≤ limit
    → Linked links head acc
    → Distinct acc
    → ((a : ℕ) → In a acc → a < block)
    → (head' : Option ℕ) × (links' : ℕ → Option ℕ) × (thread count block stride limit head links
        ≡ done (head', links'))
      × Linked links' head' (laid count block stride acc)
      × Distinct (laid count block stride acc)
unfolding thread laid
thread-Linked zero block stride limit head links acc pos room l d low = (head, links, refl, l, d)
thread-Linked (suc count) block stride limit head links acc pos room l d low =
    let inside : leb (block + 8) limit ≡ true = le→leb _ _ (omega arith) in
    let (head', links', run, l', d') =
      thread-Linked count (block + stride) stride limit (some block) (store links block head)
        (block ∷ acc) pos (omega arith)
        (refl, rw (own block) (Linked-store links block head head acc new l)) (new, d)
        (λ a p. elim p [ inl e ↦ omega (arith, e) | inr q ↦ let h = low a q in omega arith ]) in
    (head', links', rw (inside, run) refl, l', d')
  where
    new : ¬ In block acc
    new p = let h = low block p in absurd (omega arith)

    own : (b : ℕ) → store links b head b ≡ head
    own b = rw (==_refl b) refl

-- Where the arena serves the storage, and blocks of at least one word whose sizes add up to less than 2 ^ 64
-- are asked for, `init_pool` returns 0 and stores nothing outside the storage; the free list of the pool
-- holds `block_count` blocks, no two the same, each at a multiple of the block size from the start of the
-- storage, and whole below its end.
pub init_pool-Linked :
    (links : ℕ → Option ℕ) (arena arena' : Arena) (block_size block_count storage : ℕ)
    → 8 ≤ block_size
    → block_size * block_count < 2 ^ 64
    → alloc arena (mul_size block_size block_count) 64 ≡ (some storage, arena')
    → (pool : Pool) × (links' : ℕ → Option ℕ) × (blocks : List ℕ) × (init_pool links arena
          block_size block_count
        ≡ (done (some (pool, links')), arena'))
      × Linked links' pool.free_list blocks
      × Distinct blocks
      × (length blocks ≡ block_count)
      × ((a : ℕ)
          → In a blocks
          → Place storage block_size block_count a
            × (a + block_size ≤ storage + block_size * block_count))
unfolding init_pool
init_pool-Linked links arena arena' block_size block_count storage pos small e =
    let whole : storage + mul_size block_size block_count ≡ storage + block_size * block_count =
      omega arith in
    let turned : block_count * block_size ≡ block_size * block_count = omega arith in
    let (head, links', run, l, d) =
      thread-Linked block_count storage block_size (storage + mul_size block_size block_count) none
        links [] pos (omega (arith, whole, turned)) refl tt (λ a p. elim p [ ]) in
    (
      record {
        block_size = block_size;
        block_count = block_count;
        free_list = head;
        storage = storage;
      },
      links',
      laid block_count storage block_size [],
      rw (e, run) refl,
      l,
      d,
      length-laid block_count storage block_size [] ∙ omega arith,
      λ a p. elim (laid-Place block_count storage block_size a [] p) [
        | inl q ↦ elim q [ ]
        | inr (k, l, at) ↦ (
          (k, l, at),
          let m : suc k * block_size ≤ block_count * block_size =
                mul-le-mul_right block_size (omega arith) in
              omega (arith, at, m, turned),
        )
      ],
    )
