-- ===== src/Slab/Pools.antt =====
-- The free lists of the pools as stacks of distinct blocks.
use native.Mathlib.Decide.{ℕ_discrete}
use zedis.Base.{
  ℕ, ◌+◌, ◌-◌, ◌<◌, ◌≡◌, ◌≢◌, refl, sym, ◌∙◌, false, Option, none, some, List, [], ◌∷◌, ◌==◌,
  ==_refl, if◌then◌else◌, length, length-set, get_or-set_self, get_or-set_ne, arith, inl, inr, ◌⊎◌,
}
use zedis.Slab.{
  Slab, store, no_pool, pool_for_size, pool_at, with_head, take_block, slab_alloc, slab_free,
}

abbrev pub In : ℕ → List ℕ → Type 0
In a [] = ⊥
In a (x ∷ xs) = (a ≡ x) ⊎ In a xs

abbrev pub Distinct : List ℕ → Type 0
Distinct [] = Unit
Distinct (x ∷ xs) = (¬ In x xs) × Distinct xs

-- The links lead from `p` through exactly the blocks of the list.
abbrev pub Linked : (ℕ → Option ℕ) → Option ℕ → List ℕ → Type 0
Linked links p [] = p ≡ none
Linked links p (x ∷ xs) = (p ≡ some x) × Linked links (links x) xs

-- Four pools, whose free lists hold the blocks `free i`, no block twice or in two pools.
pub record IsValid (s : Slab) (free : ℕ → List ℕ) : Type 0 where
  pub four : length s.pools ≡ 4
  pub linked : (i : ℕ) → i < 4 → Linked s.links (pool_at s i).free_list (free i)
  pub distinct : (i : ℕ) → i < 4 → Distinct (free i)
  pub apart : (i j a : ℕ) → i < 4 → j < 4 → In a (free i) → In a (free j) → i ≡ j

store-ne : (links : ℕ → Option ℕ) (a b : ℕ) (v : Option ℕ) → a ≢ b → store links a v b ≡ links b
store-ne links a b v n = let e : (a == b) ≡ false = ground arith in rw e refl

-- A word that no block of the list holds may change.
pub Linked-store :
    (links : ℕ → Option ℕ) (a : ℕ) (v p : Option ℕ) (xs : List ℕ)
    → ¬ In a xs
    → Linked links p xs
    → Linked (store links a v) p xs
Linked-store links a v p [] n l = l
Linked-store links a v p (x ∷ xs) n (e, l) = (
  e,
  rw (store-ne links a x v (λ z. n (inl z)))
      (Linked-store links a v (links x) xs (λ z. n (inr z)) l),
)

-- The lists with another list for pool `i`.
abbrev pub update : ℕ → List ℕ → (ℕ → List ℕ) → ℕ → List ℕ
update i xs free j = if i == j then xs else free j

pool_for_size-bound : (size i : ℕ) → pool_for_size size ≡ some i → i < 4
unfolding pool_for_size
pool_for_size-bound size i h = ground arith

update_self : (i : ℕ) (xs : List ℕ) (free : ℕ → List ℕ) → update i xs free i ≡ xs
update_self i xs free = rw (==_refl i) refl

update_ne : (i j : ℕ) (xs : List ℕ) (free : ℕ → List ℕ) → i ≢ j → update i xs free j ≡ free j
update_ne i j xs free n = let e : (i == j) ≡ false = ground arith in rw e refl

-- A pool with another head, whose list may gain the block that is written and no other.
module _ (s : Slab) (free : ℕ → List ℕ) (v : IsValid s free) (i : ℕ) (inside : i < 4) (xs : List ℕ)
    (head : Option ℕ) (block : ℕ) (word : Option ℕ) where
  s' : Slab
  s' = with_head s i head block word

  here : pool_at s' i ≡ record (pool_at s i) { free_list = head }
  unfolding s'
  here = get_or-set_self s.pools i _ no_pool (omega (arith, v.four))

  there : (j : ℕ) → i ≢ j → pool_at s' j ≡ pool_at s j
  unfolding s'
  there j n = get_or-set_ne s.pools i j _ no_pool n

  with_head-IsValid :
      ((j : ℕ) → j < 4 → i ≢ j → ¬ In block (free j))
      → Linked (store s.links block word) head xs
      → Distinct xs
      → ((a : ℕ) → In a xs → In a (free i) ⊎ (a ≡ block))
      → IsValid (with_head s i head block word) (update i xs free)
  unfolding s'
  with_head-IsValid others l d only = record {
    four = length-set s.pools i _ ∙ v.four;
    linked = λ j h. elim (ℕ_discrete i j) [
      | yes e ↦ rw (← e, here, update_self i xs free) l
      | no n ↦
          rw (there j n, update_ne i j xs free n)
            (Linked-store s.links block word (pool_at s j).free_list (free j) (others j h n)
              (v.linked j h))
    ];
    distinct = λ j h. elim (ℕ_discrete i j) [
      | yes e ↦ rw (← e, update_self i xs free) d
      | no n ↦ rw (update_ne i j xs free n) (v.distinct j h)
    ];
    apart = λ j k a h g p q. elim (ℕ_discrete i j) [
      | yes e ↦ elim (ℕ_discrete i k) [
        | yes f ↦ sym e ∙ f
        | no n ↦
            sym e
            ∙ crossed k a g (rw (← e, update_self i xs free) at p)
                (rw (update_ne i k xs free n) at q) n
      ]
      | no n ↦ elim (ℕ_discrete i k) [
        | yes f ↦
            sym (
              crossed j a h (rw (← f, update_self i xs free) at q)
                (rw (update_ne i j xs free n) at p) n)
            ∙ f
        | no m ↦
            v.apart j k a h g (rw (update_ne i j xs free n) at p)
              (rw (update_ne i k xs free m) at q)
      ]
    ];
  }
    where
      crossed : (k a : ℕ) → k < 4 → In a xs → In a (free k) → i ≢ k → i ≡ k
      crossed k a g p q n = elim (only a p) [
        | inl z ↦ v.apart i k a inside g z q
        | inr e ↦ absurd (others k g n (rw e at q))
      ]

-- What `zedis_slab_alloc` does for a size of pool `i`.
pub data Popped (s : Slab) (free : ℕ → List ℕ) (i : ℕ) (r : Option ℕ × Slab) : Type 0 where
  empty_pool : free i ≡ [] → r ≡ (none, s) → Popped s free i r
  popped :
      (block : ℕ) (xs : List ℕ) (t : Slab)
      → free i ≡ block ∷ xs
      → r ≡ (some (block + 8), t)
      → IsValid t (update i xs free)
      → Popped s free i r

-- On a valid slab, for a size up to 4096, `zedis_slab_alloc` returns the data of the first free block of the
-- pool for that size, which leaves the pool's free list and is in no other, or NULL when none is free, and
-- then nothing changes; the other pools keep their lists and the slab stays valid.
pub slab_alloc-Popped :
    {s : Slab} {free : ℕ → List ℕ} (size i : ℕ)
    → IsValid s free
    → pool_for_size size ≡ some i
    → Popped s free i (slab_alloc s size)
unfolding slab_alloc
slab_alloc-Popped {s} {free} size i v e = rw e (pops (free i) refl)
  where
    inside : i < 4
    inside = pool_for_size-bound size i e

    pops : (xs : List ℕ) → free i ≡ xs → Popped s free i (take_block s i (pool_at s i).free_list)
    pops [] f =
        let h : (pool_at s i).free_list ≡ none = rw f at (v.linked i inside) in
        rw h (empty_pool f refl)
    pops (x ∷ xs) f =
        let l = rw f at (v.linked i inside) in
        let d = rw f at (v.distinct i inside) in
        rw l.0 (
          popped x xs _ f refl (
            with_head-IsValid s free v i inside xs (s.links x) x none
              (λ j h n p. n (v.apart i j x inside h (rw f (inl refl)) p))
              (Linked-store s.links x none (s.links x) xs d.0 l.1) d.1 (λ a p. inl (rw f (inr p)))))

-- On a valid slab `zedis_slab_free` of the data of a block that no free list holds, with a size of pool `i`,
-- puts the block in front of that pool's free list; the other pools keep theirs and the slab stays valid.
pub slab_free-pushes :
    {s : Slab} {free : ℕ → List ℕ} (block size i : ℕ)
    → IsValid s free
    → pool_for_size size ≡ some i
    → ((j : ℕ) → j < 4 → ¬ In block (free j))
    → IsValid (slab_free s (block + 8) size) (update i (block ∷ free i) free)
unfolding slab_free
slab_free-pushes {s} {free} block size i v e out =
    let b : block + 8 - 8 ≡ block = omega arith in
    let inside = pool_for_size-bound size i e in
    let own : store s.links block (pool_at s i).free_list block ≡ (pool_at s i).free_list =
      rw (==_refl block) refl in
    rw (b, e)
      (with_head-IsValid s free v i inside (block ∷ free i) (some block) block
        (pool_at s i).free_list (λ j h n. out j h)
        (
          refl,
          rw own (
              Linked-store s.links block (pool_at s i).free_list (pool_at s i).free_list (free i)
                (out i inside) (v.linked i inside)),
        )
        (out i inside, v.distinct i inside) (λ a p. elim p [ inl z ↦ inr z | inr z ↦ inl z ]))
