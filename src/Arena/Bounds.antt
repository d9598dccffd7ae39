-- ===== src/Arena/Bounds.antt =====
-- The blocks that src/arena.c hands out: their alignment and bounds.
use native.Mathlib.Decide.{dec_lt}
use native.Mathlib.Nat.{
  pow-le-pow_right, mod-eq_of_lt, add_assoc, mul-mod_left, div-add-mod', mod-lt,
}
use zedis.Base.{
  ℕ, ◌+◌, ◌-◌, ◌*◌, ◌/◌, ◌%◌, ◌^◌, ◌≤◌, ◌<◌, ◌≡◌, refl, Option, none, some, List, [], ◌∷◌, ◌⊎◌, inl,
  inr, arith, Bool-cases, ltb, ltb→lt, ltb→le, ◌==◌, ap, ◌∙◌,
}
use zedis.Base.Bits.{bit_and_high, pow_pos, pow-add, pred-mul}
use zedis.Base.Size.{add_size, sub_size, not_size}
use zedis.Arena.{Arena, align_up, start, alloc, serve}

-- The rounding that the mask computes, for an alignment `2 ^ k`.
align_up-eq :
    (k m v : ℕ)
    → 2 ^ 64 ≡ 2 ^ m * 2 ^ k
    → v + 2 ^ k ≤ 2 ^ 64
    → align_up v (2 ^ k) ≡ (v + 2 ^ k - 1) / 2 ^ k * 2 ^ k
unfolding align_up
align_up-eq k m v e h =
    rw (value, mask) (bit_and_high k m (v + 2 ^ k - 1) (omega (arith, e, pow_pos k)))
  where
    value : sub_size (add_size v (2 ^ k)) 1 ≡ v + 2 ^ k - 1
    value = omega (arith, pow_pos k)

    mask : not_size (sub_size (2 ^ k) 1) ≡ (2 ^ m - 1) * 2 ^ k
    mask = omega (arith, pow_pos k, e, pred-mul (2 ^ m) (2 ^ k) (pow_pos m))

-- Rounding up to an alignment `2 ^ k` gives the least multiple of it that is no smaller, as long as
-- the value and the alignment fit the word together.
pub align_up_lem :
    (k v : ℕ)
    → k < 64
    → v + 2 ^ k ≤ 2 ^ 64
    → (align_up v (2 ^ k) % 2 ^ k ≡ 0) × (v ≤ align_up v (2 ^ k)) × (align_up v (2 ^ k) < v + 2 ^ k)
align_up_lem k v small h = rw (align_up-eq k (64 - k) v split h) (
  mul-mod_left ((v + 2 ^ k - 1) / 2 ^ k) (2 ^ k),
  omega (arith, div-add-mod' (v + 2 ^ k - 1) (2 ^ k), mod-lt (v + 2 ^ k - 1) (pow_pos k)),
  omega (arith, div-add-mod' (v + 2 ^ k - 1) (2 ^ k), mod-lt (v + 2 ^ k - 1) (pow_pos k)),
)
  where
    split : 2 ^ 64 ≡ 2 ^ (64 - k) * 2 ^ k
    split = rw (← pow-add (64 - k) k) (let e : 64 - k + k ≡ 64 = omega arith in rw e)

-- What a call of the allocator may do: nothing, or hand out the next aligned block and move past it.
pub data Served (a : Arena) (size k : ℕ) (r : Option ℕ × Arena) : Type 0 where
  refused :
      r ≡ (none, a) → (size ≡ 0) ⊎ (a.size < align_up a.offset (2 ^ k) + size) → Served a size k r
  placed :
      (off : ℕ)
      → r ≡ (some (a.base + off), record a { offset = off + size })
      → off % 2 ^ k ≡ 0
      → a.offset ≤ off
      → off < a.offset + 2 ^ k
      → 0 < size
      → off + size ≤ a.size
      → Served a size k r

start_pow : (a : Arena) (k : ℕ) → start a (2 ^ k) ≡ align_up a.offset (2 ^ k)
unfolding start
start_pow a k = ground (arith, pow_pos k)

-- `zedis_arena_alloc` at an alignment `2 ^ k`, where arena, alignment and request fit the word
-- together: it refuses, changing nothing, exactly an empty request or one for which no aligned room
-- is left; otherwise the block is aligned, starts less than one alignment past the last block, ends
-- inside the arena, and the arena goes on at its end.
pub alloc-Served :
    (a : Arena) (size k : ℕ)
    → k < 64
    → a.offset ≤ a.size
    → a.size + 2 ^ k + size ≤ 2 ^ 64
    → Served a size k (alloc a size (2 ^ k))
unfolding alloc
alloc-Served a size k hk ho hw = elim (Bool-cases (size == 0)) [
  | inl z ↦ refused (rw z) (inl (ground arith))
  | inr p ↦ elim (Bool-cases (ltb a.size (add_size (start a (2 ^ k)) size))) [
    | inl full ↦
        refused (rw (p, full))
          (inr (rw exact at (ltb→lt a.size (add_size (start a (2 ^ k)) size) full)))
    | inr room ↦
        placed (align_up a.offset (2 ^ k)) (rw (p, room, exact, start_pow a k)) up.0 up.1 up.2
          (ground arith) (rw exact at (ltb→le a.size (add_size (start a (2 ^ k)) size) room))
  ]
]
  where
    up :
        (align_up a.offset (2 ^ k) % 2 ^ k ≡ 0)
        × (a.offset ≤ align_up a.offset (2 ^ k))
        × (align_up a.offset (2 ^ k) < a.offset + 2 ^ k)
    up = align_up_lem k a.offset hk (omega arith)

    exact : add_size (start a (2 ^ k)) size ≡ align_up a.offset (2 ^ k) + size
    exact = rw (start_pow a k) (mod-eq_of_lt (omega (arith, up)))

-- Blocks from `lo` up to `hi`, in ascending order and without overlap.
abbrev pub Packed : ℕ → ℕ → List (ℕ × ℕ) → Type 0
Packed lo hi [] = lo ≤ hi
Packed lo hi ((p, n) ∷ bs) = (lo ≤ p) × Packed (p + n) hi bs

-- A request of under 2 ^ 62 bytes, aligned to a power of two of at most 2 ^ 62.
abbrev pub Sane : List (ℕ × ℕ) → Type 0
Sane [] = Unit
Sane ((size, align) ∷ rest) =
    (size < 2 ^ 62) × ((k : ℕ) × (align ≡ 2 ^ k) × (align ≤ 2 ^ 62)) × Sane rest

k-lt : (k : ℕ) → 2 ^ k ≤ 2 ^ 62 → k < 64
k-lt k h = elim (dec_lt k 64) [
  | yes p ↦ p
  | no p ↦
      absurd (omega (arith, pow-le-pow_right {n = 2} (omega arith) {i = 64} {j = k} (omega arith)))
]

-- When a client asks an arena of at most 2 ^ 62 bytes for blocks of less than 2 ^ 62 bytes each, at
-- alignments that are powers of two up to 2 ^ 62, then the blocks it is given, however many it asks for,
-- stand one behind the other between the arena's offset and its end: no two overlap, and none leaves the
-- mapping.
pub serve-Packed :
    (rs : List (ℕ × ℕ)) (a : Arena)
    → a.offset ≤ a.size
    → a.size ≤ 2 ^ 62
    → Sane rs
    → Packed (a.base + a.offset) (a.base + a.size) (serve a rs)
unfolding serve
serve-Packed [] a ho hs sane = omega arith
serve-Packed ((size, align) ∷ rest) a ho hs (small, (k, e, le), sane) =
    elim (alloc-Served a size k (k-lt k (rw e at le)) ho (omega (arith, e))) [
      | refused same _ ↦ rw (e, same) (serve-Packed rest a ho hs sane)
      | placed off moved _ from _ _ within ↦
          let a' : Arena = record a { offset = off + size } in
          rw (e, moved)
            (omega arith, rw (add_assoc a.base off size) (serve-Packed rest a' within hs sane))
    ]

alloc_at :
    (a : Arena) (size st next : ℕ)
    → 0 < size
    → start a 64 ≡ st
    → add_size st size ≡ next
    → next ≤ a.size
    → alloc a size 64 ≡ (some (a.base + st), record a { offset = next })
unfolding alloc
alloc_at a size st next pos at_st at_next fits = rw (at_st, at_next) (ground arith)

zero_up : align_up 0 64 ≡ 0
unfolding align_up
zero_up = refl

-- A request of almost the whole word passes the test of `zedis_arena_alloc`: with `o` bytes in use (a
-- multiple of 64), one of 2 ^ 64 - `o` bytes is granted whatever the arena's size, and the block after
-- it starts again at the arena's base.
pub alloc_wraps :
    (a : Arena) (n : ℕ)
    → a.offset % 64 ≡ 0
    → 0 < a.offset
    → a.offset ≤ a.size
    → a.size < 2 ^ 62
    → 0 < n
    → n ≤ a.size
    → let (p, a') = alloc a (2 ^ 64 - a.offset) 64 in
      (p ≡ some (a.base + a.offset)) × ((alloc a' n 64).0 ≡ some a.base)
alloc_wraps a n h64 ho hs hb hn hna = rw (first) (refl, rw second (ap some (omega arith)))
  where
    open a use {base, size, offset}

    at_offset : align_up offset 64 ≡ offset
    at_offset = omega (arith, align_up_lem 6 offset (omega arith) (omega arith))

    first : alloc a (2 ^ 64 - offset) 64 ≡ (some (base + offset), record a { offset = 0 })
    first =
        alloc_at a (2 ^ 64 - offset) offset 0 (omega arith) (start_pow a 6 ∙ at_offset)
          (omega arith) (omega arith)

    second : alloc (record a { offset = 0 }) n 64 ≡ (some (base + 0), record a { offset = n })
    second =
        alloc_at (record a { offset = 0 }) n 0 n hn
          (start_pow (record a { offset = 0 }) 6 ∙ zero_up) (omega arith) hna
