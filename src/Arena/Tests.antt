-- ===== src/Arena/Tests.antt =====
-- Instances of the theorems on src/arena.c, and runs of its functions.
use zedis.Base.{ℕ, ◌+◌, ◌-◌, ◌^◌, ◌≡◌, refl, false, some, none, List, [], ◌∷◌, arith}
use zedis.Arena.{Arena, align_up, start, alloc, init, serve}
use zedis.Arena.Bounds.{Served, alloc-Served, Packed, Sane, serve-Packed, alloc_wraps}

abbrev small : Arena
small = record { base = 0x10000; size = 4096; offset = 100; used_hugepages = false }

abbrev in_use : Arena
in_use = record { base = 0x10000; size = 4096; offset = 128; used_hugepages = false }

abbrev requests : List (ℕ × ℕ)
requests = (24, 64) ∷ (100, 8) ∷ (5000, 64) ∷ []

init_rounds :
    init 1 none (some 0x10000)
    ≡ some (record { base = 0x10000; size = 2 ^ 21; offset = 0; used_hugepages = false })
unfolding init align_up
init_rounds = refl

serve_runs : serve small requests ≡ (0x10080, 24) ∷ (0x10098, 100) ∷ []
unfolding serve alloc start align_up
serve_runs = refl

alloc-Served_example : Served small 24 6 (alloc small 24 (2 ^ 6))
alloc-Served_example = alloc-Served small 24 6 (omega arith) (omega arith) (omega arith)

requests-Sane : Sane requests
requests-Sane = (
  omega arith,
  (6, refl, omega arith),
  (omega arith, (3, refl, omega arith), (omega arith, (6, refl, omega arith), tt)),
)

serve-Packed_example : Packed (0x10000 + 100) (0x10000 + 4096) (serve small requests)
serve-Packed_example = serve-Packed requests small (omega arith) (omega arith) requests-Sane

alloc_wraps_example :
    let (p, a') = alloc in_use (2 ^ 64 - 128) 64 in
    (p ≡ some (0x10000 + 128)) × ((alloc a' 24 64).0 ≡ some 0x10000)
alloc_wraps_example =
    alloc_wraps in_use 24 (omega arith) (omega arith) (omega arith) (omega arith) (omega arith)
      (omega arith)
