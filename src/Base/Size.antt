-- ===== src/Base/Size.antt =====
-- `size_t` and `uint64_t` arithmetic: wrap-around at 2 ^ 64.
use zedis.Base.{ℕ, ◌+◌, ◌-◌, ◌*◌, ◌%◌, ◌^◌}

abbrev pub size_mod : ℕ
size_mod = 2 ^ 64

abbrev pub add_size : ℕ → ℕ → ℕ
add_size a b = (a + b) % size_mod

abbrev pub sub_size : ℕ → ℕ → ℕ
sub_size a b = (a + size_mod - b) % size_mod

abbrev pub mul_size : ℕ → ℕ → ℕ
mul_size a b = (a * b) % size_mod

-- ~x
abbrev pub not_size : ℕ → ℕ
not_size x = size_mod - 1 - x
