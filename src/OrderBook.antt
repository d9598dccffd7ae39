-- ===== src/OrderBook.antt =====
-- src/order_book.c, include/order_book.h: a table of price levels, each with its bid and ask quantity.
-- Prices are `int`, quantities `int64_t`; an addition that leaves its type is undefined behaviour.
pub mod Levels
mod Tests
use zedis.Base.{
  ℕ, suc, ◌+◌, ◌-◌, ◌≤◌, Bool, Option, none, some, List, length, ltb, leb, ◌||◌, if◌then◌else◌,
  get_or, set, replicate, [],
}
use zedis.Base.Int.{ℤ, pos, negsuc, pos_part, ◌+ℤ◌, ◌-ℤ◌, ltb_ℤ}
use zedis.Base.Run.{Run, done, undefined, ◌>>=◌, int64, int32}
use zedis.Base.Status.{Status, ok, failed}
use zedis.Arena.{Arena, calloc}

-- `price_level_t`
pub record Level : Type 0 where
  pub bid_qty : ℤ
  pub ask_qty : ℤ

-- `zedis_order_book_t`
pub record Book : Type 0 where
  pub levels : List Level
  pub price_min : ℤ
  pub price_max : ℤ
  pub num_levels : ℕ

abbrev pub zero_level : Level
zero_level = record { bid_qty = pos 0; ask_qty = pos 0 }

-- -1 for a price outside the book
unfoldable pub price_to_index : Book → ℤ → Run ℤ
price_to_index b price =
    if ltb_ℤ price b.price_min || ltb_ℤ b.price_max price
    then done (negsuc 0)
    else int32 (price -ℤ b.price_min)

abbrev pub fresh : ℤ → ℤ → ℕ → Book
fresh price_min price_max num = record {
  levels = replicate num zero_level;
  price_min = price_min;
  price_max = price_max;
  num_levels = num;
}

-- sizeof(price_level_t) is 16.
unfoldable pub init : Arena → ℤ → ℤ → Run (Option Book × Arena)
init arena price_min price_max = if ltb_ℤ price_max price_min then done (none, arena) else do
  span ← int32 (price_max -ℤ price_min)
  num ← int32 (span +ℤ pos 1)
  let (mem, arena') = calloc arena (pos_part num) 16 64
  done (elim mem [
    | none ↦ (none, arena')
    | some _ ↦ (some (fresh price_min price_max (pos_part num)), arena')
  ])

-- A quantity that fell below zero is set to zero.
abbrev pub clamp : ℤ → ℤ
clamp q = if ltb_ℤ q (pos 0) then pos 0 else q

-- The two updates at an index into the table.
unfoldable pub bid_at : Book → ℕ → ℤ → Run (Status × Book)
bid_at b i qty = do
  let l = get_or b.levels i zero_level
  q ← int64 (l.bid_qty +ℤ qty)
  done (ok, record b { levels = set b.levels i (record l { bid_qty = clamp q }) })

unfoldable pub ask_at : Book → ℕ → ℤ → Run (Status × Book)
ask_at b i qty = do
  let l = get_or b.levels i zero_level
  q ← int64 (l.ask_qty +ℤ qty)
  done (ok, record b { levels = set b.levels i (record l { ask_qty = clamp q }) })

unfoldable pub bid : Book → ℤ → ℤ → Run (Status × Book)
bid b price qty = do
  idx ← price_to_index b price
  if ltb_ℤ idx (pos 0) then done (failed, b) else bid_at b (pos_part idx) qty

unfoldable pub ask : Book → ℤ → ℤ → Run (Status × Book)
ask b price qty = do
  idx ← price_to_index b price
  if ltb_ℤ idx (pos 0) then done (failed, b) else ask_at b (pos_part idx) qty

-- The level written to `*bid_out` and `*ask_out`, or `none` for -1.
unfoldable pub level : Book → ℤ → Run (Option Level)
level b price = do
  idx ← price_to_index b price
  done (if ltb_ℤ idx (pos 0) then none else some (get_or b.levels (pos_part idx) zero_level))

-- `zedis_book_destroy`: the structure is zeroed.
abbrev pub destroy : Book → Book
destroy b = record { levels = []; price_min = pos 0; price_max = pos 0; num_levels = 0 }
