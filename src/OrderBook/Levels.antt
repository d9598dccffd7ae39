-- ===== src/OrderBook/Levels.antt =====
-- The order book as a map from prices to quantities.
use zedis.Base.{
  ℕ, ◌+◌, ◌-◌, ◌^◌, ◌<◌, ◌≡◌, sym, ◌∙◌, Bool, true, false, none, some, length, length-set,
  length-replicate, get_or, set, get_or-set_self, get_or-set_ne, get_or-replicate, if◌then◌else◌,
  ◌&&◌, arith, Bool-cases, inl, inr,
}
use zedis.Base.Int.{
  ℤ, pos, negsuc, pos_part, ◌+ℤ◌, ◌-ℤ◌, ◌≤ℤ◌, ◌==ℤ◌, sub_ne, ==ℤ-eq, ltb_ℤ, leb_ℤ, fits64,
}
use zedis.Base.Run.{done, undefined}
use zedis.Base.Status.{ok}
use zedis.Arena.{Arena}
use zedis.OrderBook.{
  Level, Book, zero_level, price_to_index, fresh, init, clamp, bid_at, ask_at, bid, ask, level,
}

-- The bounds are `int`s, the table has a level for each price, and their number is an `int`.
pub record IsValid (b : Book) : Type 0 where
  pub wide : pos_part (b.price_max -ℤ b.price_min) < 2 ^ 31 - 1
  pub ordered : b.price_min ≤ℤ b.price_max
  pub table : length b.levels ≡ pos_part (b.price_max -ℤ b.price_min) + 1
  pub counted : b.num_levels ≡ length b.levels

-- The price lies in the book.
abbrev pub covers : Book → ℤ → Bool
covers b price = leb_ℤ b.price_min price && leb_ℤ price b.price_max

-- The row of the table for a price.
abbrev row : Book → ℤ → ℕ
row b price = pos_part (price -ℤ b.price_min)

price_to_index-inside :
    {b : Book} (price : ℤ)
    → IsValid b
    → covers b price ≡ true
    → (price_to_index b price ≡ done (pos (row b price))) × (row b price < length b.levels)
unfolding price_to_index
price_to_index-inside {b} price v h = (ground arith, ground arith)

price_to_index-outside :
    (b : Book) (price : ℤ) → covers b price ≡ false → price_to_index b price ≡ done (negsuc 0)
unfolding price_to_index
price_to_index-outside b price h = ground arith

not_negative : (n : ℕ) → ltb_ℤ (pos n) (pos 0) ≡ false
not_negative n = ground arith

-- What `zedis_book_level` reports, on every price.
level_eq :
    {b : Book} (price : ℤ)
    → IsValid b
    → level b price
      ≡ done (if covers b price then some (get_or b.levels (row b price) zero_level) else none)
unfolding level
level_eq {b} price v = elim (Bool-cases (covers b price)) [
  | inl c ↦ rw (c, (price_to_index-inside price v c).0, not_negative)
  | inr c ↦ rw (c, price_to_index-outside b price c)
]

-- The level that `zedis_book_level` reports stands in the row of its price.
level-inv :
    {b : Book} {l : Level} (price : ℤ)
    → IsValid b
    → level b price ≡ done (some l)
    → (covers b price ≡ true) × (get_or b.levels (row b price) zero_level ≡ l)
level-inv {b} {l} price v h = elim (Bool-cases (covers b price)) [
  | inl c ↦ (c, let e = level_eq price v in cc)
  | inr c ↦ let e = level_eq price v in cc
]

abbrev with_row : Book → ℤ → Level → Book
with_row b price x = record b { levels = set b.levels (row b price) x }

module _ {b : Book} (price : ℤ) (x : Level) (v : IsValid b) (c : covers b price ≡ true) where
  with_row-IsValid : IsValid (with_row b price x)
  with_row-IsValid = record {
    wide = v.wide;
    ordered = v.ordered;
    table = length-set b.levels _ x ∙ v.table;
    counted = v.counted ∙ sym (length-set b.levels _ x);
  }

  row-set :
      (p : ℤ)
      → covers b p ≡ true
      → get_or (set b.levels (row b price) x) (row b p) zero_level
        ≡ (if p ==ℤ price then x else get_or b.levels (row b p) zero_level)
  row-set p d = elim (Bool-cases (p ==ℤ price)) [
    | inl same ↦
        rw (same, ==ℤ-eq p price same)
          (get_or-set_self b.levels (row b price) x zero_level (price_to_index-inside price v c).1)
    | inr other ↦ rw other (
        get_or-set_ne b.levels (row b price) (row b p) x zero_level
          (sub_ne p price b.price_min (ground arith) (ground arith) other))
  ]

  -- One row written changes what is reported for its price, and for no other.
  level-with_row :
      (p : ℤ) → level (with_row b price x) p ≡ (if p ==ℤ price then done (some x) else level b p)
  level-with_row p =
      rw (level_eq p with_row-IsValid, level_eq p v)
        (elim (Bool-cases (covers b p)) [
          | inl d ↦ rw (d, row-set p d) (ground arith)
          | inr d ↦ rw d (ground (arith, ==ℤ-eq p price))
        ])

-- A bid on a valid book, at a price whose level is `l`: where the sum of the quantities is in the range of
-- `int64_t`, the call succeeds with a valid book, in which the bid quantity of the price is the sum but
-- no less than zero, its ask quantity is the old one, and the level of every other price is the old one.
-- Where the sum is out of the range, the call's behaviour is undefined.
pub bid-level :
    {b : Book} {l : Level} (price qty : ℤ)
    → IsValid b
    → level b price ≡ done (some l)
    → (b' : Book) × (bid b price qty
        ≡ (if fits64 (l.bid_qty +ℤ qty) then done (ok, b') else undefined))
      × IsValid b'
      × ((p : ℤ)
          → level b' p ≡ (
              if p ==ℤ price
              then done (some (record l { bid_qty = clamp (l.bid_qty +ℤ qty) }))
              else level b p))
unfolding bid bid_at
bid-level {b} {l} price qty v h =
    let (c, e) = level-inv price v h in
    (
      with_row b price _,
      rw ((price_to_index-inside price v c).0, not_negative, e)
          (elim (Bool-cases (fits64 (l.bid_qty +ℤ qty))) [ inl f ↦ rw f | inr f ↦ rw f ]),
      with_row-IsValid price _ v c,
      level-with_row price _ v c,
    )

-- An ask on a valid book, at a price whose level is `l`: where the sum of the quantities is in the range of
-- `int64_t`, the call succeeds with a valid book, in which the ask quantity of the price is the sum but
-- no less than zero, its bid quantity is the old one, and the level of every other price is the old one.
-- Where the sum is out of the range, the call's behaviour is undefined.
pub ask-level :
    {b : Book} {l : Level} (price qty : ℤ)
    → IsValid b
    → level b price ≡ done (some l)
    → (b' : Book) × (ask b price qty
        ≡ (if fits64 (l.ask_qty +ℤ qty) then done (ok, b') else undefined))
      × IsValid b'
      × ((p : ℤ)
          → level b' p ≡ (
              if p ==ℤ price
              then done (some (record l { ask_qty = clamp (l.ask_qty +ℤ qty) }))
              else level b p))
unfolding ask ask_at
ask-level {b} {l} price qty v h =
    let (c, e) = level-inv price v h in
    (
      with_row b price _,
      rw ((price_to_index-inside price v c).0, not_negative, e)
          (elim (Bool-cases (fits64 (l.ask_qty +ℤ qty))) [ inl f ↦ rw f | inr f ↦ rw f ]),
      with_row-IsValid price _ v c,
      level-with_row price _ v c,
    )

-- `zedis_book_init` with `int` bounds in order whose distance is under 2 ^ 31 - 1: a book that it builds is
-- valid, covers exactly the prices between the bounds, and has both quantities zero at each of them.
pub book_init-IsValid :
    (arena arena' : Arena) (lo hi : ℤ) {b : Book}
    → lo ≤ℤ hi
    → pos_part (hi -ℤ lo) < 2 ^ 31 - 1
    → init arena lo hi ≡ done (some b, arena')
    → IsValid b
      × ((p : ℤ) → level b p ≡ done (if leb_ℤ lo p && leb_ℤ p hi then some zero_level else none))
unfolding init
book_init-IsValid arena arena' lo hi {b} h small e =
    rw shape (valid, λ p. rw (level_eq p valid, get_or-replicate))
  where
    n : ℕ
    n = pos_part (hi -ℤ lo) + 1

    valid : IsValid (fresh lo hi n)
    valid = record {
      wide = small;
      ordered = h;
      table = length-replicate n zero_level;
      counted = sym (length-replicate n zero_level);
    }

    shape : b ≡ fresh lo hi n
    shape = ground arith
