-- ===== src/OrderBook/Tests.antt =====
-- Instances of the theorems on src/order_book.c.
use zedis.Base.{◌^◌, ◌≡◌, refl, some, none, false, if◌then◌else◌, arith, ◌&&◌}
use zedis.Base.Int.{ℤ, pos, negsuc, ◌==ℤ◌, leb_ℤ}
use zedis.Base.Run.{done, ◌>>=◌}
use zedis.Base.Status.{ok}
use zedis.Arena.{Arena, calloc, alloc, start, align_up}
use zedis.OrderBook.{Book, fresh, zero_level, init, price_to_index, level, bid, ask, bid_at}
use zedis.OrderBook.Levels.{IsValid, bid-level, ask-level, book_init-IsValid}

abbrev book : Book
book = fresh (negsuc 1) (pos 2) 5

book-IsValid : IsValid book
book-IsValid = record { wide = omega arith; ordered = omega arith; table = refl; counted = refl }

level_here : level book (pos 1) ≡ done (some zero_level)
unfolding level price_to_index
level_here = refl

-- A bid of 5 and a bid of -7 leave no quantity.
two_bids :
    (bid book (pos 1) (pos 5) >>= λ r. bid r.1 (pos 1) (negsuc 6) >>= λ s. level s.1 (pos 1))
    ≡ done (some zero_level)
unfolding bid bid_at level price_to_index
two_bids = refl

bid-level_example :
    (b' : Book) × (bid book (pos 1) (pos 5) ≡ done (ok, b'))
    × IsValid b'
    × ((p : ℤ)
        → level b' p ≡ (
            if p ==ℤ pos 1
            then done (some (record { bid_qty = pos 5; ask_qty = pos 0 }))
            else level book p))
bid-level_example = bid-level {l = zero_level} (pos 1) (pos 5) book-IsValid level_here

ask-level_example :
    (b' : Book) × (ask book (pos 1) (pos 5) ≡ done (ok, b'))
    × IsValid b'
    × ((p : ℤ)
        → level b' p ≡ (
            if p ==ℤ pos 1
            then done (some (record { bid_qty = pos 0; ask_qty = pos 5 }))
            else level book p))
ask-level_example = ask-level {l = zero_level} (pos 1) (pos 5) book-IsValid level_here

abbrev arena : Arena
arena = record { base = 0x10000; size = 2 ^ 21; offset = 0; used_hugepages = false }

book_init-IsValid_example :
    IsValid book
    × ((p : ℤ)
        → level book p
          ≡ done (if leb_ℤ (negsuc 1) p && leb_ℤ p (pos 2) then some zero_level else none))
unfolding init calloc alloc start align_up
book_init-IsValid_example =
    book_init-IsValid arena (record arena { offset = 80 }) (negsuc 1) (pos 2) {b = book}
      (omega arith) (omega arith) refl
