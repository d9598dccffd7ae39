-- ===== src/HashTable/Tests.antt =====
-- Runs of the hash table on concrete tables, and the theorems at concrete inputs.
use zedis.Base.{
  ℕ, zero, suc, sym, ◌∙◌, ◌%◌, ◌≡◌, ◌≢◌, ◌↔◌, refl, Option, none, some, List, [], ◌∷◌, arith, true,
  if◌then◌else◌,
}
use zedis.Base.Status.{Status, ok, failed}
use zedis.HashTable.{
  occupied, tombstone, Entry, Table, ht_hash, set_key, get, del, fresh, set_loop, advance,
  entry_key_match, search, probe, fetch, Fetched, empty_entry, entry_at, is_occupied,
}
use zedis.HashTable.Total.{IsValid, admits, set_key-total}
use zedis.HashTable.Search.{get-total}
use zedis.HashTable.Delete.{Deleted, del-Deleted}
use zedis.HashTable.Invariant.{Ordered}
use zedis.HashTable.Insert.{Stores}
use zedis.HashTable.Refine.{answer, get_refines, Stored, set_key_refines}
use zedis.HashTable.Dictionary.{set_all, put_all, no_pairs, set_all_refines, Pair}
use zedis.HashTable.Tombstone.{tombstone_hides}

abbrev key_a : List ℕ
key_a = 0 ∷ []

abbrev key_b : List ℕ
key_b = 8 ∷ []

abbrev key_c : List ℕ
key_c = 16 ∷ []

abbrev value : List ℕ
value = 120 ∷ 121 ∷ []

abbrev three_pairs : List Pair
three_pairs = (key_a, value) ∷ (key_b, value) ∷ (key_c, value) ∷ []

abbrev after : Option Table → (Table → Option (Option Fetched)) → Option (Option Fetched)
after none f = none
after (some t) f = f t

abbrev after_del :
    Option (Status × Table) → (Table → Option (Option Fetched)) → Option (Option Fetched)
after_del none f = none
after_del (some (s, t)) f = f t

-- Three keys with one home among eight slots: each is found, also the third, until the second is deleted.
found :
    after (set_all three_pairs (fresh 8)) (λ t. get t key_c 4096) ≡ some (some (fetch 4096 value))
unfolding set_all set_key set_loop advance entry_key_match ht_hash get search probe
found = refl

lost :
    after (set_all three_pairs (fresh 8)) (λ t. after_del (del t key_b) (λ u. get u key_c 4096))
    ≡ some none
unfolding set_all set_key set_loop advance entry_key_match ht_hash get search probe del
lost = refl

-- A table of two slots that holds one key in its home slot.
abbrev stored_a : Entry
stored_a = record { state = occupied; psl = 0; hash = ht_hash key_a; key = key_a; value = value }

abbrev one_key : Table
one_key = record { entries = empty_entry ∷ stored_a ∷ []; capacity = 2; count = 1 }

one_key-IsValid : IsValid one_key
one_key-IsValid = record {
  storage = refl;
  some_room = omega arith;
  word = omega arith;
  counted = refl;
  buried = buried;
}
  where
    buried :
        (i : ℕ)
        → (entry_at one_key.entries i).state ≡ tombstone
        → (entry_at one_key.entries i).psl ≡ 0
    buried zero h = refl
    buried (suc zero) h = refl
    buried (suc (suc i)) h = refl

only_one : (i : ℕ) → is_occupied (entry_at one_key.entries i) ≡ true → i ≡ 1
only_one zero h = cc
only_one (suc zero) h = refl
only_one (suc (suc i)) h = cc

alive_there : (i : ℕ) → (entry_at one_key.entries i).state ≢ tombstone
alive_there zero = λ h. cc
alive_there (suc zero) = λ h. cc
alive_there (suc (suc i)) = λ h. cc

home_a : ht_hash key_a % 2 ≡ 1
unfolding ht_hash
home_a = refl

one_key-Ordered : Ordered 2 one_key.entries
unfolding ht_hash
one_key-Ordered = record {
  hashed = λ i h o. rw (only_one i o) refl;
  reach = λ i h o. rw (only_one i o) (record {
    lands = home_a;
    taken = λ q k. absurd (omega arith);
    poorer = λ q k. absurd (omega arith);
  });
  unique = λ i j h g o p e. only_one i o ∙ sym (only_one j p);
  alive = alive_there;
}

set_key-total_example :
    (t' : Table) × (set_key one_key key_b value
      ≡ some (if admits one_key key_b value then (ok, t') else (failed, one_key)))
    × IsValid t'
    × (t'.capacity ≡ one_key.capacity)
set_key-total_example = set_key-total {t = one_key} key_b value one_key-IsValid

get-total_example : (r : Option Fetched) × (get one_key key_b 4096 ≡ some r)
get-total_example = get-total {t = one_key} key_b 4096 one_key-IsValid (omega arith)

del-Deleted_example : Deleted one_key key_a (del one_key key_a)
del-Deleted_example = del-Deleted {t = one_key} key_a one_key-IsValid one_key-Ordered (omega arith)

get_refines_example :
    (r : Option (List ℕ)) × (get one_key key_a 4096 ≡ some (answer 4096 r))
    × ((v : List ℕ) → (r ≡ some v) ↔ Stores one_key.capacity one_key.entries key_a v)
get_refines_example =
    get_refines {t = one_key} key_a 4096 one_key-IsValid one_key-Ordered (omega arith)

set_key_refines_example : (t' : Table) × Stored one_key key_b value t'
set_key_refines_example =
    set_key_refines {t = one_key} key_b value one_key-IsValid one_key-Ordered refl

set_all_refines_example :
    (t' : Table) × (set_all three_pairs (fresh 8) ≡ some t')
    × (get t' key_c 4096 ≡ some (answer 4096 (put_all three_pairs no_pairs key_c)))
set_all_refines_example =
    set_all_refines 8 three_pairs key_c 4096 (omega arith)
      (omega arith, omega arith, (omega arith, omega arith, (omega arith, omega arith, tt)))
      (omega arith)

-- After the second of three keys with one home was deleted, the third still stands in the slot behind it.
abbrev stored_c : Entry
stored_c = record stored_a { psl = 2; hash = ht_hash key_c; key = key_c }

abbrev holed : Table
holed = record {
  entries =
      record stored_a { state = tombstone; key = key_b } ∷ stored_c ∷ empty_entry ∷ stored_a ∷ [];
  capacity = 4;
  count = 2;
}

tombstone_hides_example : get holed key_c 4096 ≡ some none
unfolding ht_hash
tombstone_hides_example = tombstone_hides holed key_c 4096 (omega arith) refl (λ h. cc) refl refl
