-- ===== src/HashTable/Dictionary.antt =====
-- Runs of `zedis_ht_set` of src/hash_table.c, with no deletions, beside a dictionary.
use zedis.Base.{
  ℕ, zero, suc, ◌^◌, ◌+◌, ◌*◌, ◌≤◌, ◌<◌, ◌≡◌, ◌≢◌, refl, sym, ap, ◌∙◌, true, Option, none, some,
  List, [], ◌∷◌, if◌then◌else◌, length, arith, inl, inr, Bool-cases, Option-cases, ◌↔◌, replicate,
  lt→ltb,
}
use zedis.Base.Status.{Status, ok, failed}
use zedis.HashTable.{
  Entry, Table, Cursor, entry_at, advance, set_loop, set_key, start, ht_hash, get, max_key,
  max_value, fresh, empty_entry, same_bytes,
}
use zedis.HashTable.Walk.{same_bytes-eq, same_bytes_refl, tally}
use zedis.HashTable.Total.{IsValid, admits}
use zedis.HashTable.Invariant.{Occupied, Ordered}
use zedis.HashTable.Insert.{Stores}
use zedis.HashTable.Refine.{answer, get_refines, Stored, set_key_refines}

-- A dictionary of byte strings, and the dictionary with one more pair.
abbrev pub Dictionary : Type 0
Dictionary = List ℕ → Option (List ℕ)

unfoldable pub put : List ℕ → List ℕ → Dictionary → Dictionary
put key value m q = if same_bytes key q then some value else m q

abbrev pub Pair : Type 0
Pair = List ℕ × List ℕ

-- The last value of each key in a list of pairs.
unfoldable pub put_all : List Pair → Dictionary → Dictionary
put_all [] m = m
put_all ((key, value) ∷ pairs) m = put_all pairs (put key value m)

abbrev pub and_then : Option (Status × Table) → (Table → Option Table) → Option Table
and_then none f = none
and_then (some (ok, t)) f = f t
and_then (some (failed, t)) f = none

-- `zedis_ht_set` called on each pair in turn; -1 ends the run with nothing.
unfoldable pub set_all : List Pair → Table → Option Table
set_all [] t = some t
set_all ((key, value) ∷ pairs) t = and_then (set_key t key value) (λ u. set_all pairs u)

-- The keys and values that fit into the arrays of an entry.
abbrev pub AllFit : List Pair → Type 0
AllFit [] = Unit
AllFit ((key, value) ∷ pairs) = (length key ≤ max_key) × (length value ≤ max_value) × AllFit pairs

-- The table stores what the dictionary holds.
pub record Agrees (t : Table) (m : Dictionary) : Type 0 where
  pub shape : IsValid t
  pub ordered : Ordered t.capacity t.entries
  pub same : (q v : List ℕ) → Stores t.capacity t.entries q v ↔ (m q ≡ some v)

set_loop-count :
    (fuel : ℕ) (t : Table) (hash : ℕ) (key value : List ℕ) (c : Cursor) (t' : Table)
    → set_loop fuel t hash key value c ≡ some t'
    → t'.count ≤ t.count + 1
unfolding set_loop
set_loop-count zero t hash key value c t' h = cc
set_loop-count (suc fuel) t hash key value c t' h =
    ground (arith, set_loop-count fuel t hash key value (advance t.capacity c) t')

pub set_key-count :
    (t : Table) (key value : List ℕ) (t' : Table)
    → set_key t key value ≡ some (ok, t')
    → t'.count ≤ t.count + 1
unfolding set_key
set_key-count t key value t' h =
    elim (Option-cases (set_loop t.capacity t (ht_hash key) key value (start t key value))) [
      | inl e ↦ ground (arith, e)
      | inr (u, e) ↦
          ground
            (arith, e, set_loop-count t.capacity t (ht_hash key) key value (start t key value) u e)
    ]

-- A key that does not fit is refused.
pub set_key-long :
    (t : Table) (key value : List ℕ) → max_key < length key → set_key t key value ≡ some (failed, t)
unfolding set_key
set_key-long t key value h = rw (lt→ltb max_key (length key) h) refl

-- A table in order stores one value for a key.
one_value :
    {n' : ℕ} {es : List Entry} {q u v : List ℕ}
    → Ordered n' es
    → Stores n' es q u
    → Stores n' es q v
    → u ≡ v
one_value {es = es} o s r =
    let same = o.unique s.at r.at s.inside r.inside s.live r.live (s.key ∙ sym r.key) in
    sym s.value ∙ ap (λ i. (entry_at es i).value) same ∙ r.value

pub Stored-Agrees :
    {t : Table} {m : Dictionary} (key value : List ℕ) (t' : Table)
    → Agrees t m
    → Stored t key value t'
    → Agrees t' (put key value m)
unfolding put
Stored-Agrees {t} {m} key value t' a s = record {
  shape = s.shape;
  ordered = s.ordered;
  same = λ q v. elim (Bool-cases (same_bytes key q)) [
    | inl e ↦ rw e (own q v (same_bytes-eq key q e))
    | inr e ↦ rw e (
        other q v
          (λ k. let h : same_bytes key q ≡ true = rw k (same_bytes_refl q) in absurd (cc (h, e))))
  ];
}
  where
    own : (q v : List ℕ) → key ≡ q → Stores t'.capacity t'.entries q v ↔ (some value ≡ some v)
    own q v k =
        let here : Stores t'.capacity t'.entries q value = rw k at s.stored in
        ((λ x. ap some (one_value s.ordered here x)), λ z. let e : value ≡ v = cc in rw e at here)

    other : (q v : List ℕ) → key ≢ q → Stores t'.capacity t'.entries q v ↔ (m q ≡ some v)
    other q v n =
        let f = s.others q v (λ z. n (sym z)) in
        let g = a.same q v in ((λ x. g.0 (f.0 x)), λ z. f.1 (g.1 z))

set_all_next :
    (t t1 : Table) (key value : List ℕ) (pairs : List Pair)
    → set_key t key value ≡ some (ok, t1)
    → set_all ((key, value) ∷ pairs) t ≡ set_all pairs t1
unfolding set_all
set_all_next t t1 key value pairs e = ap (λ r. and_then r (λ u. set_all pairs u)) e

-- A run of calls keeps the table and the dictionary in step.
set_all-Agrees :
    {t : Table} {m : Dictionary} (pairs : List Pair)
    → Agrees t m
    → AllFit pairs
    → (t.count + length pairs) * 10 < t.capacity * 7
    → (t' : Table) × (set_all pairs t ≡ some t')
      × Agrees t' (put_all pairs m)
      × (t'.count < t'.capacity)
unfolding set_all put_all
set_all-Agrees {t} [] a fit room = (t, refl, a, omega arith)
set_all-Agrees {t} {m} ((key, value) ∷ pairs) a (fk, fv, fit) room =
    let go : admits t key value ≡ true = ground (arith, fk, fv) in
    let (t1, s) = set_key_refines {t = t} key value a.shape a.ordered go in
    let n = set_key-count t key value t1 s.returns in
    let (t', e, a', l) =
      set_all-Agrees {t = t1} pairs (Stored-Agrees key value t1 a s) fit
        (omega (arith, s.same_capacity)) in
    (t', set_all_next t t1 key value pairs s.returns ∙ e, a', l)

abbrev pub no_pairs : Dictionary
no_pairs q = none

fresh_at : (capacity i : ℕ) → entry_at (replicate capacity empty_entry) i ≡ empty_entry
fresh_at zero i = refl
fresh_at (suc capacity) zero = refl
fresh_at (suc capacity) (suc i) = fresh_at capacity i

fresh-size : (capacity : ℕ) → length (replicate capacity empty_entry) ≡ capacity
fresh-size zero = refl
fresh-size (suc capacity) = ap suc (fresh-size capacity)

fresh-tally : (capacity : ℕ) → tally (replicate capacity empty_entry) ≡ 0
fresh-tally zero = refl
fresh-tally (suc capacity) = omega (arith, fresh-tally capacity)

-- A new table is in order and holds nothing.
pub fresh-Agrees :
    (capacity : ℕ) → 0 < capacity → capacity < 2 ^ 32 → Agrees (fresh capacity) no_pairs
fresh-Agrees capacity pos word = record {
  shape = record {
    storage = fresh-size capacity;
    some_room = pos;
    word = word;
    counted = sym (fresh-tally capacity);
    buried = λ i. rw (fresh_at capacity i) (λ e. refl);
  };
  ordered = record {
    hashed = λ i h o. absurd (free i o);
    reach = λ i h o. absurd (free i o);
    unique = λ i j h g o p e. absurd (free i o);
    alive = λ i. rw (fresh_at capacity i) (λ e. cc);
  };
  same = λ q v. ((λ s. absurd (free s.at s.live)), λ e. let h : none ≡ some v = e in cc);
}
  where
    free : (i : ℕ) → ¬ Occupied (replicate capacity empty_entry) i
    free i o = let h = rw (fresh_at capacity i) at o in cc

-- A table with a free slot answers as the dictionary does.
pub get-Agrees :
    {t : Table} {m : Dictionary} (q : List ℕ) (value_cap : ℕ)
    → Agrees t m
    → t.count < t.capacity
    → get t q value_cap ≡ some (answer value_cap (m q))
get-Agrees {t} {m} q value_cap a l =
    let (r, g, h) = get_refines {t = t} q value_cap a.shape a.ordered l in
    g
    ∙ ap (λ x. some (answer value_cap x))
        (agree r (m q) (λ v x. (a.same q v).0 ((h v).0 x)) (λ v x. (h v).1 ((a.same q v).1 x)))
  where
    agree :
        (r o : Option (List ℕ))
        → ((v : List ℕ) → r ≡ some v → o ≡ some v)
        → ((v : List ℕ) → o ≡ some v → r ≡ some v)
        → r ≡ o
    agree (some v) o f g = sym (f v refl)
    agree none (some v) f g = g v refl
    agree none none f g = refl

-- Any sequence of `zedis_ht_set` calls on a new table of at most 2 ^ 32 - 1 slots, whose keys and values fit
-- and which is shorter than seven tenths of the capacity, succeeds; afterwards `zedis_ht_get` answers every
-- key as the dictionary does that holds the last value given for each key: with that value, cut to what
-- the buffer holds, or with -1 for a key that was not set.
pub set_all_refines :
    (capacity : ℕ) (pairs : List Pair) (q : List ℕ) (value_cap : ℕ)
    → capacity < 2 ^ 32
    → AllFit pairs
    → length pairs * 10 < capacity * 7
    → (t' : Table) × (set_all pairs (fresh capacity) ≡ some t')
      × (get t' q value_cap ≡ some (answer value_cap (put_all pairs no_pairs q)))
set_all_refines capacity pairs q value_cap word fit room =
    let (t', e, a, l) =
      set_all-Agrees {t = fresh capacity} pairs (fresh-Agrees capacity (omega arith) word) fit
        (omega arith) in
    (t', e, get-Agrees q value_cap a l)
