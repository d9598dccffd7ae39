-- ===== src/HashTable/Delete.antt =====
-- `zedis_ht_del` of src/hash_table.c on a table from which nothing was deleted before.
use zedis.Base.{
  ℕ, ◌+◌, ◌<◌, ◌≡◌, ◌≢◌, refl, sym, ap, ◌∙◌, true, false, Option, none, some, List, arith, ◌↔◌,
  length,
}
use zedis.Base.Status.{Status, ok, failed}
use zedis.HashTable.{Table, is_occupied, entry_at, search, bury, deleted, del, ht_hash}
use zedis.HashTable.Walk.{match-eq, entry_at-set_self, entry_at-set_ne}
use zedis.HashTable.Total.{IsValid}
use zedis.HashTable.Search.{Found, search-Found, bury-IsValid}
use zedis.HashTable.Invariant.{Ordered}
use zedis.HashTable.Insert.{Stores}
use zedis.HashTable.Refine.{search_hit}

-- What a deletion did: nothing, for a key under which no pair is stored; or it took out the pair of the key,
-- and no other.
pub data Deleted (t : Table) (key : List ℕ) (r : Option (Status × Table)) : Type 0 where
  absent :
      r ≡ some (failed, t) → ((v : List ℕ) → ¬ Stores t.capacity t.entries key v) → Deleted t key r
  removed :
      (value : List ℕ) (t' : Table)
      → r ≡ some (ok, t')
      → Stores t.capacity t.entries key value
      → IsValid t'
      → t'.count + 1 ≡ t.count
      → t'.capacity ≡ t.capacity
      → ((q v : List ℕ)
          → Stores t'.capacity t'.entries q v ↔ ((q ≢ key) × Stores t.capacity t.entries q v))
      → Deleted t key r

-- The pairs behind a burial are those of the other slots.
module _ (t : Table) (i : ℕ) (inside : i < length t.entries) where
  buried_slot : is_occupied (entry_at (bury t i).entries i) ≡ false
  buried_slot = rw (entry_at-set_self t.entries i _ inside)

  other_slot : (j : ℕ) → i ≢ j → entry_at (bury t i).entries j ≡ entry_at t.entries j
  other_slot j n = entry_at-set_ne t.entries i j _ n

  bury-Stores :
      (q v : List ℕ)
      → (s : Stores t.capacity t.entries q v) → i ≢ s.at
      → Stores t.capacity (bury t i).entries q v
  bury-Stores q v s n =
      let e = other_slot s.at n in
      record {
        at = s.at;
        inside = s.inside;
        live = rw e s.live;
        key = rw e s.key;
        value = rw e s.value;
      }

  Stores-bury :
      (q v : List ℕ)
      → (s : Stores t.capacity (bury t i).entries q v)
      → (s' : Stores t.capacity t.entries q v) × (i ≢ s'.at)
  Stores-bury q v s =
      let n : i ≢ s.at = λ e.
        let l : is_occupied (entry_at (bury t i).entries i) ≡ true =
          ap (λ j. is_occupied (entry_at (bury t i).entries j)) e ∙ s.live in
        let d = buried_slot in absurd (cc (l, d)) in
      let e = other_slot s.at n in
      (
        record {
          at = s.at;
          inside = s.inside;
          live = rw e at s.live;
          key = rw e at s.key;
          value = rw e at s.value;
        },
        n,
      )

-- On a table in order with a free slot `zedis_ht_del` ends. When no pair is stored under the key, it returns
-- -1 and changes nothing; otherwise it returns 0, and afterwards exactly the pairs under other keys are
-- stored that were stored before, with one entry less and the same capacity.
pub del-Deleted :
    {t : Table} (key : List ℕ)
    → IsValid t
    → Ordered t.capacity t.entries
    → t.count < t.capacity
    → Deleted t key (del t key)
unfolding del
del-Deleted {t} key v o room = let (r, e, found) = search-Found key v room in answer r e found
  where
    hit : (u : List ℕ) → (s : Stores t.capacity t.entries key u) → search t key ≡ some (some s.at)
    hit u s = search_hit t key u v room o s

    answer :
        (r : Option ℕ)
        → search t key ≡ some r
        → Found t (ht_hash key) key r
        → Deleted t key (deleted t (search t key))
    answer none e f = absent (rw e) (λ u s. let h = hit u s in absurd (cc (e, h)))
    answer (some i) e (inside, f) =
        let (live, _, k) = match-eq (entry_at t.entries i) (ht_hash key) key f in
        let (v', n) = bury-IsValid i v inside live in
        let own : Stores t.capacity t.entries key (entry_at t.entries i).value = record {
          at = i;
          inside = inside;
          live = live;
          key = k;
          value = refl;
        } in
        let there : i < length t.entries = omega (arith, inside, v.storage) in
        removed (entry_at t.entries i).value (bury t i) (rw e) own v' n refl (λ q u. (
          (λ s.
              let (s', m) = Stores-bury t i there q u s in
              (
                (λ same.
                    m (o.unique i s'.at inside s'.inside live s'.live (k ∙ sym (s'.key ∙ same)))),
                s',
              )),
          (λ (n, s).
              bury-Stores t i there q u s
                (λ same. n (sym s.key ∙ (ap (λ j. (entry_at t.entries j).key) (sym same) ∙ k)))),
        ))
