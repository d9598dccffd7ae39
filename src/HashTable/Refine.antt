-- ===== src/HashTable/Refine.antt =====
-- `zedis_ht_set` and `zedis_ht_get` of src/hash_table.c on a table from which nothing was deleted.
use native.Mathlib.Decide.{ℕ_discrete}
use native.Mathlib.Nat.{mod-lt}
use zedis.Base.{
  ℕ, zero, suc, ◌+◌, ◌%◌, ◌^◌, ◌≤◌, ◌<◌, ◌≡◌, ◌≢◌, refl, sym, ap, ◌∙◌, true, false, Option, none,
  some, List, ltb, le→ltb, if◌then◌else◌, arith, inl, inr, Bool-cases, ◌↔◌, ◌==◌,
}
use zedis.Base.Status.{ok}
use zedis.HashTable.{
  Entry, Table, is_occupied, is_empty, entry_key_match, entry_at, set_key, start, ht_hash, next32,
  probe, search, get, got, fetch, Fetched,
}
use zedis.HashTable.Walk.{match-eq, eq-match, walk_next, free_slot, tally-le}
use zedis.HashTable.Total.{IsValid, Walks-start, admits, set_key-total}
use zedis.HashTable.Search.{Found, search-Found}
use zedis.HashTable.Invariant.{Reached, Ordered}
use zedis.HashTable.Insert.{Stores, Carries, Content, Reached-lt}
use zedis.HashTable.Own.{loop-Own}
use zedis.HashTable.Pair.{Own}

-- What `zedis_ht_get` hands out of a stored value, if there is one.
abbrev pub answer : ℕ → Option (List ℕ) → Option Fetched
answer value_cap none = none
answer value_cap (some value) = some (fetch value_cap value)

-- The search loop comes to the slot of a key that is stored.
probe_hit :
    (fuel q : ℕ) (t : Table) (key value : List ℕ)
    → Ordered t.capacity t.entries
    → (s : Stores t.capacity t.entries key value) → (entry_at t.entries s.at).psl < 2 ^ 32
    → q ≤ (entry_at t.entries s.at).psl
    → (entry_at t.entries s.at).psl < q + fuel
    → probe fuel t (ht_hash key) key ((ht_hash key + q) % t.capacity) q ≡ some (some s.at)
unfolding probe
probe_hit zero q t key value o s small le h = absurd (omega arith)
probe_hit (suc fuel) q t key value o s small le h = elim (ℕ_discrete q p) [
  | yes e ↦
      let here : (ht_hash key + q) % n' ≡ s.at = ap (λ k. (ht_hash key + k) % n') e ∙ lands in
      rw (here, not_empty (entry_at t.entries s.at) s.live, matches) refl
  | no n ↦
      let l : q < p = omega arith in
      let live = rw hashed at (r.taken q l) in
      let far : ltb (entry_at t.entries i).psl q ≡ false =
        le→ltb _ _ (rw hashed at (r.poorer q l)) in
      let m : next32 q ≡ suc q = omega arith in
      elim (Bool-cases (entry_key_match (entry_at t.entries i) (ht_hash key) key)) [
        | inl x ↦
            let (_, _, k) = match-eq (entry_at t.entries i) (ht_hash key) key x in
            let same =
              o.unique i s.at (mod-lt (ht_hash key + q) (omega (arith, s.inside))) s.inside live
                s.live (k ∙ sym s.key) in
            rw (not_empty (entry_at t.entries i) live, x) (ap (λ k. some (some k)) same)
        | inr x ↦
            rw (not_empty (entry_at t.entries i) live, x, far, m, walk_next n' (ht_hash key) q)
              (probe_hit fuel (suc q) t key value o s small (omega arith) (omega arith))
      ]
]
  where
    n' : ℕ
    n' = t.capacity

    p : ℕ
    p = (entry_at t.entries s.at).psl

    i : ℕ
    i = (ht_hash key + q) % n'

    not_empty : (e : Entry) → is_occupied e ≡ true → is_empty e ≡ false
    not_empty e h = ground arith

    hashed : (entry_at t.entries s.at).hash ≡ ht_hash key
    hashed = o.hashed s.at s.inside s.live ∙ ap ht_hash s.key

    r : Reached n' t.entries (entry_at t.entries s.at).hash p s.at
    r = o.reach s.at s.inside s.live

    lands : (ht_hash key + p) % n' ≡ s.at
    lands = rw hashed at r.lands

    matches : entry_key_match (entry_at t.entries s.at) (ht_hash key) key ≡ true
    matches = eq-match (entry_at t.entries s.at) (ht_hash key) key s.live hashed s.key

pub search_hit :
    (t : Table) (key value : List ℕ)
    → IsValid t
    → t.count < t.capacity
    → Ordered t.capacity t.entries
    → (s : Stores t.capacity t.entries key value) → search t key ≡ some (some s.at)
unfolding search
search_hit t key value v room o s =
    let (j, a, b) = free_slot t.entries (omega (arith, v.counted, v.storage)) in
    let near = Reached-lt j (o.reach s.at s.inside s.live) (omega (arith, v.storage)) b in
    let z : ht_hash key + 0 ≡ ht_hash key = omega arith in
    rw z at (
      probe_hit (suc t.capacity) 0 t key value o s (omega (arith, v.word)) (omega arith)
        (omega arith))

-- On a table in order with a free slot `zedis_ht_get` answers exactly from the pairs that are stored: with
-- the value of the key, cut to what the buffer holds, when some slot stores it, and with -1 when none does.
pub get_refines :
    {t : Table} (key : List ℕ) (value_cap : ℕ)
    → IsValid t
    → Ordered t.capacity t.entries
    → t.count < t.capacity
    → (r : Option (List ℕ)) × (get t key value_cap ≡ some (answer value_cap r))
      × ((value : List ℕ) → (r ≡ some value) ↔ Stores t.capacity t.entries key value)
unfolding get
get_refines {t} key value_cap v o room = let (r, e, f) = search-Found key v room in decide r e f
  where
    positive : (n : ℕ) → 0 < n → (n == 0) ≡ false
    positive n h = ground arith

    decide :
        (r : Option ℕ)
        → search t key ≡ some r
        → Found t (ht_hash key) key r
        → (r : Option (List ℕ)) × ((if t.capacity == 0
              then some none
              else got t value_cap (search t key))
            ≡ some (answer value_cap r))
          × ((value : List ℕ) → (r ≡ some value) ↔ Stores t.capacity t.entries key value)
    decide none e f = (
      none,
      rw (positive t.capacity v.some_room, e),
      (λ value. ((λ z. cc), λ s. let h = search_hit t key value v room o s in absurd (cc (e, h)))),
    )
    decide (some i) e (inside, f) =
        let (live, _, k) = match-eq (entry_at t.entries i) (ht_hash key) key f in
        (
          some (entry_at t.entries i).value,
          rw (positive t.capacity v.some_room, e),
          (λ value. (
            (λ z. record { at = i; inside = inside; live = live; key = k; value = cc }),
            λ s.
                let h = search_hit t key value v room o s in
                let same : i ≡ s.at = cc (e, h) in
                ap some (ap (λ k. (entry_at t.entries k).value) same ∙ s.value),
          )),
        )

start-Carries :
    (t : Table) (key value : List ℕ)
    → Ordered t.capacity t.entries
    → Carries t.capacity (start t key value)
start-Carries t key value o = record {
  ordered = o;
  hashed = refl;
  reached = record {
    lands = ap (λ k. k % t.capacity) (omega arith);
    taken = λ q h. absurd (omega arith);
    poorer = λ q h. absurd (omega arith);
  };
}

-- The state that a call of `zedis_ht_set` leaves.
pub record Stored (t : Table) (key value : List ℕ) (t' : Table) : Type 0 where
  pub returns : set_key t key value ≡ some (ok, t')
  pub shape : IsValid t'
  pub same_capacity : t'.capacity ≡ t.capacity
  pub ordered : Ordered t'.capacity t'.entries
  pub stored : Stores t'.capacity t'.entries key value
  pub others :
      (q v : List ℕ) → q ≢ key → Stores t'.capacity t'.entries q v ↔ Stores t.capacity t.entries q v

-- On a table in order, a key and a value within their limits, and a load under seven tenths,
-- `zedis_ht_set` returns 0; afterwards the table is in order again with the same capacity, some slot
-- stores the new pair, and under every other key exactly the pairs are stored that were stored before.
pub set_key_refines :
    {t : Table} (key value : List ℕ)
    → IsValid t
    → Ordered t.capacity t.entries
    → admits t key value ≡ true
    → (t' : Table) × Stored t key value t'
unfolding set_key
set_key_refines {t} key value v o go =
    let (d, w) = Walks-start {t = t} key value v (ground arith) in
    let (t', e, r) =
      loop-Own t.capacity d t key value (start t key value) v.word w (start-Carries t key value o)
        own w.near in
    let (t2, f, v', c) = set_key-total {t = t} key value v in
    let run : set_key t key value ≡ some (ok, t') = ground (arith, e, count-le) in
    let f' : set_key t key value ≡ some (ok, t2) = rw go at f in
    let same : t2 ≡ t' = cc (run, f') in
    let cap' : t'.capacity ≡ t.capacity = rw same at c in
    (
      t',
      record {
        returns = run;
        shape = rw same at v';
        same_capacity = cap';
        ordered = rw cap' r.ordered;
        stored = rw cap' r.stored;
        others = λ q u n. rw cap' ((λ s. back q u n (r.only q u n s)), λ s. r.kept q u n (inl s));
      },
    )
  where
    count-le : t.count ≤ t.capacity
    count-le = omega (arith, tally-le t.entries, v.counted, v.storage)

    own : Own t.capacity key value (start t key value)
    own = record { keyed = refl; valued = refl; missed = λ q h. absurd (omega arith) }

    back :
        (q u : List ℕ)
        → q ≢ key
        → Content t.capacity (start t key value) q u
        → Stores t.capacity t.entries q u
    back q u n (inl s) = s
    back q u n (inr (a, b)) = absurd (n (sym a))
