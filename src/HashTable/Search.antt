-- ===== src/HashTable/Search.antt =====
-- The search of `zedis_ht_get` and `zedis_ht_del` of src/hash_table.c, and what a deletion stores.
use native.Mathlib.Decide.{ℕ_discrete}
use native.Mathlib.Nat.{mod-lt, mod-eq_of_lt, mod-add-mod, add-mod_right}
use zedis.Base.{
  ℕ, zero, suc, ◌+◌, ◌-◌, ◌%◌, ◌^◌, ◌<◌, ◌≡◌, refl, ap, ◌∙◌, true, false, Option, none, some, List,
  ltb, ◌==◌, length-set, set, arith, inl, inr, Bool-cases, ltb→le,
}
use zedis.HashTable.{
  tombstone, Entry, Table, is_occupied, is_empty, entry_key_match, entry_at, probe, search, got,
  get, bury, Fetched, ht_hash, next32,
}
use zedis.HashTable.Walk.{tally, free_slot, tally-clear, tombstone_of, set-Buried, distance}
use zedis.HashTable.Total.{IsValid}

-- What the search loop returns: an occupied slot that matches the key, or nothing.
abbrev pub Found : Table → ℕ → List ℕ → Option ℕ → Type 0
Found t hash key none = Unit
Found t hash key (some i) =
    (i < t.capacity) × (entry_key_match (entry_at t.entries i) hash key ≡ true)

probe_ends :
    (fuel d : ℕ) (t : Table) (hash : ℕ) (key : List ℕ) (idx psl : ℕ)
    → IsValid t
    → idx < t.capacity
    → is_occupied (entry_at t.entries ((idx + d) % t.capacity)) ≡ false
    → 0 < psl + d
    → psl + d < 2 ^ 32
    → d < fuel
    → (r : Option ℕ) × (probe fuel t hash key idx psl ≡ some r) × Found t hash key r
unfolding probe
probe_ends zero d t hash key idx psl v inside free pos small h = absurd (omega arith)
probe_ends (suc fuel) d t hash key idx psl v inside free pos small h =
    elim (Bool-cases (is_empty e)) [
      | inl b ↦ (none, rw b, tt)
      | inr b ↦ elim (Bool-cases (entry_key_match e hash key)) [
        | inl m ↦ (some idx, rw (b, m), (inside, m))
        | inr m ↦ elim (Bool-cases (ltb e.psl psl)) [
          | inl p ↦ (none, rw (b, m, p), tt)
          | inr p ↦
              rw (b, m, p)
                (probe_ends fuel (d - 1) t hash key ((idx + 1) % t.capacity) (next32 psl) v
                  (mod-lt (idx + 1) v.some_room) (rw (shift (ahead b p)) free)
                  (omega (arith, ahead b p)) (omega (arith, ahead b p)) (omega (arith, ahead b p)))
        ]
      ]
    ]
  where
    e : Entry
    e = entry_at t.entries idx

    here : d ≡ 0 → is_occupied e ≡ false
    here z =
        let k : (idx + d) % t.capacity ≡ idx =
          ap (λ j. j % t.capacity) (omega (arith, z)) ∙ mod-eq_of_lt inside in
        rw k at free

    ahead : is_empty e ≡ false → ltb e.psl psl ≡ false → 0 < d
    ahead b p = elim (ℕ_discrete d 0) [
      | no n ↦ omega arith
      | yes z ↦
          absurd (omega (arith, v.buried idx (tombstone_of e (here z) b), ltb→le e.psl psl p, z))
    ]

    shift : 0 < d → ((idx + 1) % t.capacity + (d - 1)) % t.capacity ≡ (idx + d) % t.capacity
    shift k = mod-add-mod (idx + 1) t.capacity (d - 1) ∙ ap (λ j. j % t.capacity) (omega arith)

-- The search for a key from its home slot ends within `capacity + 1` rounds, if a slot is free.
pub search-Found :
    {t : Table} (key : List ℕ)
    → IsValid t
    → t.count < t.capacity
    → (r : Option ℕ) × (search t key ≡ some r) × Found t (ht_hash key) key r
unfolding search
search-Found {t} key v room =
    let n' : ℕ = t.capacity in
    let s : ℕ = ht_hash key % n' in
    let home : s < n' = mod-lt (ht_hash key) v.some_room in
    let (i, inside, is_free) = free_slot t.entries (omega (arith, v.counted, v.storage)) in
    let (d, near, lands) = distance n' s i home (omega (arith, v.storage)) in
    elim (ℕ_discrete d 0) [
      | no n ↦
          probe_ends (suc n') d t (ht_hash key) key s 0 v home (rw lands is_free) (omega arith)
            (omega (arith, v.word)) (omega arith)
      | yes z ↦
          let round : (s + n') % n' ≡ i =
            add-mod_right s n' ∙ (ap (λ j. j % n') (omega (arith, z)) ∙ lands) in
          probe_ends (suc n') n' t (ht_hash key) key s 0 v home (rw round is_free)
            (omega (arith, v.some_room)) (omega (arith, v.word)) (omega arith)
    ]

-- On a table of exact shape with a free slot `zedis_ht_get` ends: it has an answer, within one round more
-- than the table has slots.
pub get-total :
    {t : Table} (key : List ℕ) (value_cap : ℕ)
    → IsValid t
    → t.count < t.capacity
    → (r : Option Fetched) × (get t key value_cap ≡ some r)
unfolding get
get-total {t} key value_cap v room =
    let (r, e, _) = search-Found key v room in
    let (q, f) = answer r in (q, rw (positive t.capacity v.some_room, e) f)
  where
    answer : (r : Option ℕ) → (q : Option Fetched) × (got t value_cap (some r) ≡ some q)
    answer none = (none, refl)
    answer (some i) = (_, refl)

    positive : (n : ℕ) → 0 < n → (n == 0) ≡ false
    positive n h = ground arith

-- A deletion keeps the shape of the table, with one entry less.
pub bury-IsValid :
    {t : Table} (i : ℕ)
    → IsValid t
    → i < t.capacity
    → is_occupied (entry_at t.entries i) ≡ true
    → IsValid (bury t i) × (t.count - 1 + 1 ≡ t.count)
bury-IsValid {t} i v inside o = (
  record {
    storage = length-set t.entries i x ∙ v.storage;
    some_room = v.some_room;
    word = v.word;
    counted = omega (arith, one_less, v.counted);
    buried = set-Buried t.entries i x v.buried (λ e. refl);
  },
  omega (arith, one_less, v.counted),
)
  where
    x : Entry
    x = record (entry_at t.entries i) { state = tombstone; psl = 0 }

    one_less : tally (set t.entries i x) + 1 ≡ tally t.entries
    one_less = tally-clear t.entries i x (omega (arith, v.storage)) o refl
