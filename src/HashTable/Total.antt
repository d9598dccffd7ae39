-- ===== src/HashTable/Total.antt =====
-- The shape of a table of src/hash_table.c, its count and the fuel of `zedis_ht_set`.
use native.Mathlib.Decide.{ℕ_discrete}
use native.Mathlib.Nat.{mod-lt, mod-eq_of_lt, mod-add-mod}
use zedis.Base.{
  ℕ, zero, suc, ◌+◌, ◌-◌, ◌*◌, ◌%◌, ◌^◌, ◌≤◌, ◌<◌, ◌≡◌, ◌≢◌, refl, sym, ap, ◌∙◌, Bool, true, false,
  Option, some, List, ltb, leb, if◌then◌else◌, length, length-set, set, arith, inl, inr, Bool-cases,
  ◌&&◌,
}
use zedis.Base.Status.{ok, failed}
use zedis.HashTable.{
  Entry, Table, Cursor, is_occupied, entry_key_match, entry_at, placed, advance, set_loop, set_key,
  start, ht_hash, max_key, max_value,
}
use zedis.HashTable.Walk.{
  entry_at-set_ne, tally, free_slot, tally-keep, tally-fill, tally-le, Buried, set-Buried, distance,
}

-- The shape of a table: as many entries as its capacity, below 2 ^ 32, and an exact count.
pub record IsValid (t : Table) : Type 0 where
  pub storage : length t.entries ≡ t.capacity
  pub some_room : 0 < t.capacity
  pub word : t.capacity < 2 ^ 32
  pub counted : t.count ≡ tally t.entries
  pub buried : Buried t.entries

-- A walk that has a free slot `d` places ahead.
pub record Walks (n' count d : ℕ) (c : Cursor) : Type 0 where
  pub size : length c.entries ≡ n'
  pub inside : c.idx < n'
  pub near : d < n'
  pub free : is_occupied (entry_at c.entries ((c.idx + d) % n')) ≡ false
  pub full : tally c.entries ≡ count
  pub dead : Buried c.entries

module _ (n' count d : ℕ) (c : Cursor) (w : Walks n' count d c)
    (o : is_occupied (entry_at c.entries c.idx) ≡ true) where
  elsewhere : c.idx ≢ (c.idx + d) % n'
  elsewhere e = let f = rw (← e) at w.free in cc (o, f)

  pub ahead : 0 < d
  ahead = elim (ℕ_discrete d 0) [
    | yes e ↦
        absurd (
          elsewhere (let z : c.idx + d ≡ c.idx = omega (arith, e) in rw (z, mod-eq_of_lt w.inside)))
    | no p ↦ omega arith
  ]

  step_index : ((c.idx + 1) % n' + (d - 1)) % n' ≡ (c.idx + d) % n'
  step_index = mod-add-mod (c.idx + 1) n' (d - 1) ∙ ap (λ t. t % n') (omega (arith, ahead))

  pub advance-Walks : Walks n' count (d - 1) (advance n' c)
  unfolding advance
  advance-Walks = elim (Bool-cases (ltb (entry_at c.entries c.idx).psl c.psl)) [
    | inr keep ↦ rw keep (record {
      size = w.size;
      inside = mod-lt (c.idx + 1) (omega (arith, w.inside));
      near = omega (arith, w.near);
      free = rw step_index w.free;
      full = w.full;
      dead = w.dead;
    })
    | inl swap ↦ rw swap (record {
      size = length-set c.entries c.idx (placed c) ∙ w.size;
      inside = mod-lt (c.idx + 1) (omega (arith, w.inside));
      near = omega (arith, w.near);
      free =
          rw (step_index, entry_at-set_ne c.entries c.idx ((c.idx + d) % n') (placed c) elsewhere)
            w.free;
      full =
          tally-keep c.entries c.idx (placed c) (omega (arith, w.size, w.inside)) o refl ∙ w.full;
      dead = set-Buried c.entries c.idx (placed c) w.dead (λ e. cc);
    })
  ]

-- What a finished loop leaves: a table of the same capacity, with its shape.
Finished : ℕ → Option Table → Type 0
Finished n' r = (t : Table) × (r ≡ some t) × IsValid t × (t.capacity ≡ n')

set_loop-Finished :
    (fuel d : ℕ) (t : Table) (hash : ℕ) (key value : List ℕ) (c : Cursor)
    → IsValid t
    → Walks t.capacity t.count d c
    → d < fuel
    → Finished t.capacity (set_loop fuel t hash key value c)
unfolding set_loop Finished
set_loop-Finished zero d t hash key value c v w h = absurd (omega arith)
set_loop-Finished (suc fuel) d t hash key value c v w h =
    elim (Bool-cases (is_occupied (entry_at c.entries c.idx))) [
      | inr f ↦ (
        record t { entries = set c.entries c.idx (placed c); count = t.count + 1 },
        rw f,
        record {
          storage = length-set c.entries c.idx (placed c) ∙ w.size;
          some_room = v.some_room;
          word = v.word;
          counted = omega (arith, w.full, tally-fill c.entries c.idx (placed c) inside f refl);
          buried = set-Buried c.entries c.idx (placed c) w.dead (λ e. cc);
        },
        refl,
      )
      | inl o ↦ elim (Bool-cases (entry_key_match (entry_at c.entries c.idx) hash key)) [
        | inl m ↦
            let e : Entry = entry_at c.entries c.idx in
            let x : Entry = record e { value = value } in
            (
              record t { entries = set c.entries c.idx x },
              rw (o, m),
              record {
                storage = length-set c.entries c.idx x ∙ w.size;
                some_room = v.some_room;
                word = v.word;
                counted = omega (arith, w.full, tally-keep c.entries c.idx x inside o o);
                buried = set-Buried c.entries c.idx x w.dead (w.dead c.idx);
              },
              refl,
            )
        | inr m ↦
            rw (o, m)
              (set_loop-Finished fuel (d - 1) t hash key value (advance t.capacity c) v
                (advance-Walks t.capacity t.count d c w o)
                (omega (arith, ahead t.capacity t.count d c w o)))
      ]
    ]
  where
    inside : c.idx < length c.entries
    inside = omega (arith, w.size, w.inside)

-- The tests before the loop of `zedis_ht_set`: the lengths, and a load under seven tenths.
abbrev pub admits : Table → List ℕ → List ℕ → Bool
admits t key value =
    leb (length key) max_key
    && (leb (length value) max_value && ltb (t.count * 10) (t.capacity * 7))

pub Walks-start :
    {t : Table} (key value : List ℕ)
    → IsValid t
    → t.count < t.capacity
    → (d : ℕ) × Walks t.capacity t.count d (start t key value)
Walks-start {t = t} key value v room =
    let (i, inside, is_free) = free_slot t.entries (omega (arith, v.counted, v.storage)) in
    let home : ht_hash key % t.capacity < t.capacity = mod-lt (ht_hash key) v.some_room in
    let (d, near, lands) =
      distance t.capacity (ht_hash key % t.capacity) i home (omega (arith, v.storage)) in
    (
      d,
      record {
        size = v.storage;
        inside = home;
        near = near;
        free = rw lands is_free;
        full = sym v.counted;
        dead = v.buried;
      },
    )

-- On a table of exact shape `zedis_ht_set` ends, within as many rounds as the table has slots. It returns
-- 0 exactly when key, value and load are within their limits, and then the table keeps its shape and
-- capacity and its count is again the number of occupied slots; otherwise it returns -1 and changes nothing.
pub set_key-total :
    {t : Table} (key value : List ℕ)
    → IsValid t
    → (t' : Table) × (set_key t key value
        ≡ some (if admits t key value then (ok, t') else (failed, t)))
      × IsValid t'
      × (t'.capacity ≡ t.capacity)
unfolding set_key Finished
set_key-total {t} key value v = elim (Bool-cases (admits t key value)) [
  | inr out ↦ (t, rw out (refused out), v, refl)
  | inl go ↦
      let (d, w) = Walks-start {t = t} key value v (ground arith) in
      let (t', e, v', same) =
        set_loop-Finished t.capacity d t (ht_hash key) key value _ v w w.near in
      (t', rw go (ground (arith, e, count-le)), v', same)
]
  where
    count-le : t.count ≤ t.capacity
    count-le = omega (arith, tally-le t.entries, v.counted, v.storage)

    refused : admits t key value ≡ false → set_key t key value ≡ some (failed, t)
    refused out = ground (arith, count-le)
