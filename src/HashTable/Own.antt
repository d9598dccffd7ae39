-- ===== src/HashTable/Own.antt =====
-- The loop of `zedis_ht_set` on a table in order, from its first round.
use native.Mathlib.Decide.{dec_lt}
use zedis.Base.{
  ℕ, zero, suc, ◌+◌, ◌-◌, ◌^◌, ◌<◌, ◌≡◌, refl, sym, ◌∙◌, true, false, some, List, ltb, ltb→lt,
  length, set, arith, inl, inr, Bool-cases,
}
use zedis.HashTable.{
  Entry, Table, Cursor, is_occupied, entry_key_match, entry_at, placed, advance, set_loop, ht_hash,
  next32,
}
use zedis.HashTable.Walk.{match-eq, entry_at-set_self}
use zedis.HashTable.Total.{Walks, advance-Walks, ahead}
use zedis.HashTable.Insert.{
  Carries, Content, psl-lt, placed-Fits, stay-Carries, swap-Carries, swap-Unplaced, swap-Content,
}
use zedis.HashTable.Loop.{Result, Result-Content, fill-Result, Moved, loop-Moved, stay-Content}
use zedis.HashTable.Pair.{Own, lands, own-Unplaced, updated, update-Result}

advance-Own :
    {n' : ℕ} {key value : List ℕ} {c : Cursor}
    → c.psl < 2 ^ 32 - 1
    → Carries n' c
    → ltb (entry_at c.entries c.idx).psl c.psl ≡ false
    → entry_key_match (entry_at c.entries c.idx) (ht_hash key) key ≡ false
    → Own n' key value c
    → Own n' key value (advance n' c)
unfolding advance
advance-Own {n'} {key} {value} {c} small k s miss own =
    let n : next32 c.psl ≡ suc c.psl = omega arith in
    rw (s, n)
      (record {
        keyed = own.keyed;
        valued = own.valued;
        missed = λ q h. elim (dec_lt q c.psl) [
          | yes l ↦ own.missed q l
          | no l ↦ let e : q ≡ c.psl = omega arith in rw (e, lands n' key value c k own) miss
        ];
      })

-- The exchange that gives the pair its slot.
advance-Moved_first :
    (n' d : ℕ) (key value : List ℕ) (c : Cursor)
    → length c.entries ≡ n'
    → c.idx < n'
    → 0 < d
    → d < n'
    → ltb (entry_at c.entries c.idx).psl c.psl ≡ true
    → Own n' key value c
    → Moved n' (d - 1) 1 c.idx key value (advance n' c)
unfolding advance
advance-Moved_first n' d key value c size inside pos near s own =
    let g = entry_at-set_self c.entries c.idx (placed c) (omega arith) in
    rw s (record {
      inside = inside;
      live = rw g refl;
      has_key = rw g own.keyed;
      has_value = rw g own.valued;
      behind = refl;
      gap = omega arith;
      short = omega arith;
    })

-- The loop from its start.
pub loop-Own :
    (fuel d : ℕ) (t : Table) (key value : List ℕ) (c : Cursor)
    → t.capacity < 2 ^ 32
    → Walks t.capacity t.count d c
    → Carries t.capacity c
    → Own t.capacity key value c
    → d < fuel
    → (t' : Table) × (set_loop fuel t (ht_hash key) key value c ≡ some t')
      × Result t.capacity key value (Content t.capacity c) t'.entries
unfolding set_loop updated
loop-Own zero d t key value c word w k own h = absurd (omega arith)
loop-Own (suc fuel) d t key value c word w k own h = elim (Bool-cases (is_occupied e)) [
  | inr free ↦
      let u =
        own-Unplaced n' key value c k own (miss_free free)
          (λ o. let z : true ≡ false = sym o ∙ free in absurd (cc z)) in
      let f =
        placed-Fits n' t.count d word c w k
          (λ o. let z : true ≡ false = sym o ∙ free in absurd (cc z)) u in
      (
        record t { entries = set c.entries c.idx (placed c); count = t.count + 1 },
        rw free,
        fill-Result n' c f free k.ordered (inr (own.keyed, own.valued)),
      )
  | inl o ↦ elim (Bool-cases (entry_key_match e (ht_hash key) key)) [
    | inl m ↦
        let (_, _, has) = match-eq e (ht_hash key) key m in
        (
          record t { entries = set c.entries c.idx (updated n' key value c k own) },
          rw (o, m),
          update-Result n' key value c k own w.size w.inside o has,
        )
    | inr m ↦
        let w' = advance-Walks n' t.count d c w o in
        let pos = ahead n' t.count d c w o in
        elim (Bool-cases (ltb e.psl c.psl)) [
          | inr s ↦
              let (t', go, r) =
                loop-Own fuel (d - 1) t key value (advance n' c) word w'
                  (stay-Carries n' t.count d word c w k o s)
                  (advance-Own (omega (arith, psl-lt n' t.count d word c w k)) k s m own)
                  (omega arith) in
              (t', rw (o, m) go, Result-Content c (advance n' c) (stay-Content n' c s) r)
          | inl s ↦
              let u = own-Unplaced n' key value c k own m (λ _. ltb→lt e.psl c.psl s) in
              let (t', go, r) =
                loop-Moved fuel (d - 1) 1 c.idx t key value (advance n' c) word w'
                  (swap-Carries n' t.count d word c w k o s u)
                  (swap-Unplaced n' t.count d word c w k o s u)
                  (advance-Moved_first n' d key value c w.size w.inside pos w.near s own)
                  (omega arith) in
              (
                t',
                rw (o, m) go,
                Result-Content c (advance n' c) (swap-Content n' t.count d word c w k o s u) r,
              )
        ]
  ]
]
  where
    n' : ℕ
    n' = t.capacity

    e : Entry
    e = entry_at c.entries c.idx

    miss_free : is_occupied e ≡ false → entry_key_match e (ht_hash key) key ≡ false
    miss_free free = elim (Bool-cases (entry_key_match e (ht_hash key) key)) [
      | inr m ↦ m
      | inl m ↦ let (a, _, _) = match-eq e (ht_hash key) key m in absurd (cc (a, free))
    ]
