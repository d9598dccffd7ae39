-- ===== src/HashTable/Loop.antt =====
-- The loop of `zedis_ht_set` of src/hash_table.c once the new pair has its slot.
use native.Mathlib.Decide.{ℕ_discrete, dec_lt}
use native.Mathlib.Nat.{mod-eq_of_lt, mod-eq-sub-mod}
use zedis.Base.{
  ℕ, zero, suc, ◌+◌, ◌-◌, ◌%◌, ◌^◌, ◌<◌, ◌≡◌, ◌≢◌, refl, sym, ap, ◌∙◌, true, false, some, List, ltb,
  set, arith, inl, inr, Bool-cases, ◌↔◌,
}
use zedis.HashTable.{
  Entry, Table, Cursor, is_occupied, entry_key_match, entry_at, placed, advance, set_loop, ht_hash,
}
use zedis.HashTable.Walk.{match-eq, entry_at-set_self, entry_at-set_ne, walk_next}
use zedis.HashTable.Total.{Walks, advance-Walks, ahead}
use zedis.HashTable.Invariant.{Occupied, Ordered, Fits, set-Ordered}
use zedis.HashTable.Insert.{
  Stores, Carries, Unplaced, Content, placed-Fits, stay-Carries, swap-Carries, swap-Unplaced,
  swap-Content,
}

-- What a finished insertion of `key` leaves: a table in order that holds the new pair and, under every
-- other key, exactly what the loop had.
pub record Result (n' : ℕ) (key value : List ℕ) (content : List ℕ → List ℕ → Type 0)
    (es : List Entry) : Type 0 where
  pub ordered : Ordered n' es
  pub stored : Stores n' es key value
  pub kept : (q v : List ℕ) → q ≢ key → content q v → Stores n' es q v
  pub only : (q v : List ℕ) → q ≢ key → Stores n' es q v → content q v

-- The same table serves for any loop state with the same pairs.
pub Result-Content :
    {n' : ℕ} {key value : List ℕ} {es : List Entry} (c c' : Cursor)
    → ((q v : List ℕ) → Content n' c q v ↔ Content n' c' q v)
    → Result n' key value (Content n' c') es
    → Result n' key value (Content n' c) es
Result-Content c c' same r = record {
  ordered = r.ordered;
  stored = r.stored;
  kept = λ q v n s. r.kept q v n ((same q v).0 s);
  only = λ q v n s. (same q v).1 (r.only q v n s);
}

module _ (n' : ℕ) (c : Cursor) (f : Fits n' c.entries c.idx (placed c))
    (free : is_occupied (entry_at c.entries c.idx) ≡ false) where
  in_place : entry_at (set c.entries c.idx (placed c)) c.idx ≡ placed c
  in_place = entry_at-set_self c.entries c.idx (placed c) (omega (arith, f.size, f.inside))

  Stores-hand : Stores n' (set c.entries c.idx (placed c)) c.incoming.key c.incoming.value
  Stores-hand = record {
    at = c.idx;
    inside = f.inside;
    live = rw in_place refl;
    key = rw in_place refl;
    value = rw in_place refl;
  }

  fill-kept : (q v : List ℕ) → Content n' c q v → Stores n' (set c.entries c.idx (placed c)) q v
  fill-kept q v (inr (a, b)) = rw (← a, ← b) Stores-hand
  fill-kept q v (inl s) = elim (ℕ_discrete c.idx s.at) [
    | yes a ↦ let o = s.live in let z : Occupied c.entries c.idx = rw a o in absurd (cc (z, free))
    | no a ↦
        let g = entry_at-set_ne c.entries c.idx s.at (placed c) a in
        record {
          at = s.at;
          inside = s.inside;
          live = rw g s.live;
          key = rw g s.key;
          value = rw g s.value;
        }
  ]

  fill-only : (q v : List ℕ) → Stores n' (set c.entries c.idx (placed c)) q v → Content n' c q v
  fill-only q v s = elim (ℕ_discrete c.idx s.at) [
    | yes a ↦
        let g : entry_at (set c.entries c.idx (placed c)) s.at ≡ placed c = rw (← a) in_place in
        inr (sym (ap (λ x. x.key) g) ∙ s.key, sym (ap (λ x. x.value) g) ∙ s.value)
    | no a ↦
        let g = entry_at-set_ne c.entries c.idx s.at (placed c) a in
        inl (record {
          at = s.at;
          inside = s.inside;
          live = rw g at s.live;
          key = rw g at s.key;
          value = rw g at s.value;
        })
  ]

  pub fill-Result :
      {key value : List ℕ}
      → Ordered n' c.entries
      → Content n' c key value
      → Result n' key value (Content n' c) (set c.entries c.idx (placed c))
  fill-Result {key} {value} o s = record {
    ordered = set-Ordered n' c.entries c.idx (placed c) f o;
    stored = fill-kept key value s;
    kept = λ q v n. fill-kept q v;
    only = λ q v n. fill-only q v;
  }

-- The new pair stands in slot `j`, `m` places behind the cursor, and the free slot comes before it again.
pub record Moved (n' d m j : ℕ) (key value : List ℕ) (c : Cursor) : Type 0 where
  pub inside : j < n'
  pub live : Occupied c.entries j
  pub has_key : (entry_at c.entries j).key ≡ key
  pub has_value : (entry_at c.entries j).value ≡ value
  pub behind : c.idx ≡ (j + m) % n'
  pub gap : 0 < m
  pub short : m + d < n'

away : (n' j m : ℕ) → j < n' → 0 < m → m < n' → (j + m) % n' ≢ j
away n' j m h pos l = elim (dec_lt (j + m) n') [
  | yes p ↦ omega (arith, mod-eq_of_lt p)
  | no p ↦ omega (
    arith,
    mod-eq-sub-mod {n = j + m} {m = n'} (omega arith),
    mod-eq_of_lt {n = j + m - n'} {m = n'} (omega arith),
  )
]

Moved-apart :
    {n' d m j : ℕ} {key value : List ℕ} {c : Cursor} → Moved n' d m j key value c → c.idx ≢ j
Moved-apart {n'} {d} {m} {j} x e =
    away n' j m x.inside x.gap (omega (arith, x.short)) (sym x.behind ∙ e)

advance-Moved :
    {n' d m j : ℕ} {key value : List ℕ} {c : Cursor}
    → 0 < d
    → Moved n' d m j key value c
    → Moved n' (d - 1) (suc m) j key value (advance n' c)
unfolding advance
advance-Moved {n'} {d} {m} {j} {key} {value} {c} pos x =
    elim (Bool-cases (ltb (entry_at c.entries c.idx).psl c.psl)) [
      | inr h ↦ rw h (record {
        inside = x.inside;
        live = x.live;
        has_key = x.has_key;
        has_value = x.has_value;
        behind = on;
        gap = omega arith;
        short = omega (arith, x.short);
      })
      | inl h ↦ rw h (record {
        inside = x.inside;
        live = rw s x.live;
        has_key = rw s x.has_key;
        has_value = rw s x.has_value;
        behind = on;
        gap = omega arith;
        short = omega (arith, x.short);
      })
    ]
  where
    s : entry_at (set c.entries c.idx (placed c)) j ≡ entry_at c.entries j
    s = entry_at-set_ne c.entries c.idx j (placed c) (Moved-apart x)

    on : (c.idx + 1) % n' ≡ (j + suc m) % n'
    on = ap (λ k. (k + 1) % n') x.behind ∙ walk_next n' j m

stay-Unplaced :
    (n' : ℕ) (c : Cursor)
    → ltb (entry_at c.entries c.idx).psl c.psl ≡ false
    → Unplaced n' c
    → Unplaced n' (advance n' c)
unfolding advance
stay-Unplaced n' c s u = rw s u

pub stay-Content :
    (n' : ℕ) (c : Cursor)
    → ltb (entry_at c.entries c.idx).psl c.psl ≡ false
    → (q v : List ℕ) → Content n' c q v ↔ Content n' (advance n' c) q v
unfolding advance
stay-Content n' c s q v = rw s ((λ z. z), (λ z. z))

-- The loop once the new pair is in its slot: it goes on to place what was displaced.
pub loop-Moved :
    (fuel d m j : ℕ) (t : Table) (key value : List ℕ) (c : Cursor)
    → t.capacity < 2 ^ 32
    → Walks t.capacity t.count d c
    → Carries t.capacity c
    → Unplaced t.capacity c
    → Moved t.capacity d m j key value c
    → d < fuel
    → (t' : Table) × (set_loop fuel t (ht_hash key) key value c ≡ some t')
      × Result t.capacity key value (Content t.capacity c) t'.entries
unfolding set_loop
loop-Moved zero d m j t key value c word w k u x h = absurd (omega arith)
loop-Moved (suc fuel) d m j t key value c word w k u x h = elim (Bool-cases (is_occupied e)) [
  | inr free ↦
      let f =
        placed-Fits n' t.count d word c w k
          (λ o. let z : true ≡ false = sym o ∙ free in absurd (cc z)) u in
      (
        record t { entries = set c.entries c.idx (placed c); count = t.count + 1 },
        rw free,
        fill-Result n' c f free k.ordered (inl held),
      )
  | inl o ↦
      let w' = advance-Walks n' t.count d c w o in
      let pos = ahead n' t.count d c w o in
      elim (Bool-cases (ltb e.psl c.psl)) [
        | inl s ↦
            let (t', go, r) =
              loop-Moved fuel (d - 1) (suc m) j t key value (advance n' c) word w'
                (swap-Carries n' t.count d word c w k o s u)
                (swap-Unplaced n' t.count d word c w k o s u) (advance-Moved pos x) (omega arith) in
            (
              t',
              rw (o, other o) go,
              Result-Content c (advance n' c) (swap-Content n' t.count d word c w k o s u) r,
            )
        | inr s ↦
            let (t', go, r) =
              loop-Moved fuel (d - 1) (suc m) j t key value (advance n' c) word w'
                (stay-Carries n' t.count d word c w k o s) (stay-Unplaced n' c s u)
                (advance-Moved pos x) (omega arith) in
            (t', rw (o, other o) go, Result-Content c (advance n' c) (stay-Content n' c s) r)
      ]
]
  where
    n' : ℕ
    n' = t.capacity

    e : Entry
    e = entry_at c.entries c.idx

    held : Stores n' c.entries key value
    held = record { at = j; inside = x.inside; live = x.live; key = x.has_key; value = x.has_value }

    other : Occupied c.entries c.idx → entry_key_match e (ht_hash key) key ≡ false
    other o = elim (Bool-cases (entry_key_match e (ht_hash key) key)) [
      | inr m ↦ m
      | inl m ↦
          let (_, _, z) = match-eq e (ht_hash key) key m in
          absurd (
            Moved-apart x (k.ordered.unique c.idx j w.inside x.inside o x.live (z ∙ sym x.has_key)))
    ]
