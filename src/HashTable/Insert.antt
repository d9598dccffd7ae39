-- ===== src/HashTable/Insert.antt =====
-- Single rounds of `zedis_ht_set` of src/hash_table.c on a table in order, and the entry that they carry.
use native.Mathlib.Decide.{ℕ_discrete, dec_lt}
use native.Mathlib.Nat.{mod-lt, mod-add-mod}
use zedis.Base.{
  ℕ, suc, ◌+◌, ◌%◌, ◌^◌, ◌≤◌, ◌<◌, ◌≡◌, ◌≢◌, refl, sym, ap, ◌∙◌, true, false, List, ltb, ltb→lt,
  ltb→le, set, arith, inl, inr, ◌⊎◌, ◌↔◌,
}
use zedis.HashTable.{Entry, Cursor, is_occupied, entry_at, placed, advance, ht_hash, next32}
use zedis.HashTable.Walk.{entry_at-set_self, entry_at-set_ne, distance, walk_next}
use zedis.HashTable.Total.{Walks}
use zedis.HashTable.Invariant.{
  Occupied, Reached, Ordered, Fits, set-Ordered, Reached-set, Occupied-set,
}

-- Some slot holds the key with the value.
pub record Stores (n' : ℕ) (es : List Entry) (q v : List ℕ) : Type 0 where
  pub at : ℕ
  pub inside : at < n'
  pub live : Occupied es at
  pub key : (entry_at es at).key ≡ q
  pub value : (entry_at es at).value ≡ v

-- What the loop carries on a table in order.
pub record Carries (n' : ℕ) (c : Cursor) : Type 0 where
  pub ordered : Ordered n' c.entries
  pub hashed : c.incoming.hash ≡ ht_hash c.incoming.key
  pub reached : Reached n' c.entries c.incoming.hash c.psl c.idx

-- The walk of a carried entry goes one slot further when the slot before is taken by one as poor.
Reached-next :
    {n' : ℕ} {es : List Entry} {hash p i : ℕ}
    → Reached n' es hash p i
    → Occupied es i
    → p ≤ (entry_at es i).psl
    → Reached n' es hash (suc p) ((i + 1) % n')
Reached-next {n'} {es} {hash} {p} {i} r o h = record {
  lands = sym (walk_next n' hash p) ∙ ap (λ k. (k + 1) % n') r.lands;
  taken = λ q k. elim (dec_lt q p) [
    | yes l ↦ r.taken q l
    | no l ↦ let e : q ≡ p = omega arith in rw (e, r.lands) o
  ];
  poorer = λ q k. elim (dec_lt q p) [
    | yes l ↦ r.poorer q l
    | no l ↦ let e : q ≡ p = omega arith in rw (e, r.lands) h
  ];
}

-- A walk that has not met the free slot is shorter than the table.
pub Reached-lt :
    {n' : ℕ} {es : List Entry} {hash p i : ℕ} (j : ℕ)
    → Reached n' es hash p i
    → j < n'
    → is_occupied (entry_at es j) ≡ false
    → p < n'
Reached-lt {n'} {es} {hash} {p} j r h free = elim (dec_lt p n') [
  | yes l ↦ l
  | no l ↦
      let (d, near, lands) = distance n' (hash % n') j (mod-lt hash (omega arith)) h in
      let at : (hash + d) % n' ≡ j = sym (mod-add-mod hash n' d) ∙ lands in
      let o = rw at at (r.taken d (omega arith)) in absurd (cc (o, free))
]

-- No slot holds the key that is carried.
abbrev pub Unplaced : ℕ → Cursor → Type 0
Unplaced n' c =
    (j : ℕ) → j < n' → Occupied c.entries j → (entry_at c.entries j).key ≢ c.incoming.key

-- The pairs of keys and values in the table and in the hand of the loop.
abbrev pub Content : ℕ → Cursor → List ℕ → List ℕ → Type 0
Content n' c q v = Stores n' c.entries q v ⊎ ((c.incoming.key ≡ q) × (c.incoming.value ≡ v))

module _ (n' count d : ℕ) (word : n' < 2 ^ 32) (c : Cursor) (w : Walks n' count d c)
    (carried : Carries n' c) where
  e : Entry
  e = entry_at c.entries c.idx

  pub psl-lt : c.psl < n'
  psl-lt =
      Reached-lt ((c.idx + d) % n') carried.reached (mod-lt (c.idx + d) (omega (arith, w.inside)))
        w.free

  -- The carried entry fits the slot at hand, if that is free or nearer to its home.
  pub placed-Fits :
      (Occupied c.entries c.idx → (entry_at c.entries c.idx).psl ≤ c.psl)
      → Unplaced n' c
      → Fits n' c.entries c.idx (placed c)
  placed-Fits h u = record {
    size = w.size;
    inside = w.inside;
    live = refl;
    further = h;
    hashed = carried.hashed;
    reached = carried.reached;
    fresh = λ j k o z. absurd (u j k o z);
  }

  pub stay-Carries :
      Occupied c.entries c.idx
      → ltb (entry_at c.entries c.idx).psl c.psl ≡ false
      → Carries n' (advance n' c)
  unfolding advance
  stay-Carries o h =
      let n : next32 c.psl ≡ suc c.psl = omega (arith, psl-lt) in
      rw (h, n)
        (record {
          ordered = carried.ordered;
          hashed = carried.hashed;
          reached = Reached-next carried.reached o (ltb→le _ c.psl h);
        })

  module _ (o : Occupied c.entries c.idx) (h : ltb (entry_at c.entries c.idx).psl c.psl ≡ true)
      (u : Unplaced n' c) where
    fits : Fits n' c.entries c.idx (placed c)
    fits = placed-Fits (λ _. let l = ltb→lt _ c.psl h in omega arith) u

    in_place : entry_at (set c.entries c.idx (placed c)) c.idx ≡ placed c
    in_place = entry_at-set_self c.entries c.idx (placed c) (omega (arith, w.size, w.inside))

    pub swap-Carries : Carries n' (advance n' c)
    unfolding advance e
    swap-Carries =
        let l = ltb→lt e.psl c.psl h in
        let n : next32 e.psl ≡ suc e.psl = omega (arith, psl-lt) in
        rw (h, n)
          (record {
            ordered = set-Ordered n' c.entries c.idx (placed c) fits carried.ordered;
            hashed = carried.ordered.hashed c.idx w.inside o;
            reached =
                Reached-next
                  (Reached-set n' c.entries c.idx (placed c) fits
                    (carried.ordered.reach c.idx w.inside o))
                  (Occupied-set n' c.entries c.idx (placed c) fits c.idx o)
                  (rw in_place (omega arith));
          })

    pub swap-Unplaced : Unplaced n' (advance n' c)
    unfolding advance e
    swap-Unplaced = rw h (λ j k p z. elim (ℕ_discrete c.idx j) [
      | yes a ↦
          let s : entry_at (set c.entries c.idx (placed c)) j ≡ placed c = rw (← a) in_place in
          absurd (u c.idx w.inside o (sym z ∙ ap (λ x. x.key) s))
      | no a ↦
          let s = entry_at-set_ne c.entries c.idx j (placed c) a in
          a (
            sym (
              carried.ordered.unique j c.idx k w.inside (rw s at p) o
                (sym (ap (λ x. x.key) s) ∙ z)))
    ])

    -- The exchange loses nothing and adds nothing.
    pub swap-Content : (q v : List ℕ) → Content n' c q v ↔ Content n' (advance n' c) q v
    unfolding advance e
    swap-Content q v = rw h (there, back)
      where
        es : List Entry
        es = set c.entries c.idx (placed c)

        there : Content n' c q v → Stores n' es q v ⊎ ((e.key ≡ q) × (e.value ≡ v))
        there (inr (a, b)) = inl (record {
          at = c.idx;
          inside = w.inside;
          live = rw in_place refl;
          key = rw in_place a;
          value = rw in_place b;
        })
        there (inl s) = elim (ℕ_discrete c.idx s.at) [
          | yes a ↦ inr (rw a s.key, rw a s.value)
          | no a ↦
              let f = entry_at-set_ne c.entries c.idx s.at (placed c) a in
              inl (record {
                at = s.at;
                inside = s.inside;
                live = rw f s.live;
                key = rw f s.key;
                value = rw f s.value;
              })
        ]

        back : Stores n' es q v ⊎ ((e.key ≡ q) × (e.value ≡ v)) → Content n' c q v
        back (inr (a, b)) =
            inl (record { at = c.idx; inside = w.inside; live = o; key = a; value = b })
        back (inl s) = elim (ℕ_discrete c.idx s.at) [
          | yes a ↦
              let f : entry_at es s.at ≡ placed c = rw (← a) in_place in
              inr (sym (ap (λ x. x.key) f) ∙ s.key, sym (ap (λ x. x.value) f) ∙ s.value)
          | no a ↦
              let f = entry_at-set_ne c.entries c.idx s.at (placed c) a in
              inl (record {
                at = s.at;
                inside = s.inside;
                live = rw f at s.live;
                key = rw f at s.key;
                value = rw f at s.value;
              })
        ]
