-- ===== src/HashTable/Pair.antt =====
-- The pair that the loop of `zedis_ht_set` was called with, until it has a slot.
use native.Mathlib.Decide.{ℕ_discrete, dec_lt}
use zedis.Base.{
  ℕ, ◌+◌, ◌%◌, ◌<◌, ◌≡◌, ◌≢◌, refl, sym, ap, ◌∙◌, true, false, List, length, set, arith, inl, inr,
}
use zedis.HashTable.{occupied, Entry, Cursor, is_occupied, entry_key_match, entry_at, ht_hash}
use zedis.HashTable.Walk.{eq-match, entry_at-set_self, entry_at-set_ne}
use zedis.HashTable.Invariant.{Occupied, Reached, Fits, set-Ordered}
use zedis.HashTable.Insert.{Stores, Carries, Unplaced, Content}
use zedis.HashTable.Loop.{Result}

-- The loop still carries the pair it was called with, and has met no entry of that key.
pub record Own (n' : ℕ) (key value : List ℕ) (c : Cursor) : Type 0 where
  pub keyed : c.incoming.key ≡ key
  pub valued : c.incoming.value ≡ value
  pub missed :
      (q : ℕ)
      → q < c.psl
      → entry_key_match (entry_at c.entries ((ht_hash key + q) % n')) (ht_hash key) key ≡ false

module _ (n' : ℕ) (key value : List ℕ) (c : Cursor) (k : Carries n' c)
    (own : Own n' key value c) where
  pub hash_eq : c.incoming.hash ≡ ht_hash key
  hash_eq = k.hashed ∙ ap ht_hash own.keyed

  pub lands : (ht_hash key + c.psl) % n' ≡ c.idx
  lands = rw (← hash_eq) k.reached.lands

  -- The key can stand nowhere, once the loop is about to give its pair a slot.
  pub own-Unplaced :
      entry_key_match (entry_at c.entries c.idx) (ht_hash key) key ≡ false
      → (Occupied c.entries c.idx → (entry_at c.entries c.idx).psl < c.psl)
      → Unplaced n' c
  own-Unplaced miss near j h o z = elim (dec_lt p c.psl) [
    | yes l ↦ let a = own.missed p l in let b = rw at at a in absurd (cc (b, matches))
    | no l ↦ elim (ℕ_discrete p c.psl) [
      | yes same ↦
          let here : j ≡ c.idx = sym at ∙ ap (λ i. (ht_hash key + i) % n') same ∙ lands in
          let a = rw here at matches in absurd (cc (a, miss))
      | no n ↦
          let taken = rw at_idx at (r.taken c.psl (omega arith)) in
          let far = rw at_idx at (r.poorer c.psl (omega arith)) in
          absurd (omega (arith, near taken, far))
    ]
  ]
    where
      x : Entry
      x = entry_at c.entries j

      p : ℕ
      p = x.psl

      r : Reached n' c.entries x.hash p j
      r = k.ordered.reach j h o

      hashed : x.hash ≡ ht_hash key
      hashed = k.ordered.hashed j h o ∙ ap ht_hash (z ∙ own.keyed)

      at : (ht_hash key + p) % n' ≡ j
      at = rw (← hashed) r.lands

      at_idx : (x.hash + c.psl) % n' ≡ c.idx
      at_idx = rw hashed lands

      matches : entry_key_match x (ht_hash key) key ≡ true
      matches = eq-match x (ht_hash key) key o hashed (z ∙ own.keyed)

  -- A new value in the slot of the key.
  unfoldable pub updated : Entry
  updated = record (entry_at c.entries c.idx) { value = value }

  module _ (size : length c.entries ≡ n') (inside : c.idx < n') (o : Occupied c.entries c.idx)
      (has : (entry_at c.entries c.idx).key ≡ key) where
    update-Fits : Fits n' c.entries c.idx updated
    unfolding updated
    update-Fits = record {
      size = size;
      inside = inside;
      live = occupied_of (entry_at c.entries c.idx) o;
      further = λ _. omega arith;
      hashed = k.ordered.hashed c.idx inside o;
      reached = k.ordered.reach c.idx inside o;
      fresh = λ j h p z. k.ordered.unique j c.idx h inside p o z;
    }
      where
        occupied_of : (e : Entry) → is_occupied e ≡ true → e.state ≡ occupied
        occupied_of e h = ground arith

    in_place : entry_at (set c.entries c.idx updated) c.idx ≡ updated
    in_place = entry_at-set_self c.entries c.idx updated (omega (arith, size, inside))

    pub update-Result : Result n' key value (Content n' c) (set c.entries c.idx updated)
    unfolding updated
    update-Result = record {
      ordered = set-Ordered n' c.entries c.idx updated update-Fits k.ordered;
      stored = record {
        at = c.idx;
        inside = inside;
        live = rw in_place o;
        key = rw in_place has;
        value = rw in_place refl;
      };
      kept = λ q v n. kept q v n;
      only = λ q v n s. elim (ℕ_discrete c.idx s.at) [
        | yes a ↦
            let g : entry_at (set c.entries c.idx updated) s.at ≡ updated = rw (← a) in_place in
            absurd (n (sym s.key ∙ (ap (λ x. x.key) g ∙ has)))
        | no a ↦
            let g = entry_at-set_ne c.entries c.idx s.at updated a in
            inl (record {
              at = s.at;
              inside = s.inside;
              live = rw g at s.live;
              key = rw g at s.key;
              value = rw g at s.value;
            })
      ];
    }
      where
        kept :
            (q v : List ℕ)
            → q ≢ key
            → Content n' c q v
            → Stores n' (set c.entries c.idx updated) q v
        kept q v n (inr (a, b)) = absurd (n (sym a ∙ own.keyed))
        kept q v n (inl s) = elim (ℕ_discrete c.idx s.at) [
          | yes a ↦ absurd (n (sym s.key ∙ (ap (λ i. (entry_at c.entries i).key) (sym a) ∙ has)))
          | no a ↦
              let g = entry_at-set_ne c.entries c.idx s.at updated a in
              record {
                at = s.at;
                inside = s.inside;
                live = rw g s.live;
                key = rw g s.key;
                value = rw g s.value;
              }
        ]
