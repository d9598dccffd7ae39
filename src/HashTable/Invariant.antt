-- ===== src/HashTable/Invariant.antt =====
-- The order that Robin Hood insertion keeps in a table from which nothing was deleted, and the single
-- store that keeps it.
use native.Mathlib.Decide.{ℕ_discrete}
use zedis.Base.{ℕ, ◌+◌, ◌%◌, ◌≤◌, ◌<◌, ◌≡◌, ◌≢◌, sym, ◌∙◌, ap, true, List, length, set, arith}
use zedis.HashTable.{occupied, tombstone, Entry, is_occupied, entry_at, ht_hash}
use zedis.HashTable.Walk.{entry_at-set_self, entry_at-set_ne}

abbrev pub Occupied : List Entry → ℕ → Type 0
Occupied es i = is_occupied (entry_at es i) ≡ true

-- Slot `i` lies `p` places behind the home of `hash`, and every slot before it on the way is occupied by
-- an entry at least as far from its own home.
pub record Reached (n' : ℕ) (es : List Entry) (hash p i : ℕ) : Type 0 where
  pub lands : (hash + p) % n' ≡ i
  pub taken : (q : ℕ) → q < p → Occupied es ((hash + q) % n')
  pub poorer : (q : ℕ) → q < p → q ≤ (entry_at es ((hash + q) % n')).psl

pub record Ordered (n' : ℕ) (es : List Entry) : Type 0 where
  pub hashed : (i : ℕ) → i < n' → Occupied es i → (entry_at es i).hash ≡ ht_hash (entry_at es i).key
  pub reach :
      (i : ℕ) → i < n' → Occupied es i → Reached n' es (entry_at es i).hash (entry_at es i).psl i
  pub unique :
      (i j : ℕ)
      → i < n'
      → j < n'
      → Occupied es i
      → Occupied es j
      → (entry_at es i).key ≡ (entry_at es j).key
      → i ≡ j
  pub alive : (i : ℕ) → (entry_at es i).state ≢ tombstone

-- `x` may stand in slot `k`: it is no closer to its home than what stood there, and its key stands in no
-- other slot.
pub record Fits (n' : ℕ) (es : List Entry) (k : ℕ) (x : Entry) : Type 0 where
  pub size : length es ≡ n'
  pub inside : k < n'
  pub live : x.state ≡ occupied
  pub further : Occupied es k → (entry_at es k).psl ≤ x.psl
  pub hashed : x.hash ≡ ht_hash x.key
  pub reached : Reached n' es x.hash x.psl k
  pub fresh : (j : ℕ) → j < n' → Occupied es j → (entry_at es j).key ≡ x.key → j ≡ k

module _ (n' : ℕ) (es : List Entry) (k : ℕ) (x : Entry) (f : Fits n' es k x) where
  here : entry_at (set es k x) k ≡ x
  here = entry_at-set_self es k x (omega (arith, f.size, f.inside))

  Occupied-here : Occupied (set es k x) k
  Occupied-here = rw (here, f.live)

  pub Occupied-set : (j : ℕ) → Occupied es j → Occupied (set es k x) j
  Occupied-set j o = elim (ℕ_discrete k j) [
    | yes e ↦ rw (← e) Occupied-here
    | no n ↦ rw (entry_at-set_ne es k j x n) o
  ]

  pub Reached-set : {hash p i : ℕ} → Reached n' es hash p i → Reached n' (set es k x) hash p i
  Reached-set {hash} r = record {
    lands = r.lands;
    taken = λ q h. Occupied-set ((hash + q) % n') (r.taken q h);
    poorer = λ q h. elim (ℕ_discrete k ((hash + q) % n')) [
      | no n ↦ rw (entry_at-set_ne es k ((hash + q) % n') x n) (r.poorer q h)
      | yes e ↦
          rw (← e, here)
            (omega (arith, (rw (← e) at (r.poorer q h)), f.further (rw (← e) at (r.taken q h))))
    ];
  }

  stored : (i : ℕ) → k ≡ i → entry_at (set es k x) i ≡ x
  stored i e = rw (← e) here

  apart : (j : ℕ) → j < n' → k ≢ j → Occupied (set es k x) j → (entry_at (set es k x) j).key ≢ x.key
  apart j h n p e =
      let s = entry_at-set_ne es k j x n in
      n (sym (f.fresh j h (rw s at p) (sym (ap (λ u. u.key) s) ∙ e)))

  -- A store of an entry that fits keeps the table in order.
  pub set-Ordered : Ordered n' es → Ordered n' (set es k x)
  set-Ordered o = record {
    hashed = λ i h p. elim (ℕ_discrete k i) [
      | yes e ↦ rw (← e, here) f.hashed
      | no n ↦ let s = entry_at-set_ne es k i x n in rw s (o.hashed i h (rw s at p))
    ];
    reach = λ i h p. elim (ℕ_discrete k i) [
      | yes e ↦ rw (← e, here) (Reached-set f.reached)
      | no n ↦ let s = entry_at-set_ne es k i x n in rw s (Reached-set (o.reach i h (rw s at p)))
    ];
    unique = λ i j h g p q e. elim (ℕ_discrete k i) [
      | yes a ↦ elim (ℕ_discrete k j) [
        | yes b ↦ sym a ∙ b
        | no b ↦ absurd (apart j g b q (sym e ∙ ap (λ u. u.key) (stored i a)))
      ]
      | no a ↦ elim (ℕ_discrete k j) [
        | yes b ↦ absurd (apart i h a p (e ∙ ap (λ u. u.key) (stored j b)))
        | no b ↦
            let s = entry_at-set_ne es k i x a in
            let t = entry_at-set_ne es k j x b in
            o.unique i j h g (rw s at p) (rw t at q)
              (sym (ap (λ u. u.key) s) ∙ e ∙ ap (λ u. u.key) t)
      ]
    ];
    alive = λ i. elim (ℕ_discrete k i) [
      | yes e ↦ rw (← e, here, f.live) (λ z. cc)
      | no n ↦ rw (entry_at-set_ne es k i x n) (o.alive i)
    ];
  }
