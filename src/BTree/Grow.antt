-- ===== src/BTree/Grow.antt =====
-- `split_leaf` and `split_internal` of src/btree.c: a full node becomes two.
use zedis.Base.{
  ℕ, suc, ◌+◌, ◌≤◌, ◌<◌, ◌≡◌, ◌≢◌, refl, sym, ◌∙◌, true, false, none, some, List, [], ◌∷◌, ◌++◌,
  take, drop, arith, inl, inr, ◌⊎◌, leb, Bool-cases, get_or-set_self, get_or-set_ne, length-set,
  set, replicate, le→leb, lt→leb, leb→le,
}
use zedis.Base.Int.{ℤ, pos}
use zedis.Slab.Pools.{In, Distinct}
use zedis.BTree.{Node, Tree, node_at, with_node, zero_node, alloc_node, key_at}
use zedis.BTree.Insert.{Split, copy_cells, split_leaf, split_internal, split_node}
use zedis.BTree.Cells.{length-copy_cells, take-copy_cells}
use zedis.BTree.Owned.{
  Each, Formed, Owns, Below-inner, leaf-Below, inner-Below, Below-head, Each-cast, Owns-frame,
  Each-split, Each-map, Distinct-left, Distinct-right, Distinct-append, Distinct-Apart, In-left,
  In-right,
}
use zedis.BTree.Steps.{Room, Step}

-- Two nodes written, the second of them new.
module _ (t : Tree) (c : ℕ) (left right : Node) (r : Room t) (old : c < t.free_node)
    (room : t.free_node < t.max_nodes) where
  halved : Tree
  halved = with_node (with_node (record t { free_node = t.free_node + 1 }) c left) t.free_node right

  at_new : node_at halved t.free_node ≡ right
  unfolding halved
  at_new =
      get_or-set_self (set t.nodes c left) t.free_node right zero_node
        (omega (arith, length-set t.nodes c left, r.nodes))

  at_old : node_at halved c ≡ left
  unfolding halved
  at_old =
      get_or-set_ne (set t.nodes c left) t.free_node c right zero_node (λ e. omega (arith, e))
      ∙ get_or-set_self t.nodes c left zero_node (omega (arith, r.nodes))

  at_other : (i : ℕ) → c ≢ i → i < t.free_node → node_at halved i ≡ node_at t i
  unfolding halved
  at_other i n h =
      get_or-set_ne (set t.nodes c left) t.free_node i right zero_node (λ e. omega (arith, e))
      ∙ get_or-set_ne t.nodes c i left zero_node n

  halved-next : halved.free_node ≡ t.free_node + 1
  unfolding halved
  halved-next = refl

  halved-Step : (own : List ℕ) → In c own → Step t halved own
  unfolding halved
  halved-Step own p = record {
    room = record {
      limit = omega arith;
      nodes =
          length-set (set t.nodes c left) t.free_node right ∙ (length-set t.nodes c left ∙ r.nodes);
    };
    grows = omega arith;
    same_max = refl;
    same_members = refl;
    same_count = refl;
    same_limit = refl;
    same_root = refl;
    kept = λ i n h. at_other i (λ e. n (rw e at p)) h;
  }

-- What a split of a full node does.
pub data Halves (h : ℕ) (t : Tree) (c : ℕ) (own xs : List ℕ) (r : Split) : Type 0 where
  no_room : r ≡ (none, t) → Halves h t c own xs r
  two_halves :
      (key : ℤ) (t' : Tree) (o1 o2 x1 x2 : List ℕ)
      → r ≡ (some (t.free_node, key), t')
      → Step t t' own
      → t'.free_node ≡ t.free_node + 1
      → Owns h t' c o1 x1
      → Owns h t' t.free_node o2 x2
      → xs ≡ x1 ++ x2
      → ((i : ℕ) → In i o1 → In i own)
      → ((i : ℕ) → In i o2 → In i own ⊎ (i ≡ t.free_node))
      → Distinct (o1 ++ o2)
      → (node_at t' c).count < 3
      → (node_at t' t.free_node).count < 3
      → Halves h t c own xs r

take-split3 : (xs : List ℕ) → take 3 xs ≡ take 2 xs ++ take 1 (drop 2 xs)
take-split3 [] = refl
take-split3 (a ∷ []) = refl
take-split3 (a ∷ b ∷ []) = refl
take-split3 (a ∷ b ∷ c ∷ xs) = refl

take-split4 : (xs : List ℕ) → take 4 xs ≡ take 2 xs ++ take 2 (drop 2 xs)
take-split4 [] = refl
take-split4 (a ∷ []) = refl
take-split4 (a ∷ b ∷ []) = refl
take-split4 (a ∷ b ∷ c ∷ []) = refl
take-split4 (a ∷ b ∷ c ∷ d ∷ xs) = refl

abbrev leaf_right : Node → Node
leaf_right node = record {
  keys = copy_cells 1 node.keys 2 (pos 0) (replicate 3 (pos 0));
  slots = copy_cells 1 node.slots 2 0 (replicate 4 0);
  is_leaf = true;
  count = 1;
}

abbrev internal_right : Node → Node
internal_right node = record {
  keys = copy_cells 1 node.keys 2 (pos 0) (replicate 3 (pos 0));
  slots = copy_cells 2 node.slots 2 0 (replicate 4 0);
  is_leaf = false;
  count = 1;
}

Distinct-pair : (a b : ℕ) → a ≢ b → Distinct (a ∷ b ∷ [])
Distinct-pair a b n = ((λ p. elim p [ inl e ↦ n e | inr q ↦ q ]), ((λ p. p), tt))

module _ (h : ℕ) (t : Tree) (c : ℕ) (r : Room t) (old : c < t.free_node)
    (formed : Formed (node_at t c)) (three : (node_at t c).count ≡ 3) where
  split_leaf-full : t.max_nodes ≤ t.free_node → split_leaf t c ≡ (none, t)
  unfolding split_leaf alloc_node
  split_leaf-full e = rw (le→leb t.max_nodes t.free_node e) refl

  split_internal-full : t.max_nodes ≤ t.free_node → split_internal t c ≡ (none, t)
  unfolding split_internal alloc_node
  split_internal-full e = rw (le→leb t.max_nodes t.free_node e) refl

  module _ (room : t.free_node < t.max_nodes) where
    split_leaf-room : split_leaf t c ≡ (
      some (t.free_node, key_at (node_at t c) 2),
      halved t c (record (node_at t c) { count = 2 }) (leaf_right (node_at t c)) r old room,
    )
    unfolding split_leaf alloc_node halved
    split_leaf-room = rw (lt→leb t.max_nodes t.free_node room, three) refl

    split_internal-room : split_internal t c ≡ (
      some (t.free_node, key_at (node_at t c) 1),
      halved t c (record (node_at t c) { count = 1 }) (internal_right (node_at t c)) r old room,
    )
    unfolding split_internal alloc_node halved
    split_internal-room = rw (lt→leb t.max_nodes t.free_node room, three) refl

    right-Formed : Formed (leaf_right (node_at t c))
    right-Formed = record {
      three_keys = length-copy_cells 1 (node_at t c).keys 2 (pos 0) (replicate 3 (pos 0));
      four_slots = length-copy_cells 1 (node_at t c).slots 2 0 (replicate 4 0);
      few = omega arith;
    }

    internal_right-Formed : Formed (internal_right (node_at t c))
    internal_right-Formed = record {
      three_keys = length-copy_cells 1 (node_at t c).keys 2 (pos 0) (replicate 3 (pos 0));
      four_slots = length-copy_cells 2 (node_at t c).slots 2 0 (replicate 4 0);
      few = omega arith;
    }

    left-Formed : (n : ℕ) → n ≤ 3 → Formed (record (node_at t c) { count = n })
    left-Formed n k = record {
      three_keys = formed.three_keys;
      four_slots = formed.four_slots;
      few = k;
    }

    split_leaf-Halves :
        (node_at t c).is_leaf ≡ true
        → Halves (suc h) t c (c ∷ []) (take 3 (node_at t c).slots) (split_leaf t c)
    split_leaf-Halves leaf =
        let L : Node = record (node_at t c) { count = 2 } in
        let R : Node = leaf_right (node_at t c) in
        let one = at_old t c L R r old room in
        let two = at_new t c L R r old room in
        two_halves (key_at (node_at t c) 2) (halved t c L R r old room) (c ∷ []) (t.free_node ∷ [])
          (take 2 (node_at t c).slots) (take 1 (drop 2 (node_at t c).slots)) split_leaf-room
          (halved-Step t c L R r old room (c ∷ []) (inl refl)) (halved-next t c L R r old room)
          (rw one (left-Formed 2 (omega arith), rw leaf (refl, refl)))
          (rw two (
            right-Formed,
            (
              refl,
              sym (
                  take-copy_cells 1 (node_at t c).slots 2 0 (replicate 4 0)
                    (omega (arith, formed.four_slots)) (omega arith)),
            ),
          ))
          (take-split3 (node_at t c).slots) (λ i p. p)
          (λ i p. elim p [ inl e ↦ inr e | inr q ↦ elim q [ ] ])
          (Distinct-pair c t.free_node (λ e. omega (arith, e))) (rw one (omega arith))
          (rw two (omega arith))

    split_internal-Halves :
        (rest xs : List ℕ)
        → (node_at t c).is_leaf ≡ false
        → Each (λ d o x. Owns h t d o x) (take 4 (node_at t c).slots) rest xs
        → Distinct (c ∷ rest)
        → ((i : ℕ) → In i rest → i < t.free_node)
        → Halves (suc h) t c (c ∷ rest) xs (split_internal t c)
    split_internal-Halves rest xs inner each d below =
        let L : Node = record (node_at t c) { count = 1 } in
        let R : Node = internal_right (node_at t c) in
        let t' : Tree = halved t c L R r old room in
        let one = at_old t c L R r old room in
        let two = at_new t c L R r old room in
        let slots : List ℕ = (node_at t c).slots in
        let P : ℕ → List ℕ → List ℕ → Type 0 = λ e o x. Owns h t e o x in
        let Q : ℕ → List ℕ → List ℕ → Type 0 = λ e o x. Owns h t' e o x in
        let (r1, r2, x1, x2, e1, e2, a, b) =
          Each-split P (take 2 slots) (take 2 (drop 2 slots)) rest xs
            (rw (take-split4 slots) at each) in
        let moved : (e : ℕ) (o x : List ℕ)
            → ((i : ℕ) → In i o → In i rest)
            → Owns h t e o x
            → Owns h t' e o x =
          λ e o x sub p.
            Owns-frame h t t' e o x
              (λ i q.
                at_other t c L R r old room i (λ z. d.0 (rw (sym z) at (sub i q)))
                  (below i (sub i q)))
              p in
        let f1 =
          Each-map P Q (take 2 slots) r1 x1
            (λ e o x sub p. moved e o x (λ i q. rw a (In-left i r1 r2 (sub i q))) p) e1 in
        let f2 =
          Each-map P Q (take 2 (drop 2 slots)) r2 x2
            (λ e o x sub p. moved e o x (λ i q. rw a (In-right i r1 r2 (sub i q))) p) e2 in
        let d' : Distinct (c ∷ (r1 ++ r2)) = rw a at d in
        two_halves (key_at (node_at t c) 1) t' (c ∷ r1) (t.free_node ∷ r2) x1 x2 split_internal-room
          (halved-Step t c L R r old room (c ∷ rest) (inl refl)) (halved-next t c L R r old room)
          (rw one
            (left-Formed 1 (omega arith), Below-inner Q L c r1 x1 (node_at t c).is_leaf inner f1))
          (rw two (
            internal_right-Formed,
            (
              r2,
              refl,
              Each-cast Q (take 2 (drop 2 slots)) (take 2 R.slots) r2 x2
                  (sym (
                    take-copy_cells 2 slots 2 0 (replicate 4 0) (omega (arith, formed.four_slots))
                      (omega arith)))
                  f2,
            ),
          ))
          b (λ i p. elim p [ inl e ↦ inl e | inr q ↦ inr (rw a (In-left i r1 r2 q)) ])
          (λ i p. elim p [ inl e ↦ inr e | inr q ↦ inl (inr (rw a (In-right i r1 r2 q))) ])
          (Distinct-append (c ∷ r1) (t.free_node ∷ r2) (Distinct-left (c ∷ r1) r2 d')
            (
              (λ p. let l = below t.free_node (rw a (In-right t.free_node r1 r2 p)) in omega arith),
              Distinct-right (c ∷ r1) r2 d',
            )
            (λ i p q. elim q [
              | inl e ↦ elim p [
                | inl f ↦ absurd (omega (arith, e, f))
                | inr g ↦ let l = below i (rw a (In-left i r1 r2 g)) in absurd (omega (arith, e))
              ]
              | inr g ↦ Distinct-Apart (c ∷ r1) r2 d' i p g
            ]))
          (rw one (omega arith)) (rw two (omega arith))

-- Splitting a full node of a subtree: it fails and changes nothing when no node is free; otherwise the
-- entries of the two halves, one after the other, are the entries of the subtree, the right half is a new
-- node, no node belongs to both, and both have room for a key.
pub split_node-Halves :
    (h : ℕ) (t : Tree) (c : ℕ) (own xs : List ℕ)
    → Room t
    → Owns (suc h) t c own xs
    → (node_at t c).count ≡ 3
    → Distinct own
    → ((i : ℕ) → In i own → i < t.free_node)
    → Halves (suc h) t c own xs (split_node t c)
split_node-Halves h t c own xs r (formed, body) three d below =
    elim (Bool-cases (leb t.max_nodes t.free_node)) [
      | inl e ↦
          let full = leb→le _ _ e in
          elim (Bool-cases (node_at t c).is_leaf) [
            | inl l ↦ rw (l, split_leaf-full h t c r old formed three full) (no_room refl)
            | inr l ↦ rw (l, split_internal-full h t c r old formed three full) (no_room refl)
          ]
      | inr e ↦
          let room : t.free_node < t.max_nodes = under _ _ e in
          elim (Bool-cases (node_at t c).is_leaf) [
            | inl l ↦
                let (a, b) = leaf-Below P (node_at t c) c own xs (node_at t c).is_leaf l body in
                rw (a, b, three, l) (split_leaf-Halves h t c r old formed three room l)
            | inr l ↦
                let (rest, a, each) =
                  inner-Below P (node_at t c) c own xs (node_at t c).is_leaf l body in
                rw (a, l)
                  (split_internal-Halves h t c r old formed three room rest xs l (rw three at each)
                    (rw a at d) (λ i p. below i (rw a (inr p))))
          ]
    ]
  where
    P : ℕ → List ℕ → List ℕ → Type 0
    P e o x = Owns h t e o x

    old : c < t.free_node
    old = below c (Below-head P (node_at t c) c own xs (node_at t c).is_leaf body)

    under : (a b : ℕ) → leb a b ≡ false → b < a
    under a b e = ground arith
