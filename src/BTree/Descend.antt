-- ===== src/BTree/Descend.antt =====
-- `insert_nonfull` of src/btree.c: the leaf that is reached, and the way down to it.
use zedis.Base.{
  ℕ, zero, suc, ◌+◌, ◌-◌, ◌%◌, ◌^◌, ◌≤◌, ◌<◌, ◌≡◌, refl, sym, ap, ◌∙◌, true, List, [], ◌∷◌, ◌++◌,
  length, take, drop, arith, inl, inr, Bool-cases, get_or, get_or-set_self, length-set, take-split,
}
use zedis.Base.Int.{ℤ, pos, ltb_ℤ}
use zedis.Base.Status.{Status, ok}
use zedis.Slab.Pools.{In, Distinct}
use zedis.BTree.{
  Node, Tree, node_at, member_at, with_node, zero_node, score_member_cmp, key_at, slot_at,
}
use zedis.BTree.Insert.{
  shift_up, leaf_insert_at, is_positive, find_pos, leaf_find_pos, insert_into_leaf, child_pos,
}
use zedis.BTree.Cells.{length-shift_up, insert_cells}
use zedis.BTree.Owned.{Formed, Below, Owns, Below-leaf, leaf-Below}
use zedis.BTree.Steps.{Room}
use zedis.BTree.Place.{put, Inserted, write-Step}

find_pos-bound :
    (left : ℕ) (tree : Tree) (node : Node) (score : ℤ) (ins : List ℕ) (i : ℕ)
    → find_pos left tree node score ins i ≤ i + left
find_pos-bound zero tree node score ins i = omega arith
find_pos-bound (suc left) tree node score ins i =
    elim (Bool-cases (
      is_positive
        (score_member_cmp score ins (key_at node i) (member_at tree (slot_at node i)).bytes))) [
          | inl e ↦ rw e (omega (arith, find_pos-bound left tree node score ins (i + 1)))
          | inr e ↦ rw e (omega arith)
        ]

pub child_pos-bound :
    (left : ℕ) (node : Node) (score : ℤ) (i : ℕ) → child_pos left node score i ≤ i + left
child_pos-bound zero node score i = omega arith
child_pos-bound (suc left) node score i = elim (Bool-cases (ltb_ℤ (key_at node i) score)) [
  | inl e ↦ rw e (omega (arith, child_pos-bound left node score (i + 1)))
  | inr e ↦ rw e (omega arith)
]

module _ (h : ℕ) (t : Tree) (idx : ℕ) (own xs : List ℕ) (score : ℤ) (midx : ℕ) (r : Room t)
    (formed : Formed (node_at t idx)) (few : (node_at t idx).count < 3)
    (body : Below (λ c o x. Owns h t c o x) (node_at t idx) idx own xs (node_at t idx).is_leaf)
    (d : Distinct own) (low : (i : ℕ) → In i own → i < t.free_node) where
  pub leaf-Inserted :
      (node_at t idx).is_leaf ≡ true
      → Inserted (suc h) t idx own xs midx ok (insert_into_leaf t idx score midx)
  unfolding insert_into_leaf leaf_insert_at leaf_find_pos
  leaf-Inserted leaf =
      let node : Node = node_at t idx in
      let n : ℕ = node.count in
      let at : ℕ = leaf_find_pos t node score midx in
      let new : Node = leaf_insert_at node at score midx in
      let (a, b) = leaf-Below (λ c o x. Owns h t c o x) node idx own xs node.is_leaf leaf body in
      let at_most : at ≤ n =
        omega (arith, find_pos-bound n t node score (member_at t midx).bytes 0) in
      let inside : idx < t.free_node = low idx (rw a (inl refl)) in
      let here : node_at (with_node t idx new) idx ≡ new =
        get_or-set_self t.nodes idx new zero_node (omega (arith, r.limit, r.nodes)) in
      let count : (n + 1) % 2 ^ 8 ≡ suc n = omega arith in
      let cells : take (suc n) new.slots
          ≡ take at node.slots ++ midx ∷ take (n - at) (drop at node.slots) =
        insert_cells n at 0 midx node.slots at_most (omega (arith, formed.four_slots)) in
      let whole : take n node.slots ≡ take at node.slots ++ take (n - at) (drop at node.slots) =
        ap (λ k. take k node.slots) (let e : n ≡ at + (n - at) = omega arith in e)
        ∙ take-split at (n - at) node.slots in
      record {
        own' = idx ∷ [];
        xs' = take new.count new.slots;
        holds = rw here (
          record {
            three_keys =
                length-set (shift_up n at (pos 0) node.keys) at score
                ∙ (length-shift_up n at (pos 0) node.keys ∙ formed.three_keys);
            four_slots =
                length-set (shift_up n at 0 node.slots) at midx
                ∙ (length-shift_up n at 0 node.slots ∙ formed.four_slots);
            few = omega (arith, count);
          },
          Below-leaf (λ c o x. Owns h (with_node t idx new) c o x) new idx node.is_leaf leaf,
        );
        distinct = ((λ p. p), tt);
        origin = λ i p. inl (rw a p);
        step = write-Step t idx new own r (rw a (inl refl));
        entries =
            put (take at node.slots) (take (n - at) (drop at node.slots)) refl (b ∙ whole)
              (ap (λ k. take k new.slots) count ∙ cells);
      }

drop-cons : (i d : ℕ) (xs : List ℕ) → i < length xs → drop i xs ≡ get_or xs i d ∷ drop (suc i) xs
drop-cons i d [] h = absurd (omega arith)
drop-cons zero d (x ∷ xs) h = refl
drop-cons (suc i) d (x ∷ xs) h = drop-cons i d xs (omega arith)

pub take-around :
    (i m d : ℕ) (xs : List ℕ)
    → i < length xs
    → take i xs ++ get_or xs i d ∷ take m (drop (suc i) xs) ≡ take (i + suc m) xs
take-around i m d xs h =
    sym (take-split i (suc m) xs ∙ ap (λ l. take i xs ++ take (suc m) l) (drop-cons i d xs h))

pub Inserted-cast :
    (h : ℕ) (t : Tree) (idx : ℕ) (own own1 xs xs1 : List ℕ) (midx : ℕ) (s : Status) (t' : Tree)
    → own ≡ own1
    → xs ≡ xs1
    → Inserted h t idx own xs midx s t'
    → Inserted h t idx own1 xs1 midx s t'
Inserted-cast h t idx own own1 xs xs1 midx s t' a b ins = rw (a, b) at ins
