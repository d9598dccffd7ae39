-- ===== src/BTree/Insertion.antt =====
-- `insert_nonfull` of src/btree.c on a subtree whose root has room.
use zedis.Base.{
  ℕ, zero, suc, ◌+◌, ◌-◌, ◌≤◌, ◌<◌, ◌≡◌, refl, sym, ap, ◌∙◌, some, List, ◌∷◌, ◌++◌, take, drop,
  arith, inl, inr, if◌then◌else◌, Bool-cases,
}
use zedis.Base.Int.{ℤ}
use zedis.Base.Status.{Status, ok}
use zedis.Slab.Pools.{In, Distinct}
use zedis.BTree.{Tree, node_at, slot_at}
use zedis.BTree.Insert.{insert_into_leaf, insert_nonfull, child_pos, next_child, descend}
use zedis.BTree.Owned.{Owns, Each-cast, Each-split, inner-Below, In-cast, Distinct-cast}
use zedis.BTree.Steps.{Room}
use zedis.BTree.Place.{Inserted}
use zedis.BTree.Descend.{child_pos-bound, leaf-Inserted, take-around, Inserted-cast}
use zedis.BTree.Passage.{Owns-cast, passes}

-- `insert_nonfull` on a subtree of at most `h` levels whose root has room for a key, with `h` units of fuel,
-- ends. It returns 0 with the new entry among the entries, or -1 with the entries as they were; either way
-- the entries keep their order, the subtree consists of its own nodes and new ones, and no other node of
-- the array changes.
pub insert_nonfull-Inserted :
    (h : ℕ) (score : ℤ) (midx : ℕ) (t : Tree) (idx : ℕ) (own xs : List ℕ)
    → Room t
    → Owns h t idx own xs
    → (node_at t idx).count < 3
    → Distinct own
    → ((i : ℕ) → In i own → i < t.free_node)
    → (s : Status) × (t' : Tree) × (insert_nonfull h t idx score midx ≡ some (s, t'))
      × Inserted h t idx own xs midx s t'
unfolding insert_nonfull
insert_nonfull-Inserted zero score midx t idx own xs r o few d low = elim o [ ]
insert_nonfull-Inserted (suc h) score midx t idx own xs r (formed, body) few d low =
    elim (Bool-cases (node_at t idx).is_leaf) [
      | inl l ↦ (
        ok,
        insert_into_leaf t idx score midx,
        rw l refl,
        leaf-Inserted h t idx own xs score midx r formed few body d low l,
      )
      | inr l ↦
          let n : ℕ = (node_at t idx).count in
          let slots : List ℕ = (node_at t idx).slots in
          let i : ℕ = child_pos n (node_at t idx) score 0 in
          let at_most : i ≤ n = omega (arith, child_pos-bound n (node_at t idx) score 0) in
          let P : ℕ → List ℕ → List ℕ → Type 0 = λ c o x. Owns h t c o x in
          let (rest, a, each) =
            inner-Below P (node_at t idx) idx own xs (node_at t idx).is_leaf l body in
          let around : take i slots ++ slot_at (node_at t idx) i ∷ take (n - i) (drop (suc i) slots)
              ≡ take (n + 1) slots =
            take-around i (n - i) 0 slots (omega (arith, at_most, few, formed.four_slots))
            ∙ ap (λ k. take k slots)
                (let e : i + suc (n - i) ≡ n + 1 = omega (arith, at_most) in e) in
          let (o1, ob, x1, xb, e1, (oc, o2, xc, x2, ec, e2, ub, vb), u, v) =
            Each-split P (take i slots)
              (slot_at (node_at t idx) i ∷ take (n - i) (drop (suc i) slots)) rest xs
              (Each-cast P _ _ rest xs (sym around) each) in
          let own_eq : own ≡ idx ∷ (o1 ++ (oc ++ o2)) =
            a ∙ ap (◌∷◌ idx) (u ∙ ap (λ k. o1 ++ k) ub) in
          let xs_eq : xs ≡ x1 ++ (xc ++ x2) = v ∙ ap (λ k. x1 ++ k) vb in
          let (s, t', e, ins) =
            passes h midx score (λ u c. insert_nonfull h u c score midx)
              (λ u c o x r2 p q d2 l2. insert_nonfull-Inserted h score midx u c o x r2 p q d2 l2) t
              idx r formed few l o1 oc o2 x1 xc x2 e1 ec e2 (Distinct-cast own _ own_eq d)
              (λ j p. low j (In-cast j _ own (sym own_eq) p))
              (Owns-cast (suc h) t idx own _ xs _ own_eq xs_eq (formed, body)) in
          (
            s,
            t',
            ap
                  (λ b.
                    if b
                    then some (ok, insert_into_leaf t idx score midx)
                    else descend (λ u c. insert_nonfull h u c score midx) (next_child t idx score))
                  l
                ∙ e,
            Inserted-cast (suc h) t idx _ own _ xs midx s t' (sym own_eq) (sym xs_eq) ins,
          )
    ]
