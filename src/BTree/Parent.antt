-- ===== src/BTree/Parent.antt =====
-- `insert_nonfull` of src/btree.c: a node that is passed after one of its children was split.
use zedis.Base.{
  ℕ, suc, ◌+◌, ◌-◌, ◌%◌, ◌^◌, ◌≤◌, ◌<◌, ◌≡◌, ◌≢◌, refl, sym, ap, ◌∙◌, false, some, List, [], ◌∷◌,
  ◌++◌, take, drop, arith, inl, inr, ◌⊎◌, if◌then◌else◌, get_or-set_self, get_or-set_ne, length-set,
  set, append_assoc, append-nil,
}
use zedis.Base.Int.{ℤ, pos, leb_ℤ}
use zedis.Base.Status.{Status}
use zedis.Slab.Pools.{In, Distinct}
use zedis.BTree.{Node, Tree, node_at, with_node, zero_node, slot_at}
use zedis.BTree.Insert.{shift_up, with_child, split_child}
use zedis.BTree.Cells.{length-shift_up, insert_cells, take-snoc}
use zedis.BTree.Owned.{
  Each, Formed, Owns, Owns-frame, Each-map, Each-append, Owns-head, Distinct-right, Distinct-Apart,
  In-left, In-right, In-either, In-cast, Distinct-cast,
}
use zedis.BTree.Steps.{Room, Step, Step-trans}
use zedis.BTree.Place.{
  Inserted, write-Step, Step-widen, replaced-Distinct, Inserted-after, child-Inserted,
}
use zedis.BTree.Descend.{Inserted-cast}

-- A parent after the split of one of its children.
module _ (h : ℕ) (t : Tree) (idx : ℕ) (i : ℕ) (o1 oc o2 x1 xc x2 : List ℕ) (r : Room t)
    (formed : Formed (node_at t idx)) (few : (node_at t idx).count < 3)
    (inner : (node_at t idx).is_leaf ≡ false) (at : i ≤ (node_at t idx).count)
    (e1 : Each (λ d o x. Owns h t d o x) (take i (node_at t idx).slots) o1 x1)
    (e2 : Each
      (λ d o x. Owns h t d o x)
      (take ((node_at t idx).count - i) (drop (suc i) (node_at t idx).slots))
      o2
      x2)
    (d : Distinct (idx ∷ (o1 ++ (oc ++ o2))))
    (low : (j : ℕ) → In j (idx ∷ (o1 ++ (oc ++ o2))) → j < t.free_node) (key : ℤ) (t1 : Tree)
    (p1 p2 y1 y2 : List ℕ) (step : Step t t1 oc) (next : t1.free_node ≡ t.free_node + 1)
    (left : Owns h t1 (slot_at (node_at t idx) i) p1 y1) (right : Owns h t1 t.free_node p2 y2)
    (old : (j : ℕ) → In j p1 → In j oc) (new : (j : ℕ) → In j p2 → In j oc ⊎ (j ≡ t.free_node))
    (apart : Distinct (p1 ++ p2)) where
  parent : Node
  parent = with_child (node_at t idx) i key t.free_node

  pub widened : Tree
  unfolding parent
  widened = with_node t1 idx parent

  not_child : ¬ In idx oc
  not_child p = Distinct-Apart (idx ∷ o1) (oc ++ o2) d idx (inl refl) (In-left idx oc o2 p)

  unchanged : node_at t1 idx ≡ node_at t idx
  unchanged = step.kept idx not_child (low idx (inl refl))

  at_parent : node_at widened idx ≡ parent
  unfolding widened
  at_parent =
      get_or-set_self t1.nodes idx parent zero_node
        (omega (arith, low idx (inl refl), r.limit, step.room.nodes, step.same_max))

  at_other : (j : ℕ) → idx ≢ j → node_at widened j ≡ node_at t1 j
  unfolding widened
  at_other j n = get_or-set_ne t1.nodes idx j parent zero_node n

  parent-Formed : Formed parent
  unfolding parent
  parent-Formed =
      let n : ℕ = (node_at t idx).count in
      record {
        three_keys =
            length-set (shift_up n i (pos 0) (node_at t idx).keys) i key
            ∙ (length-shift_up n i (pos 0) (node_at t idx).keys ∙ formed.three_keys);
        four_slots =
            length-set (shift_up (n + 1) (i + 1) 0 (node_at t idx).slots) (i + 1) t.free_node
            ∙ (length-shift_up (n + 1) (i + 1) 0 (node_at t idx).slots ∙ formed.four_slots);
        few = omega (arith, few);
      }

  parent-inner : parent.is_leaf ≡ false
  unfolding parent
  parent-inner = inner

  -- The children: those in front, the two halves, and those behind.
  children :
      take i (node_at t idx).slots
        ++ slot_at (node_at t idx) i
          ∷ t.free_node
          ∷ take ((node_at t idx).count - i) (drop (suc i) (node_at t idx).slots)
      ≡ take (parent.count + 1) parent.slots
  unfolding parent
  children =
      let n : ℕ = (node_at t idx).count in
      let slots : List ℕ = (node_at t idx).slots in
      let more : (n + 1) % 2 ^ 8 + 1 ≡ suc (n + 1) = omega arith in
      let one : i + 1 ≡ suc i = omega arith in
      let left_over : n + 1 - suc i ≡ n - i = omega arith in
      sym (
        ap (λ k. take k (set (shift_up (n + 1) (i + 1) 0 slots) (i + 1) t.free_node)) more
        ∙ (insert_cells (n + 1) (i + 1) 0 t.free_node slots (omega arith)
              (omega (arith, formed.four_slots))
            ∙ (ap (λ k. take k slots ++ t.free_node ∷ take (n + 1 - k) (drop k slots)) one
                ∙ (ap (λ l. l ++ t.free_node ∷ take (n + 1 - suc i) (drop (suc i) slots))
                      (take-snoc i 0 slots (omega (arith, formed.four_slots)))
                    ∙ (append_assoc (take i slots) (slot_at (node_at t idx) i ∷ [])
                          (t.free_node ∷ take (n + 1 - suc i) (drop (suc i) slots))
                        ∙ ap
                            (λ k.
                              take i slots
                              ++ slot_at (node_at t idx) i
                                ∷ t.free_node
                                ∷ take k (drop (suc i) slots))
                            left_over)))))

  parent-Step : Step t widened (idx ∷ (o1 ++ (oc ++ o2)))
  unfolding widened
  parent-Step =
      Step-trans t t1 (with_node t1 idx parent) _ (idx ∷ [])
        (Step-widen t t1 oc _ step (λ j p. In-right j (idx ∷ o1) (oc ++ o2) (In-left j oc o2 p)))
        (write-Step t1 idx parent (idx ∷ []) step.room (inl refl))
        (λ j p l. elim p [ inl e ↦ inl e | inr q ↦ elim q [ ] ])

  halves-new : (j : ℕ) → In j (p1 ++ p2) → In j oc ⊎ (j ≡ t.free_node)
  halves-new j p = elim (In-either j p1 p2 p) [ inl q ↦ inl (old j q) | inr q ↦ new j q ]

  all-Distinct : Distinct (idx ∷ (o1 ++ ((p1 ++ p2) ++ o2)))
  all-Distinct = replaced-Distinct (idx ∷ o1) o2 oc (p1 ++ p2) d apart (λ j p.
      elim (halves-new j p) [
        | inl q ↦ inl q
        | inr e ↦ inr (λ q. let v = low j q in omega (arith, e))
      ])

  all-origin :
      (j : ℕ)
      → In j (idx ∷ (o1 ++ ((p1 ++ p2) ++ o2)))
      → In j (idx ∷ (o1 ++ (oc ++ o2))) ⊎ ((t.free_node ≤ j) × (j < t1.free_node))
  all-origin j p = elim (In-either j (idx ∷ o1) ((p1 ++ p2) ++ o2) p) [
    | inl q ↦ inl (In-left j (idx ∷ o1) (oc ++ o2) q)
    | inr q ↦ elim (In-either j (p1 ++ p2) o2 q) [
      | inl g ↦ elim (halves-new j g) [
        | inl k ↦ inl (In-right j (idx ∷ o1) (oc ++ o2) (In-left j oc o2 k))
        | inr e ↦ inr (omega (arith, e), omega (arith, e, next))
      ]
      | inr g ↦ inl (In-right j (idx ∷ o1) (oc ++ o2) (In-right j oc o2 g))
    ]
  ]

  moved :
      (e : ℕ) (o x : List ℕ) → ((j : ℕ) → In j o → idx ≢ j) → Owns h t1 e o x → Owns h widened e o x
  moved e o x n p = Owns-frame h t1 widened e o x (λ j q. at_other j (n j q)) p

  not_idx : (j : ℕ) → In j ((p1 ++ p2)) → idx ≢ j
  not_idx j p e = elim (halves-new j p) [
    | inl q ↦ not_child (rw (sym e) at q)
    | inr f ↦ let v = low idx (inl refl) in omega (arith, e, f)
  ]

  left' : Owns h widened (slot_at (node_at t idx) i) p1 y1
  left' = moved _ p1 y1 (λ j p. not_idx j (In-left j p1 p2 p)) left

  right' : Owns h widened t.free_node p2 y2
  right' = moved _ p2 y2 (λ j p. not_idx j (In-right j p1 p2 p)) right

  others :
      (cs o x : List ℕ)
      → ((j : ℕ) → In j o → In j o1 ⊎ In j o2)
      → Each (λ e u y. Owns h t e u y) cs o x
      → Each (λ e u y. Owns h widened e u y) cs o x
  others cs o x sub each =
      Each-map (λ e u y. Owns h t e u y) (λ e u y. Owns h widened e u y) cs o x
        (λ e u y inside p. Owns-frame h t widened e u y (λ j q. stays j (sub j (inside j q))) p)
        each
    where
      stays : (j : ℕ) → In j o1 ⊎ In j o2 → node_at widened j ≡ node_at t j
      stays j (inl q) =
          at_other j (λ e. d.0 (rw (sym e) at (In-left j o1 (oc ++ o2) q)))
          ∙ step.kept j (λ z. Distinct-Apart (idx ∷ o1) (oc ++ o2) d j (inr q) (In-left j oc o2 z))
              (low j (inr (In-left j o1 (oc ++ o2) q)))
      stays j (inr q) =
          at_other j (λ e. d.0 (rw (sym e) at (In-right j o1 (oc ++ o2) (In-right j oc o2 q))))
          ∙ step.kept j (λ z. Distinct-Apart oc o2 (Distinct-right (idx ∷ o1) (oc ++ o2) d) j z q)
              (low j (In-right j (idx ∷ o1) (oc ++ o2) (In-right j oc o2 q)))

  assoc2 : idx ∷ (o1 ++ ((p1 ++ p2) ++ o2)) ≡ idx ∷ (o1 ++ (p1 ++ (p2 ++ o2)))
  assoc2 = ap (λ l. idx ∷ (o1 ++ l)) (append_assoc p1 p2 o2)

  assoc3 : idx ∷ (o1 ++ (p1 ++ (p2 ++ o2))) ≡ idx ∷ ((o1 ++ p1) ++ (p2 ++ o2))
  assoc3 = ap (◌∷◌ idx) (sym (append_assoc o1 p1 (p2 ++ o2)))

  origin2 :
      (j : ℕ)
      → In j (idx ∷ (o1 ++ (p1 ++ (p2 ++ o2))))
      → In j (idx ∷ (o1 ++ (oc ++ o2))) ⊎ ((t.free_node ≤ j) × (j < widened.free_node))
  unfolding widened
  origin2 j p = all-origin j (In-cast j _ _ (sym assoc2) p)

  pub low2 : (j : ℕ) → In j (idx ∷ (o1 ++ (p1 ++ (p2 ++ o2)))) → j < widened.free_node
  low2 j p = elim (origin2 j p) [ inl q ↦ omega (arith, low j q, parent-Step.grows) | inr q ↦ q.1 ]

  distinct2 : Distinct (idx ∷ (o1 ++ (p1 ++ (p2 ++ o2))))
  distinct2 = Distinct-cast _ _ assoc2 all-Distinct

  f1 : Each (λ e u y. Owns h widened e u y) (take i (node_at t idx).slots) o1 x1
  f1 = others _ o1 x1 (λ j q. inl q) e1

  f2 :
      Each
        (λ e u y. Owns h widened e u y)
        (take ((node_at t idx).count - i) (drop (suc i) (node_at t idx).slots))
        o2
        x2
  f2 = others _ o2 x2 (λ j q. inr q) e2

  -- The insertion goes on in the left half.
  pub left-Inserted :
      (midx : ℕ) (s : Status) (t' : Tree)
      → Inserted h widened (slot_at (node_at t idx) i) p1 y1 midx s t'
      → Inserted (suc h) t idx (idx ∷ (o1 ++ (oc ++ o2))) (x1 ++ ((y1 ++ y2) ++ x2)) midx s t'
  left-Inserted midx s t' ins =
      Inserted-cast (suc h) t idx _ _ _ _ midx s t' refl
        (ap (λ l. x1 ++ l) (sym (append_assoc y1 y2 x2)))
        (Inserted-after (suc h) t widened t' idx _ _ _ midx s parent-Step origin2 (
          child-Inserted h widened t' idx (slot_at (node_at t idx) i) (take i (node_at t idx).slots)
            (t.free_node ∷ take ((node_at t idx).count - i) (drop (suc i) (node_at t idx).slots)) o1
            p1 (p2 ++ o2) x1 y1 (y2 ++ x2) midx s (rw at_parent parent-Formed)
            (rw at_parent parent-inner) (rw at_parent children) f1
            (p2, o2, y2, x2, right', f2, refl, refl) distinct2 low2 ins))

  -- The insertion goes on in the right half.
  pub right-Inserted :
      (midx : ℕ) (s : Status) (t' : Tree)
      → Inserted h widened t.free_node p2 y2 midx s t'
      → Inserted (suc h) t idx (idx ∷ (o1 ++ (oc ++ o2))) (x1 ++ ((y1 ++ y2) ++ x2)) midx s t'
  right-Inserted midx s t' ins =
      let c : ℕ = slot_at (node_at t idx) i in
      let front : List ℕ = take i (node_at t idx).slots in
      let back : List ℕ = take ((node_at t idx).count - i) (drop (suc i) (node_at t idx).slots) in
      let cs : (front ++ c ∷ []) ++ t.free_node ∷ back ≡ take (parent.count + 1) parent.slots =
        append_assoc front (c ∷ []) (t.free_node ∷ back) ∙ children in
      let halves : (x1 ++ y1) ++ (y2 ++ x2) ≡ x1 ++ ((y1 ++ y2) ++ x2) =
        append_assoc x1 y1 (y2 ++ x2) ∙ ap (λ l. x1 ++ l) (sym (append_assoc y1 y2 x2)) in
      Inserted-cast (suc h) t idx _ _ _ _ midx s t' refl halves (
        Inserted-after (suc h) t widened t' idx _ (idx ∷ ((o1 ++ p1) ++ (p2 ++ o2))) _ midx s
          parent-Step (λ j p. origin2 j (In-cast j _ _ (sym assoc3) p))
          (child-Inserted h widened t' idx t.free_node (front ++ c ∷ []) back (o1 ++ p1) p2 o2
            (x1 ++ y1) y2 x2 midx s (rw at_parent parent-Formed) (rw at_parent parent-inner)
            (rw at_parent cs)
            (Each-append (λ e u y. Owns h widened e u y) front (c ∷ []) o1 p1 x1 y1 f1
              (p1, [], y1, [], left', (refl, refl), sym (append-nil p1), sym (append-nil y1)))
            f2 (Distinct-cast _ _ assoc3 distinct2) (λ j p. low2 j (In-cast j _ _ (sym assoc3) p))
            ins))

  pub left2 : Owns h widened (slot_at (node_at t idx) i) p1 y1
  left2 = left'

  pub right2 : Owns h widened t.free_node p2 y2
  right2 = right'

  pub left-count :
      (node_at widened (slot_at (node_at t idx) i)).count
      ≡ (node_at t1 (slot_at (node_at t idx) i)).count
  left-count =
      ap (λ n. n.count) (at_other _ (not_idx _ (In-left _ p1 p2 (Owns-head h t1 _ p1 y1 left))))

  pub right-count : (node_at widened t.free_node).count ≡ (node_at t1 t.free_node).count
  right-count =
      ap (λ n. n.count) (at_other _ (not_idx _ (In-right _ p1 p2 (Owns-head h t1 _ p2 y2 right))))

  pub widened-Room : Room widened
  widened-Room = parent-Step.room

  pub split_child-eq :
      (score : ℤ)
      → split_child t idx i (slot_at (node_at t idx) i) score (some (t.free_node, key), t1)
        ≡ (some (if leb_ℤ key score then t.free_node else slot_at (node_at t idx) i), widened)
  unfolding widened parent
  split_child-eq score =
      ap
        (λ n. (
          some (if leb_ℤ key score then t.free_node else slot_at (node_at t idx) i),
          with_node t1 idx (with_child n i key t.free_node),
        ))
        unchanged
