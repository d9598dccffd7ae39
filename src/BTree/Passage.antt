-- ===== src/BTree/Passage.antt =====
-- One level of `insert_nonfull` of src/btree.c: the child that is taken, split if it is full.
use zedis.Base.{
  ℕ, zero, suc, ◌-◌, ◌≤◌, ◌<◌, ◌≡◌, refl, sym, ap, ◌∙◌, true, false, Option, some, List, ◌∷◌, ◌++◌,
  take, drop, arith, inl, inr, leb, if◌then◌else◌, Bool-cases, lt→leb, le→leb, ltb, ltb→lt, ltb→le,
}
use zedis.Base.Int.{ℤ, leb_ℤ}
use zedis.Base.Status.{Status, failed}
use zedis.Slab.Pools.{In, Distinct}
use zedis.BTree.{Tree, node_at, slot_at, max_keys}
use zedis.BTree.Insert.{child_pos, split_child, next_child, split_node, descend}
use zedis.BTree.Owned.{Each, Formed, Owns, Distinct-left, Distinct-right, In-left, In-right}
use zedis.BTree.Grow.{Halves, no_room, two_halves, split_node-Halves}
use zedis.BTree.Steps.{Room, Step-refl}
use zedis.BTree.Place.{left_out, Inserted, child-Inserted}
use zedis.BTree.Descend.{child_pos-bound, take-around, Inserted-cast}
use zedis.BTree.Parent.{
  widened, low2, left-Inserted, right-Inserted, left2, right2, left-count, right-count,
  widened-Room, split_child-eq,
}

-- What a call on a subtree has to do.
abbrev pub Places : ℕ → ℕ → (Tree → ℕ → Option (Status × Tree)) → Type 0
Places h midx run =
    (t : Tree) (idx : ℕ) (own xs : List ℕ)
    → Room t
    → Owns h t idx own xs
    → (node_at t idx).count < 3
    → Distinct own
    → ((i : ℕ) → In i own → i < t.free_node)
    → (s : Status) × (t' : Tree) × (run t idx ≡ some (s, t')) × Inserted h t idx own xs midx s t'

unchanged-Inserted :
    (h : ℕ) (t : Tree) (idx : ℕ) (own xs : List ℕ) (midx : ℕ)
    → Room t
    → Owns h t idx own xs
    → Distinct own
    → Inserted h t idx own xs midx failed t
unchanged-Inserted h t idx own xs midx r o d = record {
  own' = own;
  xs' = xs;
  holds = o;
  distinct = d;
  origin = λ i p. inl p;
  step = Step-refl t own r;
  entries = left_out refl refl;
}

owns-Halves :
    (h : ℕ) (t : Tree) (c : ℕ) (own xs : List ℕ)
    → Room t
    → Owns h t c own xs
    → (node_at t c).count ≡ 3
    → Distinct own
    → ((i : ℕ) → In i own → i < t.free_node)
    → Halves h t c own xs (split_node t c)
owns-Halves zero t c own xs r o three d low = elim o [ ]
owns-Halves (suc h) t c own xs r o three d low = split_node-Halves h t c own xs r o three d low

owns-few :
    (h : ℕ) (t : Tree) (c : ℕ) (own xs : List ℕ) → Owns h t c own xs → (node_at t c).count ≤ 3
owns-few zero t c own xs o = elim o [ ]
owns-few (suc h) t c own xs (formed, below) = formed.few

pub Owns-cast :
    (h : ℕ) (t : Tree) (idx : ℕ) (own own1 xs xs1 : List ℕ)
    → own ≡ own1
    → xs ≡ xs1
    → Owns h t idx own xs
    → Owns h t idx own1 xs1
Owns-cast h t idx own own1 xs xs1 a b o = rw (a, b) at o

-- One step down from a node with room, when the call below does what it has to.
module _ (h : ℕ) (midx : ℕ) (score : ℤ) (run : Tree → ℕ → Option (Status × Tree))
    (below : Places h midx run) (t : Tree) (idx : ℕ) (r : Room t) (formed : Formed (node_at t idx))
    (few : (node_at t idx).count < 3) (inner : (node_at t idx).is_leaf ≡ false)
    (o1 oc o2 x1 xc x2 : List ℕ)
    (e1 : Each
      (λ d o x. Owns h t d o x)
      (take (child_pos (node_at t idx).count (node_at t idx) score 0) (node_at t idx).slots)
      o1
      x1)
    (ec : Owns h t
      (slot_at (node_at t idx) (child_pos (node_at t idx).count (node_at t idx) score 0))
      oc
      xc)
    (e2 : Each
      (λ d o x. Owns h t d o x)
      (take ((node_at t idx).count - child_pos (node_at t idx).count (node_at t idx) score 0) (
        drop (suc (child_pos (node_at t idx).count (node_at t idx) score 0)) (node_at t idx).slots))
      o2
      x2)
    (d : Distinct (idx ∷ (o1 ++ (oc ++ o2))))
    (low : (j : ℕ) → In j (idx ∷ (o1 ++ (oc ++ o2))) → j < t.free_node) where
  abbrev at : ℕ
  at = child_pos (node_at t idx).count (node_at t idx) score 0

  abbrev child : ℕ
  child = slot_at (node_at t idx) at

  at_most : at ≤ (node_at t idx).count
  at_most = omega (arith, child_pos-bound (node_at t idx).count (node_at t idx) score 0)

  child-Distinct : Distinct oc
  child-Distinct = Distinct-left oc o2 (Distinct-right (idx ∷ o1) (oc ++ o2) d)

  child-low : (j : ℕ) → In j oc → j < t.free_node
  child-low j p = low j (In-right j (idx ∷ o1) (oc ++ o2) (In-left j oc o2 p))

  Goal : Type 0
  Goal =
      (s : Status) × (t' : Tree) × (descend run (next_child t idx score) ≡ some (s, t'))
      × Inserted (suc h) t idx (idx ∷ (o1 ++ (oc ++ o2))) (x1 ++ (xc ++ x2)) midx s t'

  roomy : (node_at t child).count < 3 → Goal
  unfolding Goal
  roomy l =
      let (s, t', e, ins) = below t child oc xc r ec l child-Distinct child-low in
      let small : leb max_keys (node_at t child).count ≡ false = lt→leb _ _ l in
      (
        s,
        t',
        rw small e,
        child-Inserted h t t' idx child (take at (node_at t idx).slots) _ o1 oc o2 x1 xc x2 midx s
            formed inner
            (take-around at ((node_at t idx).count - at) 0 (node_at t idx).slots
                (omega (arith, at_most, few, formed.four_slots))
              ∙ ap (λ k. take k (node_at t idx).slots) (omega (arith, at_most)))
            e1 e2 d low ins,
      )

  split :
      Owns (suc h) t idx (idx ∷ (o1 ++ (oc ++ o2))) (x1 ++ (xc ++ x2))
      → (node_at t child).count ≡ 3
      → Halves h t child oc xc (split_node t child)
      → Goal
  unfolding Goal
  split owned three (no_room e) =
      let big : leb max_keys (node_at t child).count ≡ true = le→leb _ _ (omega (arith, three)) in
      (
        failed,
        t,
        rw (big, e) refl,
        unchanged-Inserted (suc h) t idx (idx ∷ (o1 ++ (oc ++ o2))) (x1 ++ (xc ++ x2)) midx r owned
            d,
      )
  split owned three
        (two_halves key t1 p1 p2 y1 y2 e step next left right whole old new apart few1 few2) =
      let big : leb max_keys (node_at t child).count ≡ true = le→leb _ _ (omega (arith, three)) in
      let t2 : Tree =
        widened h t idx at o1 oc o2 x1 xc x2 r formed few inner at_most e1 e2 d low key t1 p1 p2 y1
          y2 step next left right old new apart in
      let l2 =
        low2 h t idx at o1 oc o2 x1 xc x2 r formed few inner at_most e1 e2 d low key t1 p1 p2 y1 y2
          step next left right old new apart in
      let room2 =
        widened-Room h t idx at o1 oc o2 x1 xc x2 r formed few inner at_most e1 e2 d low key t1 p1
          p2 y1 y2 step next left right old new apart in
      let to : next_child t idx score
          ≡ (some (if leb_ℤ key score then t.free_node else child), t2) =
        step_to big
        ∙ (ap (split_child t idx at child score) e
            ∙ split_child-eq h t idx at o1 oc o2 x1 xc x2 r formed few inner at_most e1 e2 d low key
                t1 p1 p2 y1 y2 step next left right old new apart score) in
      elim (Bool-cases (leb_ℤ key score)) [
        | inl b ↦
            let o =
              right2 h t idx at o1 oc o2 x1 xc x2 r formed few inner at_most e1 e2 d low key t1 p1
                p2 y1 y2 step next left right old new apart in
            let c =
              right-count h t idx at o1 oc o2 x1 xc x2 r formed few inner at_most e1 e2 d low key t1
                p1 p2 y1 y2 step next left right old new apart in
            let (s, t', f, ins) =
              below t2 t.free_node p2 y2 room2 o (omega (arith, c, few2))
                (Distinct-right p1 p2 apart)
                (λ j p. l2 j (
                  In-right j (idx ∷ o1) (p1 ++ (p2 ++ o2))
                    (In-right j p1 (p2 ++ o2) (In-left j p2 o2 p)))) in
            (
              s,
              t',
              ap (descend run) (to ∙ ap (λ k. (some (if k then t.free_node else child), t2)) b) ∙ f,
              Inserted-cast (suc h) t idx _ _ _ _ midx s t' refl
                  (ap (λ l. x1 ++ (l ++ x2)) (sym whole))
                  (right-Inserted h t idx at o1 oc o2 x1 xc x2 r formed few inner at_most e1 e2 d
                    low key t1 p1 p2 y1 y2 step next left right old new apart midx s t' ins),
            )
        | inr b ↦
            let o =
              left2 h t idx at o1 oc o2 x1 xc x2 r formed few inner at_most e1 e2 d low key t1 p1 p2
                y1 y2 step next left right old new apart in
            let c =
              left-count h t idx at o1 oc o2 x1 xc x2 r formed few inner at_most e1 e2 d low key t1
                p1 p2 y1 y2 step next left right old new apart in
            let (s, t', f, ins) =
              below t2 child p1 y1 room2 o (omega (arith, c, few1)) (Distinct-left p1 p2 apart)
                (λ j p.
                  l2 j (In-right j (idx ∷ o1) (p1 ++ (p2 ++ o2)) (In-left j p1 (p2 ++ o2) p))) in
            (
              s,
              t',
              ap (descend run) (to ∙ ap (λ k. (some (if k then t.free_node else child), t2)) b) ∙ f,
              Inserted-cast (suc h) t idx _ _ _ _ midx s t' refl
                  (ap (λ l. x1 ++ (l ++ x2)) (sym whole))
                  (left-Inserted h t idx at o1 oc o2 x1 xc x2 r formed few inner at_most e1 e2 d low
                    key t1 p1 p2 y1 y2 step next left right old new apart midx s t' ins),
            )
      ]
    where
      step_to :
          leb max_keys (node_at t child).count ≡ true
          → next_child t idx score ≡ split_child t idx at child score (split_node t child)
      step_to big = rw big refl

  pub passes :
      Owns (suc h) t idx (idx ∷ (o1 ++ (oc ++ o2))) (x1 ++ (xc ++ x2))
      → (s : Status) × (t' : Tree) × (descend run (next_child t idx score) ≡ some (s, t'))
        × Inserted (suc h) t idx (idx ∷ (o1 ++ (oc ++ o2))) (x1 ++ (xc ++ x2)) midx s t'
  unfolding Goal
  passes owned = elim (Bool-cases (ltb (node_at t child).count 3)) [
    | inl e ↦ roomy (ltb→lt _ _ e)
    | inr e ↦
        let three : (node_at t child).count ≡ 3 =
          omega (arith, ltb→le _ _ e, owns-few h t child oc xc ec) in
        split owned three (owns-Halves h t child oc xc r ec three child-Distinct child-low)
  ]
