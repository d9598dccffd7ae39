-- ===== src/BTree/Walk.antt =====
-- The entries of a tree of src/btree.c from left to right, and the recursions that visit them.
use zedis.Base.{
  ℕ, zero, suc, ◌+◌, ◌^◌, ◌≤◌, ◌<◌, ltb, true, lt→ltb, ◌≡◌, refl, sym, ap, ◌∙◌, Option, none, some,
  List, [], ◌∷◌, ◌++◌, if◌then◌else◌, Bool-cases, inl, inr, length, take, length-take,
  length-append, min, arith,
}
use zedis.BTree.{
  Tree, node_at, member_at, member_equal, find_value, find_in_leaf, found_or, find_child,
  find_member,
}
use zedis.BTree.Read.{
  count_children, count_entries, Progress, Window, put_entry, put_values, carry, collect_children,
  collect_inorder,
}

abbrev pub joined : Option (List ℕ) → Option (List ℕ) → Option (List ℕ)
joined none ys = none
joined (some xs) none = none
joined (some xs) (some ys) = some (xs ++ ys)

abbrev pub concat_children : (ℕ → Option (List ℕ)) → List ℕ → Option (List ℕ)
concat_children walk [] = some []
concat_children walk (c ∷ children) = joined (walk c) (concat_children walk children)

-- The member indices in the leaves below a node, from left to right.
unfoldable pub inorder : ℕ → Tree → ℕ → Option (List ℕ)
inorder zero tree node_idx = none
inorder (suc fuel) tree node_idx =
    let node = node_at tree node_idx in
    let below = concat_children (λ c. inorder fuel tree c) (take (node.count + 1) node.slots) in
    if node.is_leaf then some (take node.count node.slots) else below

-- No node counts more entries than it has slots.
abbrev pub Sized : Tree → Type 0
Sized tree = (i : ℕ) → (node_at tree i).count ≤ length (node_at tree i).slots

joined-some :
    (o p : Option (List ℕ)) (xs : List ℕ)
    → joined o p ≡ some xs
    → (ys : List ℕ) × (zs : List ℕ) × (o ≡ some ys) × (p ≡ some zs) × (ys ++ zs ≡ xs)
joined-some (some ys) (some zs) xs h = (ys, zs, refl, refl, cc)
joined-some none p xs h = absurd cc
joined-some (some ys) none xs h = absurd cc

module _ (walk : ℕ → Option (List ℕ)) where
  count_children-concat :
      (count : ℕ → Option ℕ) (cs xs : List ℕ)
      → ((c : ℕ) (ys : List ℕ) → walk c ≡ some ys → length ys < 2 ^ 31 → count c ≡ some (length ys))
      → concat_children walk cs ≡ some xs
      → length xs < 2 ^ 31
      → count_children count cs ≡ some (length xs)
  count_children-concat count [] xs f h n = let e : [] ≡ xs = cc in ap (λ l. some (length l)) e
  count_children-concat count (c ∷ cs) xs f h n =
      let (ys, zs, a, b, e) = joined-some (walk c) (concat_children walk cs) xs h in
      let sum : length xs ≡ length ys + length zs = ap length (sym e) ∙ length-append ys zs in
      let fits : ltb (length ys + length zs) (2 ^ 31) ≡ true = lt→ltb _ _ (omega (arith, sum, n)) in
      rw
        (
          f c ys a (omega (arith, sum, n)),
          count_children-concat count cs zs f b (omega (arith, sum, n)),
          fits,
        )
        (ap some (sym sum))

  put_values-append :
      (tree : Tree) (w : Window) (xs ys : List ℕ) (p : Progress)
      → put_values tree w (xs ++ ys) p ≡ put_values tree w ys (put_values tree w xs p)
  put_values-append tree w [] ys p = refl
  put_values-append tree w (x ∷ xs) ys p =
      put_values-append tree w xs ys (put_entry w (member_at tree x) p)

  collect_children-concat :
      (tree : Tree) (w : Window) (collect : ℕ → Progress → Option Progress) (cs xs : List ℕ)
      (p : Progress)
      → ((c : ℕ) (ys : List ℕ) (q : Progress)
          → walk c ≡ some ys
          → collect c q ≡ some (put_values tree w ys q))
      → concat_children walk cs ≡ some xs
      → collect_children collect cs p ≡ some (put_values tree w xs p)
  collect_children-concat tree w collect [] xs p f h =
      let e : [] ≡ xs = cc in ap (λ l. some (put_values tree w l p)) e
  collect_children-concat tree w collect (c ∷ cs) xs p f h =
      let (ys, zs, a, b, e) = joined-some (walk c) (concat_children walk cs) xs h in
      ap (λ o. carry o (λ q. collect_children collect cs q)) (f c ys p a)
      ∙ (collect_children-concat tree w collect cs zs (put_values tree w ys p) f b
          ∙ ap some (sym (put_values-append tree w ys zs p) ∙ ap (λ l. put_values tree w l p) e))

  find_value-append :
      (tree : Tree) (xs ys member : List ℕ)
      → found_or (some (find_value tree xs member)) (some (find_value tree ys member))
        ≡ some (find_value tree (xs ++ ys) member)
  find_value-append tree [] ys member = refl
  find_value-append tree (x ∷ xs) ys member =
      elim (Bool-cases (member_equal (member_at tree x) member)) [
        | inl e ↦ rw e refl
        | inr e ↦ rw e (find_value-append tree xs ys member)
      ]

  find_child-concat :
      (tree : Tree) (find : ℕ → Option (Option ℕ)) (cs xs member : List ℕ)
      → ((c : ℕ) (ys : List ℕ) → walk c ≡ some ys → find c ≡ some (find_value tree ys member))
      → concat_children walk cs ≡ some xs
      → find_child find cs ≡ some (find_value tree xs member)
  find_child-concat tree find [] xs member f h =
      let e : [] ≡ xs = cc in ap (λ l. some (find_value tree l member)) e
  find_child-concat tree find (c ∷ cs) xs member f h =
      let (ys, zs, a, b, e) = joined-some (walk c) (concat_children walk cs) xs h in
      rw (f c ys a, find_child-concat tree find cs zs member f b, ← e)
        (find_value-append tree ys zs member)

-- The recursive count is the number of entries, when an `int` holds that.
pub count_entries-inorder :
    (fuel : ℕ) (tree : Tree) (idx : ℕ) (xs : List ℕ)
    → Sized tree
    → inorder fuel tree idx ≡ some xs
    → length xs < 2 ^ 31
    → count_entries fuel tree idx ≡ some (length xs)
unfolding inorder count_entries
count_entries-inorder zero tree idx xs s h n = absurd cc
count_entries-inorder (suc fuel) tree idx xs s h n = elim (Bool-cases (node_at tree idx).is_leaf) [
  | inl l ↦
      let e : some (take (node_at tree idx).count (node_at tree idx).slots) ≡ some xs = rw l at h in
      let f : take (node_at tree idx).count (node_at tree idx).slots ≡ xs = cc in
      rw (l, ← f)
        (ap some
          (sym (length-take (node_at tree idx).count (node_at tree idx).slots ∙ least _ _ (s idx))))
  | inr l ↦
      let e : concat_children (λ c. inorder fuel tree c)
            (take ((node_at tree idx).count + 1) (node_at tree idx).slots)
          ≡ some xs =
        rw l at h in
      rw l (
        count_children-concat (λ c. inorder fuel tree c) (λ c. count_entries fuel tree c) _ xs
          (λ c ys a m. count_entries-inorder fuel tree c ys s a m) e n)
]
  where
    least : (m n : ℕ) → m ≤ n → min m n ≡ m
    least m n h = omega arith

-- The recursive collection puts the entries one after another.
pub collect_inorder-inorder :
    (fuel : ℕ) (tree : Tree) (w : Window) (idx : ℕ) (p : Progress) (xs : List ℕ)
    → inorder fuel tree idx ≡ some xs
    → collect_inorder fuel tree w idx p ≡ some (put_values tree w xs p)
unfolding inorder collect_inorder
collect_inorder-inorder zero tree w idx p xs h = absurd cc
collect_inorder-inorder (suc fuel) tree w idx p xs h =
    elim (Bool-cases (node_at tree idx).is_leaf) [
      | inl l ↦
          let e : some (take (node_at tree idx).count (node_at tree idx).slots) ≡ some xs =
            rw l at h in
          let f : take (node_at tree idx).count (node_at tree idx).slots ≡ xs = cc in rw (l, f) refl
      | inr l ↦
          let e : concat_children (λ c. inorder fuel tree c)
                (take ((node_at tree idx).count + 1) (node_at tree idx).slots)
              ≡ some xs =
            rw l at h in
          rw l (
            collect_children-concat (λ c. inorder fuel tree c) tree w
              (λ c q. collect_inorder fuel tree w c q) _ xs p
              (λ c ys q a. collect_inorder-inorder fuel tree w c q ys a) e)
    ]

-- The recursive search is the search from left to right.
pub find_member-inorder :
    (fuel : ℕ) (tree : Tree) (idx : ℕ) (member xs : List ℕ)
    → inorder fuel tree idx ≡ some xs
    → find_member fuel tree idx member ≡ some (find_value tree xs member)
unfolding inorder find_member find_in_leaf
find_member-inorder zero tree idx member xs h = absurd cc
find_member-inorder (suc fuel) tree idx member xs h = elim (Bool-cases (node_at tree idx).is_leaf) [
  | inl l ↦
      let e : some (take (node_at tree idx).count (node_at tree idx).slots) ≡ some xs = rw l at h in
      let f : take (node_at tree idx).count (node_at tree idx).slots ≡ xs = cc in rw (l, f) refl
  | inr l ↦
      let e : concat_children (λ c. inorder fuel tree c)
            (take ((node_at tree idx).count + 1) (node_at tree idx).slots)
          ≡ some xs =
        rw l at h in
      rw l (
        find_child-concat (λ c. inorder fuel tree c) tree (λ c. find_member fuel tree c member) _ xs
          member (λ c ys a. find_member-inorder fuel tree c member ys a) e)
]
