-- ===== src/BTree/Leaves.antt =====
-- The entries that a subtree of src/btree.c owns are those that a walk from left to right meets.
use zedis.Base.{
  ℕ, zero, suc, ◌+◌, ◌≡◌, sym, ap, ◌∙◌, Option, some, List, [], ◌∷◌, if◌then◌else◌, Bool-cases, inl,
  inr, take,
}
use zedis.BTree.{Tree, node_at}
use zedis.BTree.Owned.{Each, Owns, leaf-Below, inner-Below}
use zedis.BTree.Walk.{concat_children, inorder}

concat_children-Each :
    (P : ℕ → List ℕ → List ℕ → Type 0) (walk : ℕ → Option (List ℕ)) (cs own xs : List ℕ)
    → ((c : ℕ) (o x : List ℕ) → P c o x → walk c ≡ some x)
    → Each P cs own xs
    → concat_children walk cs ≡ some xs
concat_children-Each P walk [] own xs f (a, b) = ap some (sym b)
concat_children-Each P walk (c ∷ cs) own xs f (o1, o2, x1, x2, p, e, a, b) =
    rw (f c o1 x1 p, concat_children-Each P walk cs o2 x2 f e) (ap some (sym b))

-- A subtree of at most `h` levels is walked with `h` units of fuel, and the walk meets its entries.
pub inorder-Owns :
    (h : ℕ) (t : Tree) (idx : ℕ) (own xs : List ℕ) → Owns h t idx own xs → inorder h t idx ≡ some xs
unfolding inorder
inorder-Owns zero t idx own xs o = elim o [ ]
inorder-Owns (suc h) t idx own xs (formed, body) = elim (Bool-cases (node_at t idx).is_leaf) [
  | inl l ↦
      let (a, b) =
        leaf-Below (λ c o x. Owns h t c o x) (node_at t idx) idx own xs (node_at t idx).is_leaf l
          body in
      rw l (ap some (sym b))
  | inr l ↦
      let (rest, a, each) =
        inner-Below (λ c o x. Owns h t c o x) (node_at t idx) idx own xs (node_at t idx).is_leaf l
          body in
      ap
        (λ b.
          if b
          then some (take (node_at t idx).count (node_at t idx).slots)
          else concat_children (λ c. inorder h t c)
              (take ((node_at t idx).count + 1) (node_at t idx).slots))
        l
      ∙ concat_children-Each (λ c o x. Owns h t c o x) (λ c. inorder h t c) _ rest xs
          (λ c o x p. inorder-Owns h t c o x p) each
]
