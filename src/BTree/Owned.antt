-- ===== src/BTree/Owned.antt =====
-- Which nodes of src/btree.c belong to a subtree, and which entries it holds from left to right.
use zedis.Base.{
  ℕ, zero, suc, ◌+◌, ◌≤◌, ◌≡◌, refl, sym, ap, ◌∙◌, Bool, true, false, List, [], ◌∷◌, ◌++◌, length,
  take, inl, inr, ◌⊎◌, append_assoc,
}
use zedis.Slab.Pools.{In, Distinct}
use zedis.BTree.{Node, Tree, node_at}

pub In-left : (i : ℕ) (xs ys : List ℕ) → In i xs → In i (xs ++ ys)
In-left i [] ys p = elim p [ ]
In-left i (x ∷ xs) ys (inl e) = inl e
In-left i (x ∷ xs) ys (inr p) = inr (In-left i xs ys p)

pub In-right : (i : ℕ) (xs ys : List ℕ) → In i ys → In i (xs ++ ys)
In-right i [] ys p = p
In-right i (x ∷ xs) ys p = inr (In-right i xs ys p)

pub In-either : (i : ℕ) (xs ys : List ℕ) → In i (xs ++ ys) → In i xs ⊎ In i ys
In-either i [] ys p = inr p
In-either i (x ∷ xs) ys (inl e) = inl (inl e)
In-either i (x ∷ xs) ys (inr p) = elim (In-either i xs ys p) [ inl q ↦ inl (inr q) | inr q ↦ inr q ]

pub In-cast : (i : ℕ) (xs ys : List ℕ) → xs ≡ ys → In i xs → In i ys
In-cast i xs ys e p = rw e at p

pub Distinct-cast : (xs ys : List ℕ) → xs ≡ ys → Distinct xs → Distinct ys
Distinct-cast xs ys e d = rw e at d

-- Two lists without a number in common.
abbrev pub Apart : List ℕ → List ℕ → Type 0
Apart xs ys = (i : ℕ) → In i xs → In i ys → ⊥

pub Distinct-append :
    (xs ys : List ℕ) → Distinct xs → Distinct ys → Apart xs ys → Distinct (xs ++ ys)
Distinct-append [] ys d e a = e
Distinct-append (x ∷ xs) ys (n, d) e a = (
  (λ p. elim (In-either x xs ys p) [ inl q ↦ n q | inr q ↦ a x (inl refl) q ]),
  Distinct-append xs ys d e (λ i p q. a i (inr p) q),
)

pub Distinct-left : (xs ys : List ℕ) → Distinct (xs ++ ys) → Distinct xs
Distinct-left [] ys d = tt
Distinct-left (x ∷ xs) ys (n, d) = ((λ p. n (In-left x xs ys p)), Distinct-left xs ys d)

pub Distinct-right : (xs ys : List ℕ) → Distinct (xs ++ ys) → Distinct ys
Distinct-right [] ys d = d
Distinct-right (x ∷ xs) ys (n, d) = Distinct-right xs ys d

pub Distinct-Apart : (xs ys : List ℕ) → Distinct (xs ++ ys) → Apart xs ys
Distinct-Apart [] ys d i p q = elim p [ ]
Distinct-Apart (x ∷ xs) ys (n, d) i (inl e) q =
    n (In-right x xs ys (let f : x ≡ i = sym e in rw f q))
Distinct-Apart (x ∷ xs) ys (n, d) i (inr p) q = Distinct-Apart xs ys d i p q

-- The predicate holds of each child, with the nodes and the entries in order.
abbrev pub Each : (ℕ → List ℕ → List ℕ → Type 0) → List ℕ → List ℕ → List ℕ → Type 0
Each P [] own xs = (own ≡ []) × (xs ≡ [])
Each P (c ∷ cs) own xs =
    (o1 : List ℕ) × (o2 : List ℕ) × (x1 : List ℕ) × (x2 : List ℕ) × P c o1 x1
    × Each P cs o2 x2
    × (own ≡ o1 ++ o2)
    × (xs ≡ x1 ++ x2)

pub record Formed (node : Node) : Type 0 where
  pub three_keys : length node.keys ≡ 3
  pub four_slots : length node.slots ≡ 4
  pub few : node.count ≤ 3

abbrev pub Below : (ℕ → List ℕ → List ℕ → Type 0) → Node → ℕ → List ℕ → List ℕ → Bool → Type 0
Below P node idx own xs true = (own ≡ idx ∷ []) × (xs ≡ take node.count node.slots)
Below P node idx own xs false =
    (rest : List ℕ) × (own ≡ idx ∷ rest) × Each P (take (node.count + 1) node.slots) rest xs

-- The subtree at `idx`, of at most `h` levels, consists of the nodes `own` and holds the entries `xs`.
abbrev pub Owns : ℕ → Tree → ℕ → List ℕ → List ℕ → Type 0
Owns zero tree idx own xs = ⊥
Owns (suc h) tree idx own xs =
    Formed (node_at tree idx)
    × Below (λ c o x. Owns h tree c o x) (node_at tree idx) idx own xs (node_at tree idx).is_leaf

pub Each-map :
    (P Q : ℕ → List ℕ → List ℕ → Type 0) (cs own xs : List ℕ)
    → ((c : ℕ) (o x : List ℕ) → ((i : ℕ) → In i o → In i own) → P c o x → Q c o x)
    → Each P cs own xs
    → Each Q cs own xs
Each-map P Q [] own xs f e = e
Each-map P Q (c ∷ cs) own xs f (o1, o2, x1, x2, p, e, a, b) = (
  o1,
  o2,
  x1,
  x2,
  f c o1 x1 (λ i q. rw a (In-left i o1 o2 q)) p,
  Each-map P Q cs o2 x2 (λ d o x g q. f d o x (λ i r. rw a (In-right i o1 o2 (g i r))) q) e,
  a,
  b,
)

pub Each-cast :
    (P : ℕ → List ℕ → List ℕ → Type 0) (cs ds own xs : List ℕ)
    → cs ≡ ds
    → Each P cs own xs
    → Each P ds own xs
Each-cast P cs ds own xs e p = rw e at p

pub Each-append :
    (P : ℕ → List ℕ → List ℕ → Type 0) (cs ds o1 o2 x1 x2 : List ℕ)
    → Each P cs o1 x1
    → Each P ds o2 x2
    → Each P (cs ++ ds) (o1 ++ o2) (x1 ++ x2)
Each-append P [] ds o1 o2 x1 x2 (a, b) e = rw (a, b) e
Each-append P (c ∷ cs) ds o1 o2 x1 x2 (u1, u2, y1, y2, p, d, a, b) e = (
  u1,
  u2 ++ o2,
  y1,
  y2 ++ x2,
  p,
  Each-append P cs ds u2 o2 y2 x2 d e,
  ap (λ l. l ++ o2) a ∙ append_assoc u1 u2 o2,
  ap (λ l. l ++ x2) b ∙ append_assoc y1 y2 x2,
)

pub Each-split :
    (P : ℕ → List ℕ → List ℕ → Type 0) (cs ds own xs : List ℕ)
    → Each P (cs ++ ds) own xs
    → (o1 : List ℕ) × (o2 : List ℕ) × (x1 : List ℕ) × (x2 : List ℕ) × Each P cs o1 x1
      × Each P ds o2 x2
      × (own ≡ o1 ++ o2)
      × (xs ≡ x1 ++ x2)
Each-split P [] ds own xs e = ([], own, [], xs, (refl, refl), e, refl, refl)
Each-split P (c ∷ cs) ds own xs (u1, u2, y1, y2, p, d, a, b) =
    let (o1, o2, x1, x2, e, f, g, h) = Each-split P cs ds u2 y2 d in
    (
      u1 ++ o1,
      o2,
      y1 ++ x1,
      x2,
      (u1, o1, y1, x1, p, e, refl, refl),
      f,
      a ∙ (ap (λ l. u1 ++ l) g ∙ sym (append_assoc u1 o1 o2)),
      b ∙ (ap (λ l. y1 ++ l) h ∙ sym (append_assoc y1 x1 x2)),
    )

pub Below-map :
    (P Q : ℕ → List ℕ → List ℕ → Type 0) (node : Node) (idx : ℕ) (own xs : List ℕ) (b : Bool)
    → ((c : ℕ) (o x : List ℕ) → ((i : ℕ) → In i o → In i own) → P c o x → Q c o x)
    → Below P node idx own xs b
    → Below Q node idx own xs b
Below-map P Q node idx own xs true f e = e
Below-map P Q node idx own xs false f (rest, e, g) = (
  rest,
  e,
  Each-map P Q (take (node.count + 1) node.slots) rest xs
      (λ c o x sub p. f c o x (λ i q. rw e (inr (sub i q))) p) g,
)

pub Below-inner :
    (P : ℕ → List ℕ → List ℕ → Type 0) (node : Node) (idx : ℕ) (rest xs : List ℕ) (b : Bool)
    → b ≡ false
    → Each P (take (node.count + 1) node.slots) rest xs
    → Below P node idx (idx ∷ rest) xs b
Below-inner P node idx rest xs false e each = (rest, refl, each)
Below-inner P node idx rest xs true e each = absurd cc

pub Below-leaf :
    (P : ℕ → List ℕ → List ℕ → Type 0) (node : Node) (idx : ℕ) (b : Bool)
    → b ≡ true
    → Below P node idx (idx ∷ []) (take node.count node.slots) b
Below-leaf P node idx true e = (refl, refl)
Below-leaf P node idx false e = absurd cc

pub leaf-Below :
    (P : ℕ → List ℕ → List ℕ → Type 0) (node : Node) (idx : ℕ) (own xs : List ℕ) (b : Bool)
    → b ≡ true
    → Below P node idx own xs b
    → (own ≡ idx ∷ []) × (xs ≡ take node.count node.slots)
leaf-Below P node idx own xs true e below = below
leaf-Below P node idx own xs false e below = absurd cc

pub inner-Below :
    (P : ℕ → List ℕ → List ℕ → Type 0) (node : Node) (idx : ℕ) (own xs : List ℕ) (b : Bool)
    → b ≡ false
    → Below P node idx own xs b
    → (rest : List ℕ) × (own ≡ idx ∷ rest) × Each P (take (node.count + 1) node.slots) rest xs
inner-Below P node idx own xs false e below = below
inner-Below P node idx own xs true e below = absurd cc

pub Below-head :
    (P : ℕ → List ℕ → List ℕ → Type 0) (node : Node) (idx : ℕ) (own xs : List ℕ) (b : Bool)
    → Below P node idx own xs b
    → In idx own
Below-head P node idx own xs true (e, g) = rw e (inl refl)
Below-head P node idx own xs false (rest, e, g) = rw e (inl refl)

pub Owns-head : (h : ℕ) (t : Tree) (idx : ℕ) (own xs : List ℕ) → Owns h t idx own xs → In idx own
Owns-head zero t idx own xs o = elim o [ ]
Owns-head (suc h) t idx own xs (formed, below) =
    Below-head (λ c o x. Owns h t c o x) (node_at t idx) idx own xs (node_at t idx).is_leaf below

-- A subtree stays when its nodes stay.
pub Owns-frame :
    (h : ℕ) (t t' : Tree) (idx : ℕ) (own xs : List ℕ)
    → ((i : ℕ) → In i own → node_at t' i ≡ node_at t i)
    → Owns h t idx own xs
    → Owns h t' idx own xs
Owns-frame zero t t' idx own xs f o = elim o [ ]
Owns-frame (suc h) t t' idx own xs f (formed, below) =
    let same = f idx (
      Below-head (λ c o x. Owns h t c o x) (node_at t idx) idx own xs (node_at t idx).is_leaf
        below) in
    rw same (
      formed,
      Below-map (λ c o x. Owns h t c o x) (λ c o x. Owns h t' c o x) (node_at t idx) idx own xs
          (node_at t idx).is_leaf (λ c o x sub p. Owns-frame h t t' c o x (λ i q. f i (sub i q)) p)
          below,
    )
