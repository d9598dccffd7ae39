-- ===== src/BTree/Place.antt =====
-- `insert_nonfull` of src/btree.c: where a new entry goes, and what becomes of the others.
use zedis.Base.{
  ℕ, suc, ◌+◌, ◌≤◌, ◌<◌, ◌≡◌, refl, sym, ap, ◌∙◌, false, List, ◌∷◌, ◌++◌, take, arith, inl, inr,
  ◌⊎◌, get_or-set_ne, length-set, append_assoc,
}
use zedis.Base.Status.{Status, ok, failed}
use zedis.Slab.Pools.{In, Distinct}
use zedis.BTree.{Node, Tree, node_at, with_node, zero_node}
use zedis.BTree.Owned.{
  Each, Formed, Owns, Owns-frame, Each-map, Each-append, Each-cast, Below-inner, Distinct-left,
  Distinct-right, Distinct-append, Distinct-Apart, In-left, In-right, In-either,
}
use zedis.BTree.Steps.{Room, Step, Step-trans}

-- What became of the entries: the new one stands among them, or the call failed and they are as before.
pub data Put (s : Status) (midx : ℕ) (xs xs' : List ℕ) : Type 0 where
  put : (ys zs : List ℕ) → s ≡ ok → xs ≡ ys ++ zs → xs' ≡ ys ++ midx ∷ zs → Put s midx xs xs'
  left_out : s ≡ failed → xs' ≡ xs → Put s midx xs xs'

-- The subtree at `idx` after an insertion.
pub record Inserted (h : ℕ) (t : Tree) (idx : ℕ) (own xs : List ℕ) (midx : ℕ) (s : Status)
    (t' : Tree) : Type 0 where
  pub own' : List ℕ
  pub xs' : List ℕ
  pub holds : Owns h t' idx own' xs'
  pub distinct : Distinct own'
  pub origin : (i : ℕ) → In i own' → In i own ⊎ ((t.free_node ≤ i) × (i < t'.free_node))
  pub step : Step t t' own
  pub entries : Put s midx xs xs'

pub Step-widen :
    (t t' : Tree) (own more : List ℕ)
    → Step t t' own
    → ((i : ℕ) → In i own → In i more)
    → Step t t' more
Step-widen t t' own more a sub = record {
  room = a.room;
  grows = a.grows;
  same_max = a.same_max;
  same_members = a.same_members;
  same_count = a.same_count;
  same_limit = a.same_limit;
  same_root = a.same_root;
  kept = λ i n h. a.kept i (λ p. n (sub i p)) h;
}

pub write-Step :
    (t : Tree) (idx : ℕ) (node : Node) (own : List ℕ)
    → Room t
    → In idx own
    → Step t (with_node t idx node) own
write-Step t idx node own r p = record {
  room = record { limit = r.limit; nodes = length-set t.nodes idx node ∙ r.nodes };
  grows = omega arith;
  same_max = refl;
  same_members = refl;
  same_count = refl;
  same_limit = refl;
  same_root = refl;
  kept = λ i n h. get_or-set_ne t.nodes idx i node zero_node (λ e. n (rw e at p));
}

pub Inserted-after :
    (h : ℕ) (t t2 t' : Tree) (idx : ℕ) (own own2 xs : List ℕ) (midx : ℕ) (s : Status)
    → Step t t2 own
    → ((i : ℕ) → In i own2 → In i own ⊎ ((t.free_node ≤ i) × (i < t2.free_node)))
    → Inserted h t2 idx own2 xs midx s t'
    → Inserted h t idx own xs midx s t'
Inserted-after h t t2 t' idx own own2 xs midx s a from ins = record {
  own' = ins.own';
  xs' = ins.xs';
  holds = ins.holds;
  distinct = ins.distinct;
  origin = λ i p. elim (ins.origin i p) [
    | inl q ↦ elim (from i q) [
      | inl r ↦ inl r
      | inr (l, u) ↦ inr (l, omega (arith, ins.step.grows))
    ]
    | inr (l, u) ↦ inr (omega (arith, a.grows), u)
  ];
  step =
      Step-trans t t2 t' own own2 a ins.step
        (λ i p l. elim (from i p) [ inl r ↦ r | inr (m, u) ↦ absurd (omega arith) ]);
  entries = ins.entries;
}

-- A part of a list of distinct numbers replaced by its own numbers and new ones.
pub replaced-Distinct :
    (p q old new : List ℕ)
    → Distinct (p ++ (old ++ q))
    → Distinct new
    → ((i : ℕ) → In i new → In i old ⊎ (¬ In i (p ++ (old ++ q))))
    → Distinct (p ++ (new ++ q))
replaced-Distinct p q old new d e f =
    Distinct-append p (new ++ q) (Distinct-left p (old ++ q) d)
      (Distinct-append new q e (Distinct-right old q inner) (λ i a b. elim (f i a) [
        | inl o ↦ Distinct-Apart old q inner i o b
        | inr n ↦ n (In-right i p (old ++ q) (In-right i old q b))
      ]))
      (λ i a b. elim (In-either i new q b) [
        | inl c ↦ elim (f i c) [
          | inl o ↦ Distinct-Apart p (old ++ q) d i a (In-left i old q o)
          | inr n ↦ n (In-left i p (old ++ q) a)
        ]
        | inr c ↦ Distinct-Apart p (old ++ q) d i a (In-right i old q c)
      ])
  where
    inner : Distinct (old ++ q)
    inner = Distinct-right p (old ++ q) d

Put-inside :
    (s : Status) (midx : ℕ) (x1 xs xs' x2 : List ℕ)
    → Put s midx xs xs'
    → Put s midx (x1 ++ (xs ++ x2)) (x1 ++ (xs' ++ x2))
Put-inside s midx x1 xs xs' x2 (put ys zs e a b) =
    put (x1 ++ ys) (zs ++ x2) e
      (ap (λ l. x1 ++ (l ++ x2)) a
        ∙ (ap (λ l. x1 ++ l) (append_assoc ys zs x2) ∙ sym (append_assoc x1 ys (zs ++ x2))))
      (ap (λ l. x1 ++ (l ++ x2)) b
        ∙ (ap (λ l. x1 ++ l) (append_assoc ys (midx ∷ zs) x2)
            ∙ sym (append_assoc x1 ys (midx ∷ (zs ++ x2)))))
Put-inside s midx x1 xs xs' x2 (left_out e a) = left_out e (ap (λ l. x1 ++ (l ++ x2)) a)

-- An insertion into one child, seen from its parent.
pub child-Inserted :
    (h : ℕ) (t t' : Tree) (idx c : ℕ) (f b o1 oc o2 x1 xc x2 : List ℕ) (midx : ℕ) (s : Status)
    → Formed (node_at t idx)
    → (node_at t idx).is_leaf ≡ false
    → f ++ c ∷ b ≡ take ((node_at t idx).count + 1) (node_at t idx).slots
    → Each (λ d o x. Owns h t d o x) f o1 x1
    → Each (λ d o x. Owns h t d o x) b o2 x2
    → Distinct (idx ∷ (o1 ++ (oc ++ o2)))
    → ((i : ℕ) → In i (idx ∷ (o1 ++ (oc ++ o2))) → i < t.free_node)
    → Inserted h t c oc xc midx s t'
    → Inserted (suc h) t idx (idx ∷ (o1 ++ (oc ++ o2))) (x1 ++ (xc ++ x2)) midx s t'
child-Inserted h t t' idx c f b o1 oc o2 x1 xc x2 midx s formed inner cs e1 e2 d low ins = record {
  own' = idx ∷ (o1 ++ (ins.own' ++ o2));
  xs' = x1 ++ (ins.xs' ++ x2);
  holds = rw same (
    formed,
    Below-inner Q (node_at t idx) idx (o1 ++ (ins.own' ++ o2)) (x1 ++ (ins.xs' ++ x2))
        (node_at t idx).is_leaf inner
        (Each-cast Q (f ++ c ∷ b) _ _ _ cs (
          Each-append Q f (c ∷ b) o1 (ins.own' ++ o2) x1 (ins.xs' ++ x2) f1
            (ins.own', o2, ins.xs', x2, ins.holds, f2, refl, refl))),
  );
  distinct = replaced-Distinct (idx ∷ o1) o2 oc ins.own' d ins.distinct (λ i p.
      elim (ins.origin i p) [
        | inl q ↦ inl q
        | inr (l, u) ↦ inr (λ q. let v = low i q in omega arith)
      ]);
  origin = λ i p. elim (In-either i (idx ∷ o1) (ins.own' ++ o2) p) [
    | inl q ↦ inl (In-left i (idx ∷ o1) (oc ++ o2) q)
    | inr q ↦ elim (In-either i ins.own' o2 q) [
      | inl g ↦ elim (ins.origin i g) [
        | inl k ↦ inl (In-right i (idx ∷ o1) (oc ++ o2) (In-left i oc o2 k))
        | inr k ↦ inr k
      ]
      | inr g ↦ inl (In-right i (idx ∷ o1) (oc ++ o2) (In-right i oc o2 g))
    ]
  ];
  step =
      Step-widen t t' oc _ ins.step (λ i p. In-right i (idx ∷ o1) (oc ++ o2) (In-left i oc o2 p));
  entries = Put-inside s midx x1 xc ins.xs' x2 ins.entries;
}
  where
    Q : ℕ → List ℕ → List ℕ → Type 0
    Q e o x = Owns h t' e o x

    same : node_at t' idx ≡ node_at t idx
    same =
        ins.step.kept idx
          (λ p. Distinct-Apart (idx ∷ o1) (oc ++ o2) d idx (inl refl) (In-left idx oc o2 p))
          (low idx (inl refl))

    kept : (i : ℕ) → ¬ In i oc → In i (idx ∷ (o1 ++ (oc ++ o2))) → node_at t' i ≡ node_at t i
    kept i n p = ins.step.kept i n (low i p)

    f1 : Each (λ d o x. Owns h t' d o x) f o1 x1
    f1 =
        Each-map (λ d o x. Owns h t d o x) Q f o1 x1
          (λ e o x sub p.
            Owns-frame h t t' e o x
              (λ i q.
                kept i
                  (λ z.
                    Distinct-Apart (idx ∷ o1) (oc ++ o2) d i (inr (sub i q)) (In-left i oc o2 z))
                  (inr (In-left i o1 (oc ++ o2) (sub i q))))
              p)
          e1

    f2 : Each (λ d o x. Owns h t' d o x) b o2 x2
    f2 =
        Each-map (λ d o x. Owns h t d o x) Q b o2 x2
          (λ e o x sub p.
            Owns-frame h t t' e o x
              (λ i q.
                kept i
                  (λ z. Distinct-Apart oc o2 (Distinct-right (idx ∷ o1) (oc ++ o2) d) i z (sub i q))
                  (In-right i (idx ∷ o1) (oc ++ o2) (In-right i oc o2 (sub i q))))
              p)
          e2
