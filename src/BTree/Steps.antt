-- ===== src/BTree/Steps.antt =====
-- What the calls of src/btree.c leave alone.
use zedis.Base.{ℕ, ◌≤◌, ◌<◌, ◌≡◌, refl, ◌∙◌, List, length, arith}
use zedis.Slab.Pools.{In}
use zedis.BTree.{Tree, node_at}

-- The arrays have the size that the tree says, and a node is free at most.
pub record Room (t : Tree) : Type 0 where
  pub limit : t.free_node ≤ t.max_nodes
  pub nodes : length t.nodes ≡ t.max_nodes

-- A step that leaves all nodes alone but those of `own` and new ones.
pub record Step (t t' : Tree) (own : List ℕ) : Type 0 where
  pub room : Room t'
  pub grows : t.free_node ≤ t'.free_node
  pub same_max : t'.max_nodes ≡ t.max_nodes
  pub same_members : t'.members ≡ t.members
  pub same_count : t'.member_count ≡ t.member_count
  pub same_limit : t'.max_members ≡ t.max_members
  pub same_root : t'.root ≡ t.root
  pub kept : (i : ℕ) → ¬ In i own → i < t.free_node → node_at t' i ≡ node_at t i

pub Step-refl : (t : Tree) (own : List ℕ) → Room t → Step t t own
Step-refl t own r = record {
  room = r;
  grows = omega arith;
  same_max = refl;
  same_members = refl;
  same_count = refl;
  same_limit = refl;
  same_root = refl;
  kept = λ i n h. refl;
}

pub Step-trans :
    (t t1 t2 : Tree) (own own1 : List ℕ)
    → Step t t1 own
    → Step t1 t2 own1
    → ((i : ℕ) → In i own1 → i < t.free_node → In i own)
    → Step t t2 own
Step-trans t t1 t2 own own1 a b sub = record {
  room = b.room;
  grows = omega (arith, a.grows, b.grows);
  same_max = b.same_max ∙ a.same_max;
  same_members = b.same_members ∙ a.same_members;
  same_count = b.same_count ∙ a.same_count;
  same_limit = b.same_limit ∙ a.same_limit;
  same_root = b.same_root ∙ a.same_root;
  kept = λ i n h. b.kept i (λ p. n (sub i p h)) (omega (arith, a.grows)) ∙ a.kept i n h;
}
