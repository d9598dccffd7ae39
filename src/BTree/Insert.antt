-- ===== src/BTree/Insert.antt =====
-- The writing half of src/btree.c: splits, insertion, the rebuild and `zedis_btree_add`.
use zedis.Base.{
  ℕ, zero, suc, ◌+◌, ◌-◌, ◌/◌, ◌%◌, ◌^◌, Bool, true, false, ◌||◌, Option, none, some, List, ltb,
  leb, ◌==◌, if◌then◌else◌, length, get_or, set, replicate,
}
use zedis.Base.Int.{ℤ, pos, ltb_ℤ, leb_ℤ}
use zedis.Base.Status.{Status, ok, failed}
use zedis.BTree.{
  Node, Tree, Sign, positive, max_member, max_keys, no_node, zero_node, node_at, member_at,
  with_node, key_at, slot_at, alloc_node, alloc_member, score_member_cmp, find_member, depth,
}

module _ {A : Type 0} where
  -- for (i = from; i > at; i--) xs[i] = xs[i - 1]
  abbrev pub shift_up : ℕ → ℕ → A → List A → List A
  shift_up zero at d xs = xs
  shift_up (suc i) at d xs =
      let rest = shift_up i at d (set xs (suc i) (get_or xs i d)) in
      if ltb at (suc i) then rest else xs

  -- for (i = 0; i < n; i++) dst[i] = src[from + i]
  abbrev pub copy_cells : ℕ → List A → ℕ → A → List A → List A
  copy_cells zero src from d dst = dst
  copy_cells (suc n) src from d dst = set (copy_cells n src from d dst) n (get_or src (from + n) d)

unfoldable pub leaf_insert_at : Node → ℕ → ℤ → ℕ → Node
leaf_insert_at node at score midx = record node {
  keys = set (shift_up node.count at (pos 0) node.keys) at score;
  slots = set (shift_up node.count at 0 node.slots) at midx;
  count = (node.count + 1) % 2 ^ 8;
}

abbrev pub is_positive : Sign → Bool
is_positive positive = true
is_positive _ = false

-- The loop of `leaf_find_pos` from `i`, with `left` entries to come.
abbrev pub find_pos : ℕ → Tree → Node → ℤ → List ℕ → ℕ → ℕ
find_pos zero tree node score ins i = i
find_pos (suc left) tree node score ins i =
    let rest = find_pos left tree node score ins (i + 1) in
    let m = member_at tree (slot_at node i) in
    if is_positive (score_member_cmp score ins (key_at node i) m.bytes) then rest else i

unfoldable pub leaf_find_pos : Tree → Node → ℤ → ℕ → ℕ
leaf_find_pos tree node score midx =
    find_pos node.count tree node score (member_at tree midx).bytes 0

-- The sibling, the promoted key and the tree; `none` for UINT32_MAX.
abbrev pub Split : Type 0
Split = Option (ℕ × ℤ) × Tree

abbrev pub leaf_halves : ℕ → Option ℕ × Tree → Split
leaf_halves leaf_idx (none, tree) = (none, tree)
leaf_halves leaf_idx (some right_idx, tree) =
    let leaf = node_at tree leaf_idx in
    let mid = (leaf.count + 1) / 2 in
    let n = (leaf.count - mid) % 2 ^ 8 in
    let right : Node = record {
      keys = copy_cells n leaf.keys mid (pos 0) (replicate 3 (pos 0));
      slots = copy_cells n leaf.slots mid 0 (replicate 4 0);
      is_leaf = true;
      count = n;
    } in
    (
      some (right_idx, key_at leaf mid),
      with_node (with_node tree leaf_idx (record leaf { count = mid % 2 ^ 8 })) right_idx right,
    )

unfoldable pub split_leaf : Tree → ℕ → Split
split_leaf tree leaf_idx = leaf_halves leaf_idx (alloc_node tree)

abbrev pub internal_halves : ℕ → Option ℕ × Tree → Split
internal_halves node_idx (none, tree) = (none, tree)
internal_halves node_idx (some right_idx, tree) =
    let node = node_at tree node_idx in
    let mid = max_keys / 2 in
    let n = (node.count - mid - 1) % 2 ^ 8 in
    let right : Node = record {
      keys = copy_cells n node.keys (mid + 1) (pos 0) (replicate 3 (pos 0));
      slots = copy_cells (n + 1) node.slots (mid + 1) 0 (replicate 4 0);
      is_leaf = false;
      count = n;
    } in
    (
      some (right_idx, key_at node mid),
      with_node (with_node tree node_idx (record node { count = mid })) right_idx right,
    )

unfoldable pub split_internal : Tree → ℕ → Split
split_internal tree node_idx = internal_halves node_idx (alloc_node tree)

abbrev pub split_node : Tree → ℕ → Split
split_node tree idx =
    if (node_at tree idx).is_leaf then split_leaf tree idx else split_internal tree idx

unfoldable pub insert_into_leaf : Tree → ℕ → ℤ → ℕ → Tree
insert_into_leaf tree leaf_idx score midx =
    let leaf = node_at tree leaf_idx in
    with_node tree leaf_idx (leaf_insert_at leaf (leaf_find_pos tree leaf score midx) score midx)

-- while (i < node->count && score > node->keys[i]) i++
abbrev pub child_pos : ℕ → Node → ℤ → ℕ → ℕ
child_pos zero node score i = i
child_pos (suc left) node score i =
    let rest = child_pos left node score (i + 1) in if ltb_ℤ (key_at node i) score then rest else i

-- The node with a key and the child behind it put in at `i`. `children[j + 1] = children[j]` for the `j`
-- above `i` moves up the children behind index `i + 1`.
abbrev pub with_child : Node → ℕ → ℤ → ℕ → Node
with_child node i promoted sibling = record node {
  keys = set (shift_up node.count i (pos 0) node.keys) i promoted;
  slots = set (shift_up (node.count + 1) (i + 1) 0 node.slots) (i + 1) sibling;
  count = (node.count + 1) % 2 ^ 8;
}

-- The child to go on with and the tree, after a split or not; `none` for -1.
abbrev pub split_child : Tree → ℕ → ℕ → ℕ → ℤ → Split → Option ℕ × Tree
split_child before node_idx i child score (none, tree) = (none, tree)
split_child before node_idx i child score (some (sibling, promoted), tree) = (
  some (if leb_ℤ promoted score then sibling else child),
  with_node tree node_idx (with_child (node_at tree node_idx) i promoted sibling),
)

abbrev pub next_child : Tree → ℕ → ℤ → Option ℕ × Tree
next_child tree node_idx score =
    let node = node_at tree node_idx in
    let i = child_pos node.count node score 0 in
    let child = slot_at node i in
    if leb max_keys (node_at tree child).count
    then split_child tree node_idx i child score (split_node tree child)
    else (some child, tree)

-- What `insert_nonfull` goes on to do.
abbrev pub descend : (Tree → ℕ → Option (Status × Tree)) → Option ℕ × Tree → Option (Status × Tree)
descend go (none, tree) = some (failed, tree)
descend go (some child, tree) = go tree child

unfoldable pub insert_nonfull : ℕ → Tree → ℕ → ℤ → ℕ → Option (Status × Tree)
insert_nonfull zero tree node_idx score midx = none
insert_nonfull (suc fuel) tree node_idx score midx =
    let below =
      descend (λ t c. insert_nonfull fuel t c score midx) (next_child tree node_idx score) in
    if (node_at tree node_idx).is_leaf
    then some (ok, insert_into_leaf tree node_idx score midx)
    else below

abbrev pub first_root : ℤ → ℕ → Option ℕ × Tree → Status × Tree
first_root score midx (none, tree) = (failed, tree)
first_root score midx (some root, tree) =
    let node = node_at tree root in
    let filled : Node = record node {
      keys = set node.keys 0 score;
      slots = set node.slots 0 midx;
      is_leaf = true;
      count = 1;
    } in
    (ok, record (with_node tree root filled) { root = root })

-- The new root over the old one and its sibling, and where to go on.
abbrev pub grown : ℤ → Option ℕ → Split → Option ℕ × Tree
grown score (some new_root) (some (sibling, promoted), tree) =
    let nr : Node = record {
      keys = set (replicate 3 (pos 0)) 0 promoted;
      slots = set (set (replicate 4 0) 0 tree.root) 1 sibling;
      is_leaf = false;
      count = 1;
    } in
    (
      some (if leb_ℤ promoted score then sibling else new_root),
      record (with_node tree new_root nr) { root = new_root },
    )
grown score none (some s, tree) = (none, tree)
grown score new_root (none, tree) = (none, tree)

abbrev pub grow : ℤ → Option ℕ × Tree → Option ℕ × Tree
grow score (new_root, tree) = grown score new_root (split_node tree tree.root)

unfoldable pub insert_entry : Tree → ℤ → ℕ → Option (Status × Tree)
insert_entry tree score midx =
    if tree.root == no_node
    then some (first_root score midx (alloc_node tree))
    else if ltb (node_at tree tree.root).count max_keys
    then insert_nonfull (depth tree) tree tree.root score midx
    else descend (λ t c. insert_nonfull (depth t) t c score midx) (grow score (alloc_node tree))

abbrev pub go_on : Option (Status × Tree) → (Tree → Option Tree) → Option Tree
go_on none f = none
go_on (some (status, tree)) f = f tree

-- The loop of `rebuild_btree` from `i`, with `left` members to come; it does not look at the results.
abbrev pub insert_members : ℕ → ℕ → Tree → Option Tree
insert_members zero i tree = some tree
insert_members (suc left) i tree =
    go_on (insert_entry tree (member_at tree i).score i) (λ t. insert_members left (i + 1) t)

unfoldable pub rebuild_btree : Tree → Option Tree
rebuild_btree tree =
    insert_members tree.member_count 0
      (record tree { nodes = replicate tree.max_nodes zero_node; root = no_node; free_node = 0 })

abbrev pub rebuilt : Option Tree → Option (Status × Tree)
rebuilt none = none
rebuilt (some tree) = some (ok, tree)

abbrev pub add_member : ℤ → Option ℕ × Tree → Option (Status × Tree)
add_member score (none, tree) = some (failed, tree)
add_member score (some midx, tree) = insert_entry tree score midx

abbrev pub rescore : Tree → ℤ → ℕ → Tree
rescore tree score midx = record tree {
  members = set tree.members midx (record (member_at tree midx) { score = score });
}

abbrev pub add_or_rescore : Tree → ℤ → List ℕ → Option (Option ℕ) → Option (Status × Tree)
add_or_rescore tree score member none = none
add_or_rescore tree score member (some (some existing)) =
    rebuilt (rebuild_btree (rescore tree score existing))
add_or_rescore tree score member (some none) = add_member score (alloc_member tree score member)

-- `find_member` from the root, when there is one.
abbrev pub find_from_root : Tree → List ℕ → Option (Option ℕ)
find_from_root tree member =
    if tree.root == no_node then some none else find_member (depth tree) tree tree.root member

unfoldable pub add : Tree → ℤ → List ℕ → Option (Status × Tree)
add tree score member =
    if length member == 0 || leb max_member (length member)
    then some (failed, tree)
    else add_or_rescore tree score member (find_from_root tree member)
