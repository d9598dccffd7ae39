-- ===== src/BTree.antt =====
-- src/btree.c, include/btree.h: the B+tree behind a sorted set, in an array of nodes that is shared with the
-- array of its members. `none` outside a result means that a recursion ran out of fuel; `bytes` of a member
-- are the first `len` bytes of its `data`. The field `node_count`, which no code uses, is left out.
pub mod Insert
pub mod Read
pub mod Cells
pub mod Owned
pub mod Steps
pub mod Grow
pub mod Place
pub mod Descend
pub mod Parent
pub mod Passage
pub mod Insertion
pub mod Leaves
pub mod Walk
pub mod Window
pub mod Range
mod Tests
use zedis.Base.{
  ℕ, zero, suc, ◌+◌, ◌-◌, ◌*◌, ◌/◌, ◌%◌, ◌^◌, Bool, true, false, ◌&&◌, Option, none, some, List, [],
  ◌∷◌, ltb, leb, ◌==◌, if◌then◌else◌, length, get_or, set, take, replicate, min,
}
use zedis.Base.Int.{ℤ, pos, ltb_ℤ, leb_ℤ, ◌==ℤ◌}
use zedis.Base.Status.{Status, ok, failed}
use zedis.Arena.{Arena, calloc}
use zedis.HashTable.{same_bytes}

abbrev pub max_member : ℕ
max_member = 48

abbrev pub max_entries : ℕ
max_entries = 4096

abbrev pub max_keys : ℕ
max_keys = 3

-- UINT32_MAX
abbrev pub no_node : ℕ
no_node = 4294967295

-- `btree_node_t`; `slots` is the union of `children` and `values`.
pub record Node : Type 0 where
  pub keys : List ℤ
  pub slots : List ℕ
  pub is_leaf : Bool
  pub count : ℕ

-- `btree_member_t`
pub record Member : Type 0 where
  pub bytes : List ℕ
  pub score : ℤ

-- `zedis_btree_t`
pub record Tree : Type 0 where
  pub nodes : List Node
  pub members : List Member
  pub root : ℕ
  pub free_node : ℕ
  pub member_count : ℕ
  pub max_nodes : ℕ
  pub max_members : ℕ

-- A node and a member of zero bytes.
abbrev pub zero_node : Node
zero_node = record { keys = replicate 3 (pos 0); slots = replicate 4 0; is_leaf = false; count = 0 }

abbrev pub zero_member : Member
zero_member = record { bytes = []; score = pos 0 }

abbrev pub node_at : Tree → ℕ → Node
node_at tree idx = get_or tree.nodes idx zero_node

abbrev pub member_at : Tree → ℕ → Member
member_at tree idx = get_or tree.members idx zero_member

abbrev pub with_node : Tree → ℕ → Node → Tree
with_node tree idx node = record tree { nodes = set tree.nodes idx node }

abbrev pub key_at : Node → ℕ → ℤ
key_at node i = get_or node.keys i (pos 0)

abbrev pub slot_at : Node → ℕ → ℕ
slot_at node i = get_or node.slots i 0

-- `none` for UINT32_MAX
unfoldable pub alloc_node : Tree → Option ℕ × Tree
alloc_node tree =
    if leb tree.max_nodes tree.free_node
    then (none, tree)
    else (some tree.free_node, record tree { free_node = tree.free_node + 1 })

unfoldable pub alloc_member : Tree → ℤ → List ℕ → Option ℕ × Tree
alloc_member tree score member =
    if leb tree.max_members tree.member_count
    then (none, tree)
    else let kept =
        if ltb (length member) max_member then member else take (max_member - 1) member in
      (
        some tree.member_count,
        record tree {
          members = set tree.members tree.member_count (record { bytes = kept; score = score });
          member_count = tree.member_count + 1;
        },
      )

-- `member_equal`
unfoldable pub member_equal : Member → List ℕ → Bool
member_equal m member = length m.bytes == length member && same_bytes m.bytes member

-- The sign of an `int`.
pub data Sign : Type 0 where
  negative zero_sign positive : Sign

-- memcmp of the first `n` bytes of two arrays that have so many
abbrev pub memcmp : ℕ → List ℕ → List ℕ → Sign
memcmp zero a b = zero_sign
memcmp (suc n) [] b = zero_sign
memcmp (suc n) (x ∷ a) [] = zero_sign
memcmp (suc n) (x ∷ a) (y ∷ b) =
    let rest = memcmp n a b in if ltb x y then negative else if ltb y x then positive else rest

abbrev pub by_length : Sign → ℕ → ℕ → Sign
by_length negative m n = negative
by_length positive m n = positive
by_length zero_sign m n = if ltb m n then negative else if ltb n m then positive else zero_sign

unfoldable pub score_member_cmp : ℤ → List ℕ → ℤ → List ℕ → Sign
score_member_cmp score_a a score_b b =
    if score_a ==ℤ score_b
    then by_length (memcmp (min (length a) (length b)) a b) (length a) (length b)
    else if ltb_ℤ score_a score_b
    then negative
    else positive

-- The loop of `find_in_leaf` over the values from `i` on.
abbrev pub find_value : Tree → List ℕ → List ℕ → Option ℕ
find_value tree [] member = none
find_value tree (midx ∷ values) member =
    let rest = find_value tree values member in
    if member_equal (member_at tree midx) member then some midx else rest

unfoldable pub find_in_leaf : Tree → Node → List ℕ → Option ℕ
find_in_leaf tree node member = find_value tree (take node.count node.slots) member

abbrev pub found_or : Option (Option ℕ) → Option (Option ℕ) → Option (Option ℕ)
found_or none rest = none
found_or (some none) rest = rest
found_or (some (some midx)) rest = some (some midx)

-- The loop over the children, with the call on each.
abbrev pub find_child : (ℕ → Option (Option ℕ)) → List ℕ → Option (Option ℕ)
find_child find [] = some none
find_child find (c ∷ children) = found_or (find c) (find_child find children)

unfoldable pub find_member : ℕ → Tree → ℕ → List ℕ → Option (Option ℕ)
find_member zero tree node_idx member = none
find_member (suc fuel) tree node_idx member =
    let node = node_at tree node_idx in
    let below =
      find_child (λ c. find_member fuel tree c member) (take (node.count + 1) node.slots) in
    if node.is_leaf then some (find_in_leaf tree node member) else below

-- A path from the root meets no node twice.
abbrev pub depth : Tree → ℕ
depth tree = suc tree.max_nodes

abbrev pub on_arrays : ℕ → ℕ → Option ℕ → Option ℕ × Arena → Option Tree × Arena
on_arrays max_members max_nodes (some nodes) (some members, arena) = (
  some (record {
    nodes = replicate max_nodes zero_node;
    members = replicate max_members zero_member;
    root = no_node;
    free_node = 0;
    member_count = 0;
    max_nodes = max_nodes;
    max_members = max_members;
  }),
  arena,
)
on_arrays max_members max_nodes (some nodes) (none, arena) = (none, arena)
on_arrays max_members max_nodes none (members, arena) = (none, arena)

abbrev pub on_nodes : ℕ → ℕ → Option ℕ × Arena → Option Tree × Arena
on_nodes max_members max_nodes (nodes, arena) =
    on_arrays max_members max_nodes nodes (calloc arena max_members 64 64)

-- A node has 64 bytes, and so has a member.
unfoldable pub init : Arena → ℕ → Option Tree × Arena
init arena max_members =
    if max_members == 0
    then (none, arena)
    else let kept = if ltb max_entries max_members then max_entries else max_members in
      on_nodes kept (kept * 2 + 4) (calloc arena (kept * 2 + 4) 64 64)

-- `zedis_btree_destroy`: the structure is zeroed.
abbrev pub destroy : Tree → Tree
destroy tree = record {
  nodes = [];
  members = [];
  root = 0;
  free_node = 0;
  member_count = 0;
  max_nodes = 0;
  max_members = 0;
}
