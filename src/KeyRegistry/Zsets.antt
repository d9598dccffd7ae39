-- ===== src/KeyRegistry/Zsets.antt =====
-- The sorted-set half of src/key_registry.c: a tree for each key that has one.
use zedis.Base.{
  ℕ, zero, suc, ◌*◌, ◌%◌, ◌^◌, ◌<◌, ◌≢◌, ◌≡◌, ap, ◌∙◌, true, Option, none, some, List, [], ◌∷◌,
  ◌==◌, if◌then◌else◌, get_or, set, drop, length,
}
use zedis.Base.Int.{ℤ, pos_part}
use zedis.Base.Status.{Status, failed}
use zedis.Arena.{Arena, calloc}
use zedis.HashTable as Table
use zedis.AppendLog.{fitting, count_text}
use zedis.AppendLog.Range.{Texts, upto, array_text}
use zedis.BTree.{Tree, no_node, depth}
use zedis.BTree as Trees
use zedis.BTree.Insert.{add}
use zedis.BTree.Read.{score, range}
use zedis.BTree.Walk.{inorder, Sized}
use zedis.BTree.Window.{names}
use zedis.BTree.Range.{first_score, range-array_text, score-first_score}
use zedis.KeyRegistry.{Registry, lookup_index, index_for_key}
use zedis.KeyRegistry.Index.{Indexed, lookup_index-Indexed}

-- An item that no index reaches.
abbrev pub no_tree : Tree
no_tree = record {
  nodes = [];
  members = [];
  root = no_node;
  free_node = 0;
  member_count = 0;
  max_nodes = 0;
  max_members = 0;
}

abbrev pub tree_of : Registry Tree → ℕ → Tree
tree_of reg idx = get_or reg.items idx no_tree

abbrev pub with_tree :
    (Arena → Option (List Tree) × Arena) → Option Tree × Arena → Option (List Tree) × Arena
with_tree more (none, arena) = (none, arena)
with_tree more (some tree, arena) = in_front tree (more arena)
  where
    in_front : Tree → Option (List Tree) × Arena → Option (List Tree) × Arena
    in_front tree (none, arena) = (none, arena)
    in_front tree (some trees, arena) = (some (tree ∷ trees), arena)

-- `zedis_btree_init` for each of the trees in turn; a failure ends the loop.
abbrev pub init_trees : ℕ → ℕ → Arena → Option (List Tree) × Arena
init_trees zero max_members arena = (some [], arena)
init_trees (suc n) max_members arena =
    with_tree (λ a. init_trees n max_members a) (Trees.init arena max_members)

abbrev pub with_zset_keys :
    ℕ → List Tree → Option Table.Table × Arena → Option (Registry Tree) × Arena
with_zset_keys max_zsets trees (none, arena) = (none, arena)
with_zset_keys max_zsets trees (some keys, arena) =
    (some (record { items = trees; keys = keys; max_items = max_zsets; used = 0 }), arena)

abbrev pub with_trees : ℕ → Option (List Tree) × Arena → Option (Registry Tree) × Arena
with_trees max_zsets (none, arena) = (none, arena)
with_trees max_zsets (some trees, arena) =
    with_zset_keys max_zsets trees (Table.init arena (max_zsets * 2 % 2 ^ 32))

abbrev pub on_zset_storage : ℕ → ℕ → Option ℕ × Arena → Option (Registry Tree) × Arena
on_zset_storage max_zsets max_members (none, arena) = (none, arena)
on_zset_storage max_zsets max_members (some storage, arena) =
    with_trees max_zsets (init_trees max_zsets max_members arena)

-- `zedis_zset_reg_init`; a `zedis_btree_t` has 40 bytes.
unfoldable pub zset_reg_init : Arena → ℕ → ℕ → Option (Registry Tree) × Arena
zset_reg_init arena max_zsets max_members =
    if max_zsets == 0
    then (none, arena)
    else on_zset_storage max_zsets max_members (calloc arena max_zsets 40 64)

abbrev pub added_to : Registry Tree → ℕ → Option (Status × Tree) → Option (Status × Registry Tree)
added_to reg idx none = none
added_to reg idx (some (status, tree)) =
    some (status, record reg { items = set reg.items idx tree })

abbrev pub add_at : ℤ → List ℕ → Option (Option ℕ × Registry Tree) → Option (Status × Registry Tree)
add_at score member none = none
add_at score member (some (none, reg)) = some (failed, reg)
add_at score member (some (some idx, reg)) = added_to reg idx (add (tree_of reg idx) score member)

-- `zedis_zset_reg_add`
unfoldable pub zset_reg_add : Registry Tree → List ℕ → ℤ → List ℕ → Option (Status × Registry Tree)
zset_reg_add reg key score member = add_at score member (index_for_key reg key true)

abbrev pub score_at : Registry Tree → List ℕ → Option (Option ℕ) → Option (Option ℤ)
score_at reg member none = none
score_at reg member (some none) = some none
score_at reg member (some (some idx)) = score (tree_of reg idx) member

-- `zedis_zset_reg_score`
unfoldable pub zset_reg_score : Registry Tree → List ℕ → List ℕ → Option (Option ℤ)
zset_reg_score reg key member = score_at reg member (lookup_index reg.keys key)

abbrev pub zrange_at : Registry Tree → ℤ → ℤ → ℕ → Option (Option ℕ) → Option (Option (List ℕ))
zrange_at reg start stop reply_cap none = none
zrange_at reg start stop reply_cap (some none) = some (fitting reply_cap (count_text 0))
zrange_at reg start stop reply_cap (some (some idx)) = range (tree_of reg idx) start stop reply_cap

-- `zedis_zset_reg_range`
unfoldable pub zset_reg_range : Registry Tree → List ℕ → ℤ → ℤ → ℕ → Option (Option (List ℕ))
zset_reg_range reg key start stop reply_cap =
    zrange_at reg start stop reply_cap (lookup_index reg.keys key)

-- `zedis_zset_reg_destroy`: the structure is zeroed.
abbrev pub zset_reg_destroy : Registry Tree → Registry Tree
zset_reg_destroy reg = record { items = []; keys = Table.destroy reg.keys; max_items = 0; used = 0 }

-- The key has index `i`, whose tree is not empty and has these entries from left to right.
pub record Reaches (reg : Registry Tree) (index : List ℕ → Option ℕ) (key : List ℕ) (i : ℕ)
    (xs : List ℕ) : Type 0 where
  pub indexed : Indexed reg index
  pub at_index : index key ≡ some i
  pub root : (tree_of reg i).root ≢ no_node
  pub sized : Sized (tree_of reg i)
  pub entries : inorder (depth (tree_of reg i)) (tree_of reg i) (tree_of reg i).root ≡ some xs

-- ZSCORE over the registry: the score of the first entry of the key's tree with exactly the bytes of the
-- member, or -1 when the tree has no such entry.
pub zset_reg_score-first_score :
    (reg : Registry Tree) (index : List ℕ → Option ℕ) (key member : List ℕ) (i : ℕ) (xs : List ℕ)
    → Reaches reg index key i xs
    → zset_reg_score reg key member ≡ some (first_score (tree_of reg i) xs member)
unfolding zset_reg_score
zset_reg_score-first_score reg index key member i xs r =
    ap (score_at reg member) (lookup_index-Indexed reg index key r.indexed ∙ ap some r.at_index)
    ∙ score-first_score (tree_of reg i) member xs r.root r.entries

-- ZRANGE over the registry, for less than 2 ^ 31 members, without a NUL byte: when the text and a NUL fit into the reply, it is
-- the array of the members of the key's tree from index `start` (0 when negative) up to `stop` (the end when
-- negative), in the order of the leaves.
pub zset_reg_range-array_text :
    (reg : Registry Tree) (index : List ℕ → Option ℕ) (key : List ℕ) (i : ℕ) (xs : List ℕ)
    (start stop : ℤ) (reply_cap : ℕ)
    → Reaches reg index key i xs
    → length xs < 2 ^ 31
    → Texts (names (tree_of reg i) xs)
    → length (array_text (drop (pos_part start) (upto stop (names (tree_of reg i) xs)))) < reply_cap
    → zset_reg_range reg key start stop reply_cap
      ≡ some (some (array_text (drop (pos_part start) (upto stop (names (tree_of reg i) xs)))))
unfolding zset_reg_range
zset_reg_range-array_text reg index key i xs start stop reply_cap r few texts room =
    ap (zrange_at reg start stop reply_cap)
      (lookup_index-Indexed reg index key r.indexed ∙ ap some r.at_index)
    ∙ range-array_text (tree_of reg i) start stop reply_cap xs r.sized r.root r.entries few texts
        room
