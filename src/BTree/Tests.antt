-- ===== src/BTree/Tests.antt =====
-- Runs of the sorted set, and the theorems at concrete inputs.
use zedis.Base.{
  ℕ, zero, suc, ◌+◌, ◌*◌, ◌≡◌, refl, Option, none, some, List, [], ◌∷◌, replicate, length, true,
  drop, ◌<◌, arith, get_or-replicate,
}
use zedis.Base.Bytes.{cstr}
use zedis.Base.Int.{pos, negsuc}
use zedis.Resp.Format.{decimal_in}
use zedis.BTree.{
  Tree, zero_node, zero_member, no_node, alloc_node, alloc_member, member_equal, score_member_cmp,
  find_in_leaf, find_member,
}
use zedis.BTree.Insert.{
  leaf_insert_at, leaf_find_pos, split_leaf, split_internal, insert_into_leaf, insert_nonfull,
  insert_entry, rebuild_btree, add, go_on,
}
use zedis.BTree.{depth}
use zedis.Base.{inl, inr}
use zedis.Base.Status.{Status}
use zedis.BTree.Owned.{Owns}
use zedis.BTree.Steps.{Room}
use zedis.BTree.Place.{Inserted}
use zedis.BTree.Insertion.{insert_nonfull-Inserted}
use zedis.BTree.Walk.{inorder, Sized}
use zedis.BTree.Window.{names}
use zedis.BTree.Range.{range-array_text, first_score, score-first_score}
use zedis.AppendLog.Range.{Texts, upto, array_text}
use zedis.BTree.Read.{score, count_entries, collect_inorder, range}

abbrev new_tree : ℕ → Tree
new_tree n = record {
  nodes = replicate (n * 2 + 4) zero_node;
  members = replicate n zero_member;
  root = no_node;
  free_node = 0;
  member_count = 0;
  max_nodes = n * 2 + 4;
  max_members = n;
}

-- Each byte as a member with the score beside it.
abbrev add_bytes : List (ℕ × ℕ) → Tree → Option Tree
add_bytes [] tree = some tree
add_bytes ((c, s) ∷ rest) tree = go_on (add tree (pos s) (c ∷ [])) (λ t. add_bytes rest t)

abbrev range_text : Option Tree → Option (Option (List ℕ))
range_text none = none
range_text (some tree) = range tree (pos 0) (negsuc 0) 4096

abbrev first_bytes : Option (Option (List ℕ)) → List ℕ
first_bytes (some (some (a ∷ b ∷ c ∷ d ∷ rest))) = entries rest
  where
    entries : List ℕ → List ℕ
    entries (m1 ∷ m2 ∷ m3 ∷ m4 ∷ c ∷ m5 ∷ m6 ∷ more) = c ∷ entries more
    entries _ = []
first_bytes _ = []

by_score :
    first_bytes (
      range_text
        (add_bytes ((97, 5) ∷ (98, 3) ∷ (99, 4) ∷ (100, 1) ∷ (101, 9) ∷ (97, 2) ∷ []) (new_tree 8)))
    ≡ 100 ∷ 97 ∷ 98 ∷ 99 ∷ 101 ∷ []
unfolding alloc_node alloc_member member_equal score_member_cmp find_in_leaf find_member
    leaf_insert_at leaf_find_pos split_leaf split_internal insert_into_leaf insert_nonfull
    insert_entry rebuild_btree add count_entries collect_inorder range decimal_in cstr
by_score = refl

-- Members of one score do not come out in the order of their bytes.
ties :
    first_bytes (
      range_text (add_bytes ((97, 1) ∷ (99, 1) ∷ (101, 1) ∷ (100, 1) ∷ (102, 1) ∷ []) (new_tree 8)))
    ≡ 97 ∷ 99 ∷ 102 ∷ 100 ∷ 101 ∷ []
unfolding alloc_node alloc_member member_equal score_member_cmp find_in_leaf find_member
    leaf_insert_at leaf_find_pos split_leaf split_internal insert_into_leaf insert_nonfull
    insert_entry rebuild_btree add count_entries collect_inorder range decimal_in cstr
ties = refl

-- One leaf with the members "b" and "ac".
abbrev two_members : Tree
two_members = record {
  nodes =
      record {
        keys = pos 3 ∷ pos 5 ∷ pos 0 ∷ [];
        slots = 1 ∷ 0 ∷ 0 ∷ 0 ∷ [];
        is_leaf = true;
        count = 2;
      }
      ∷ replicate 7 zero_node;
  members =
      record { bytes = 97 ∷ 99 ∷ []; score = pos 5 }
      ∷ record { bytes = 98 ∷ []; score = pos 3 }
      ∷ [];
  root = 0;
  free_node = 1;
  member_count = 2;
  max_nodes = 8;
  max_members = 2;
}

two_members-inorder : inorder (depth two_members) two_members 0 ≡ some (1 ∷ 0 ∷ [])
unfolding inorder
two_members-inorder = refl

two_members-Sized : Sized two_members
two_members-Sized zero = omega arith
two_members-Sized (suc i) = rw (get_or-replicate 7 i zero_node) (omega arith)

two_members-Texts : Texts (names two_members (1 ∷ 0 ∷ []))
two_members-Texts = ((omega arith, tt), ((omega arith, (omega arith, tt)), tt))

-- "*2", then "$1", "b", "$2" and "ac".
two_members-room :
    length (array_text (drop 0 (upto (negsuc 0) (names two_members (1 ∷ 0 ∷ []))))) < 64
unfolding decimal_in
two_members-room = omega arith

range-array_text_example :
    range two_members (pos 0) (negsuc 0) 64
    ≡ some (some (array_text (drop 0 (upto (negsuc 0) (names two_members (1 ∷ 0 ∷ []))))))
range-array_text_example =
    range-array_text two_members (pos 0) (negsuc 0) 64 (1 ∷ 0 ∷ []) two_members-Sized
      (λ e. omega (arith, e)) two_members-inorder (omega arith) two_members-Texts two_members-room

score-first_score_example :
    score two_members (98 ∷ []) ≡ some (first_score two_members (1 ∷ 0 ∷ []) (98 ∷ []))
score-first_score_example =
    score-first_score two_members (98 ∷ []) (1 ∷ 0 ∷ []) (λ e. omega (arith, e)) two_members-inorder

-- The second member does not fit into 12 bytes: it is left out, and the head still counts it.
cut_reply :
    range two_members (pos 0) (negsuc 0) 12
    ≡ some (some (42 ∷ 50 ∷ 13 ∷ 10 ∷ 36 ∷ 49 ∷ 13 ∷ 10 ∷ 98 ∷ 13 ∷ 10 ∷ []))
unfolding range count_entries collect_inorder decimal_in cstr
cut_reply = refl

two_members-Room : Room two_members
two_members-Room = record { limit = omega arith; nodes = refl }

two_members-Owns : Owns 1 two_members 0 (0 ∷ []) (1 ∷ 0 ∷ [])
two_members-Owns =
    (record { three_keys = refl; four_slots = refl; few = omega arith }, (refl, refl))

insert_nonfull-Inserted_example :
    (s : Status) × (t' : Tree) × (insert_nonfull 1 two_members 0 (pos 4) 1 ≡ some (s, t'))
    × Inserted 1 two_members 0 (0 ∷ []) (1 ∷ 0 ∷ []) 1 s t'
insert_nonfull-Inserted_example =
    insert_nonfull-Inserted 1 (pos 4) 1 two_members 0 (0 ∷ []) (1 ∷ 0 ∷ []) two_members-Room
      two_members-Owns (omega arith) ((λ p. p), tt)
      (λ i p. elim p [ inl e ↦ omega (arith, e) | inr q ↦ elim q [ ] ])
