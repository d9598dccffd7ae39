-- ===== src/BTree/Read.antt =====
-- The reading half of src/btree.c: scores, the number of entries and the replies of `zedis_btree_range`. A
-- reply is the bytes in front of `*reply_len`.
use zedis.Base.{
  ℕ, zero, suc, ◌+◌, ◌-◌, ◌^◌, ◌&&◌, ◌||◌, Option, none, some, List, [], ◌∷◌, ◌++◌, ltb, leb, ◌==◌,
  if◌then◌else◌, length, take,
}
use zedis.Base.Bytes.{cstr}
use zedis.Base.Int.{ℤ, pos, pos_part, ltb_ℤ, leb_ℤ}
use zedis.Resp.Format.{decimal, crlf}
use zedis.AppendLog.{fitting, count_text, clip}
use zedis.BTree.{Member, Tree, no_node, node_at, member_at, depth}
use zedis.BTree.Insert.{find_from_root}

abbrev pub score_of : Tree → Option (Option ℕ) → Option (Option ℤ)
score_of tree none = none
score_of tree (some none) = some none
score_of tree (some (some midx)) = some (some (member_at tree midx).score)

-- `zedis_btree_score`: `some none` for -1
unfoldable pub score : Tree → List ℕ → Option (Option ℤ)
score tree member = score_of tree (find_from_root tree member)

-- The sum is an `int`; `none` also stands for its overflow, which is undefined behaviour.
abbrev pub plus : Option ℕ → Option ℕ → Option ℕ
plus none n = none
plus (some m) none = none
plus (some m) (some n) = if ltb (m + n) (2 ^ 31) then some (m + n) else none

abbrev pub count_children : (ℕ → Option ℕ) → List ℕ → Option ℕ
count_children count [] = some 0
count_children count (c ∷ children) = plus (count c) (count_children count children)

unfoldable pub count_entries : ℕ → Tree → ℕ → Option ℕ
count_entries zero tree node_idx = none
count_entries (suc fuel) tree node_idx =
    let node = node_at tree node_idx in
    let below =
      count_children (λ c. count_entries fuel tree c) (take (node.count + 1) node.slots) in
    if node.is_leaf then some node.count else below

-- snprintf("$%zu\r\n%.*s\r\n", ...): the data is printed up to its first NUL.
abbrev pub entry_text : Member → List ℕ
entry_text m = 36 ∷ decimal (length m.bytes) ++ (crlf ++ (cstr m.bytes ++ crlf))

-- `*idx` and the reply
abbrev pub Progress : Type 0
Progress = ℕ × List ℕ

-- The window asked for, and the size of the reply.
pub record Window : Type 0 where
  pub start : ℕ
  pub stop : ℤ
  pub reply_cap : ℕ

-- One entry: printed when its index is asked for and its text fits.
abbrev pub put_entry : Window → Member → Progress → Progress
put_entry w m (idx, reply) =
    let reply' = reply ++ entry_text m in
    (
      idx + 1,
      if leb w.start idx && leb_ℤ (pos idx) w.stop
          then (if ltb (length reply') w.reply_cap then reply' else reply)
          else reply,
    )

abbrev pub put_values : Tree → Window → List ℕ → Progress → Progress
put_values tree w [] p = p
put_values tree w (midx ∷ values) p = put_values tree w values (put_entry w (member_at tree midx) p)

abbrev pub carry : Option Progress → (Progress → Option Progress) → Option Progress
carry none f = none
carry (some p) f = f p

abbrev pub collect_children : (ℕ → Progress → Option Progress) → List ℕ → Progress → Option Progress
collect_children collect [] p = some p
collect_children collect (c ∷ children) p =
    carry (collect c p) (λ q. collect_children collect children q)

unfoldable pub collect_inorder : ℕ → Tree → Window → ℕ → Progress → Option Progress
collect_inorder zero tree w node_idx p = none
collect_inorder (suc fuel) tree w node_idx p =
    let node = node_at tree node_idx in
    let below =
      collect_children (λ c q. collect_inorder fuel tree w c q) (take (node.count + 1) node.slots)
        p in
    if node.is_leaf then some (put_values tree w (take node.count node.slots) p) else below

abbrev pub reply_of : Option Progress → Option (Option (List ℕ))
reply_of none = none
reply_of (some (idx, reply)) = some (some reply)

abbrev pub range_of : Tree → ℕ → ℤ → ℕ → Option ℕ → Option (Option (List ℕ))
range_of tree start stop reply_cap none = none
range_of tree start stop reply_cap (some total) =
    let last = clip stop total in
    if ltb_ℤ last (pos start) || total == 0
    then some (fitting reply_cap (count_text 0))
    else let head = count_text (pos_part last - start + 1) in
      if leb reply_cap (length head)
      then some none
      else reply_of (
          collect_inorder (depth tree) tree
            (record { start = start; stop = last; reply_cap = reply_cap }) tree.root (0, head))

-- `zedis_btree_range`: `some none` for -1
unfoldable pub range : Tree → ℤ → ℤ → ℕ → Option (Option (List ℕ))
range tree start_idx stop_idx reply_cap =
    if tree.root == no_node
    then some (fitting reply_cap (count_text 0))
    else range_of tree (pos_part start_idx) stop_idx reply_cap
        (count_entries (depth tree) tree tree.root)
