-- ===== src/BTree/Range.antt =====
-- What `zedis_btree_score` and `zedis_btree_range` of src/btree.c answer.
use zedis.Base.{
  ℕ, ◌+◌, ◌-◌, ◌^◌, ◌≤◌, ◌<◌, ◌≡◌, ◌≢◌, refl, sym, ap, ap₂, ◌∙◌, Bool, true, false, ◌&&◌, ◌||◌,
  Option, none, some, List, [], ◌∷◌, ◌++◌, if◌then◌else◌, Bool-cases, inl, inr, length, take, drop,
  arith, ltb, leb, ◌==◌, ==_refl, length-append, ltb→lt, ltb→le, lt→leb, drop_all, length-take,
  length-drop,
}
use zedis.Base.Int.{ℤ, pos, pos_part, ltb_ℤ}
use zedis.AppendLog.{count_text, fitting, clip}
use zedis.AppendLog.Range.{
  Texts, upto, bulks, array_text, clipped, clip_lem, empty_range, empty_array, upto-clipped,
  clipped-bound,
}
use zedis.HashTable.{same_bytes}
use zedis.HashTable.Walk.{same_bytes-eq}
use zedis.BTree.{Tree, Member, member_at, no_node, depth, find_value, member_equal}
use zedis.BTree.Read.{collect_inorder, range, range_of, reply_of, score, score_of}
use zedis.BTree.Walk.{
  inorder, Sized, count_entries-inorder, collect_inorder-inorder, find_member-inorder,
}
use zedis.BTree.Window.{names, length-names, window, put_values-window}

fitting_whole : (n : ℕ) (text : List ℕ) → length text < n → fitting n text ≡ some text
fitting_whole n text h = rw (lt→leb n (length text) h) refl

empty_list : (l : List (List ℕ)) → length l ≡ 0 → l ≡ []
empty_list [] h = refl
empty_list (x ∷ l) h = absurd (omega arith)

or_true : (b : Bool) → (b || true) ≡ true
or_true true = refl
or_true false = refl

-- What is done with a number of entries that is known, and with a collection that is known.
module _ (tree : Tree) (start : ℕ) (stop : ℤ) (reply_cap : ℕ) (xs : List ℕ)
    (walk : inorder (depth tree) tree tree.root ≡ some xs) (texts : Texts (names tree xs)) where
  collected :
      (last : ℕ) (head : List ℕ)
      → length (head ++ bulks (drop start (take (last + 1) (names tree xs)))) < reply_cap
      → reply_of (
          collect_inorder
            (depth tree)
            tree
            (record { start = start; stop = pos last; reply_cap = reply_cap })
            tree.root
            (0, head))
        ≡ some (some (head ++ bulks (drop start (take (last + 1) (names tree xs)))))
  collected last head room =
      let w : window start last 0 (names tree xs) ≡ drop start (take (last + 1) (names tree xs)) =
        ap₂ (λ a b. drop a (take b (names tree xs))) (omega arith) (omega arith) in
      ap reply_of (collect_inorder-inorder (depth tree) tree _ tree.root (0, head) xs walk)
      ∙ (ap (λ p. reply_of (some p))
            (put_values-window tree start last reply_cap 0 head xs texts (rw w room))
          ∙ ap (λ l. some (some (head ++ bulks l))) w)

  no_entries :
      names tree xs ≡ []
      → length (array_text (drop start (upto stop (names tree xs)))) < reply_cap
      → fitting reply_cap (count_text 0)
        ≡ some (array_text (drop start (upto stop (names tree xs))))
  no_entries e room =
      empty_range start stop reply_cap
      ∙ (ap (λ l. fitting reply_cap (array_text (drop start (upto stop l)))) (sym e)
          ∙ fitting_whole reply_cap _ room)

  some_entries :
      0 < length xs
      → length (array_text (drop start (upto stop (names tree xs)))) < reply_cap
      → range_of tree start stop reply_cap (some (length xs))
        ≡ some (some (array_text (drop start (upto stop (names tree xs)))))
  some_entries pos_n room =
      let n : length (names tree xs) ≡ length xs = length-names tree xs in
      let last : ℕ = clipped stop (length xs) in
      let some_n : (length xs == 0) ≡ false = ground arith in
      let all : take (last + 1) (names tree xs) ≡ upto stop (names tree xs) =
        ap (λ k. take (clipped stop k + 1) (names tree xs)) (sym n)
        ∙ upto-clipped stop (names tree xs) (omega (arith, n)) in
      let inside : last < length xs = clipped-bound stop (length xs) pos_n in
      let count : length (drop start (take (last + 1) (names tree xs))) ≡ last + 1 - start = omega (
        arith,
        n,
        length-drop start (take (last + 1) (names tree xs)),
        length-take (last + 1) (names tree xs),
      ) in
      let room' : length (array_text (drop start (take (last + 1) (names tree xs)))) < reply_cap =
        rw all room in
      rw (clip_lem stop (length xs) pos_n, some_n, ← all)
        (elim (Bool-cases (ltb (last + 0) (start + 0))) [
          | inl c ↦
              let none_left : drop start (take (last + 1) (names tree xs)) ≡ [] =
                drop_all start (take (last + 1) (names tree xs))
                  (omega (arith, ltb→lt _ _ c, n, length-take (last + 1) (names tree xs))) in
              let short : length (array_text []) < reply_cap = rw none_left at room' in
              rw (c, none_left)
                (ap some (empty_array reply_cap ∙ fitting_whole reply_cap (array_text []) short))
          | inr c ↦
              let le : start ≤ last = omega (arith, ltb→le _ _ c) in
              let k : last - start + 1 ≡ length (drop start (take (last + 1) (names tree xs))) =
                omega (arith, count) in
              let fits : length (
                    count_text (last - start + 1)
                    ++ bulks (drop start (take (last + 1) (names tree xs))))
                  < reply_cap =
                rw k room' in
              let head : leb reply_cap (length (count_text (last - start + 1))) ≡ false =
                lt→leb _ _ (
                  omega (
                    arith,
                    fits,
                    length-append (count_text (last - start + 1))
                        (bulks (drop start (take (last + 1) (names tree xs)))),
                  )) in
              rw (c, head)
                (collected last (count_text (last - start + 1)) fits
                  ∙ ap
                      (λ m. some (
                        some
                          (count_text m ++ bulks (drop start (take (last + 1) (names tree xs))))))
                      k)
        ])

  range_of-array_text :
      length (array_text (drop start (upto stop (names tree xs)))) < reply_cap
      → range_of tree start stop reply_cap (some (length xs))
        ≡ some (some (array_text (drop start (upto stop (names tree xs)))))
  range_of-array_text room = elim (Bool-cases (ltb 0 (length xs))) [
    | inr e ↦
        let z : length xs ≡ 0 = omega (arith, ltb→le _ _ e) in
        let zero_n : (length xs == 0) ≡ true = ground arith in
        rw (zero_n, or_true (ltb_ℤ (clip stop (length xs)) (pos start)))
          (ap some (no_entries (empty_list (names tree xs) (length-names tree xs ∙ z)) room))
    | inl e ↦ some_entries (ltb→lt _ _ e) room
  ]

-- ZRANGE on a tree whose leaves are reached, with less than 2 ^ 31 entries, and whose members have no NUL
-- byte: when the text and a NUL fit into the reply, however many members were asked for, it is the array of the members from index `start` (0 when negative) up to `stop` (the end
-- when negative), in the order of the leaves.
pub range-array_text :
    (tree : Tree) (start stop : ℤ) (reply_cap : ℕ) (xs : List ℕ)
    → Sized tree
    → tree.root ≢ no_node
    → inorder (depth tree) tree tree.root ≡ some xs
    → length xs < 2 ^ 31
    → Texts (names tree xs)
    → length (array_text (drop (pos_part start) (upto stop (names tree xs)))) < reply_cap
    → range tree start stop reply_cap
      ≡ some (some (array_text (drop (pos_part start) (upto stop (names tree xs)))))
unfolding range
range-array_text tree start stop reply_cap xs sized root walk few texts room =
    let e : (tree.root == no_node) ≡ false = ground arith in
    rw (e, count_entries-inorder (depth tree) tree tree.root xs sized walk few)
      (range_of-array_text tree (pos_part start) stop reply_cap xs walk texts room)

-- The score of the first entry with these bytes.
abbrev pub first_score : Tree → List ℕ → List ℕ → Option ℤ
first_score tree [] member = none
first_score tree (x ∷ xs) member =
    let rest = first_score tree xs member in
    if same_bytes (member_at tree x).bytes member then some (member_at tree x).score else rest

member_equal-same_bytes :
    (m : Member) (member : List ℕ) → member_equal m member ≡ same_bytes m.bytes member
unfolding member_equal
member_equal-same_bytes m member = elim (Bool-cases (same_bytes m.bytes member)) [
  | inl e ↦
      let n : length m.bytes ≡ length member = ap length (same_bytes-eq m.bytes member e) in
      rw (e, n, ==_refl (length member)) refl
  | inr e ↦ rw e (and_false (length m.bytes == length member))
]
  where
    and_false : (b : Bool) → (b && false) ≡ false
    and_false true = refl
    and_false false = refl

-- ZSCORE on a tree whose leaves are reached: the score of the first entry, in the order of the leaves, with
-- exactly these bytes, or -1 when there is none.
pub score-first_score :
    (tree : Tree) (member xs : List ℕ)
    → tree.root ≢ no_node
    → inorder (depth tree) tree tree.root ≡ some xs
    → score tree member ≡ some (first_score tree xs member)
unfolding score
score-first_score tree member xs root walk =
    let e : (tree.root == no_node) ≡ false = ground arith in
    rw (e, find_member-inorder (depth tree) tree tree.root member xs walk) (first xs)
  where
    first :
        (xs : List ℕ)
        → score_of tree (some (find_value tree xs member)) ≡ some (first_score tree xs member)
    first [] = refl
    first (x ∷ xs) = elim (Bool-cases (same_bytes (member_at tree x).bytes member)) [
      | inl b ↦ rw (member_equal-same_bytes (member_at tree x) member, b) refl
      | inr b ↦ rw (member_equal-same_bytes (member_at tree x) member, b) (first xs)
    ]
