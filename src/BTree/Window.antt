-- ===== src/BTree/Window.antt =====
-- The loop over the entries in `collect_inorder` of src/btree.c, entry by entry.
use zedis.Base.{
  ℕ, suc, ◌+◌, ◌-◌, ◌≤◌, ◌<◌, ◌≡◌, refl, sym, ap, ap₂, ◌∙◌, true, false, ◌&&◌, List, [], ◌∷◌, ◌++◌,
  Bool-cases, inl, inr, length, take, drop, arith, ltb, leb, length-append, append_assoc,
  append-nil, ltb→lt, ltb→le, lt→ltb, le→leb, drop_all, length-take,
}
use zedis.Base.Bytes.{Text, cstr_all}
use zedis.Base.Int.{pos}
use zedis.Resp.Format.{decimal, crlf}
use zedis.Resp.Format.Text.{bulk_text}
use zedis.AppendLog.Range.{Texts, bulks}
use zedis.BTree.{Tree, Member, member_at}
use zedis.BTree.Read.{entry_text, Window, put_entry, put_values}

-- The bytes of the members with these indices.
abbrev pub names : Tree → List ℕ → List (List ℕ)
names tree [] = []
names tree (x ∷ xs) = (member_at tree x).bytes ∷ names tree xs

pub length-names : (tree : Tree) (xs : List ℕ) → length (names tree xs) ≡ length xs
length-names tree [] = refl
length-names tree (x ∷ xs) = ap suc (length-names tree xs)

entry_text-Text : (m : Member) → Text m.bytes → entry_text m ≡ bulk_text m.bytes
entry_text-Text m t =
    ap (λ x. 36 ∷ decimal (length m.bytes) ++ (crlf ++ (x ++ crlf))) (cstr_all m.bytes t)

-- The entries from index `start` to `last` of those that begin at index `j`.
abbrev pub window : ℕ → ℕ → ℕ → List (List ℕ) → List (List ℕ)
window start last j vals = drop (start - j) (take (last + 1 - j) vals)

window-before :
    (start last j : ℕ) (v : List ℕ) (vals : List (List ℕ))
    → j < start
    → j ≤ last
    → window start last j (v ∷ vals) ≡ window start last (j + 1) vals
window-before start last j v vals h k =
    let e : start - j ≡ suc (start - (j + 1)) = omega arith in
    let f : last + 1 - j ≡ suc (last + 1 - (j + 1)) = omega arith in rw (e, f) refl

window-inside :
    (start last j : ℕ) (v : List ℕ) (vals : List (List ℕ))
    → start ≤ j
    → j ≤ last
    → window start last j (v ∷ vals) ≡ v ∷ window start last (j + 1) vals
window-inside start last j v vals h k =
    let e : start - j ≡ 0 = omega arith in
    let g : start - (j + 1) ≡ 0 = omega arith in
    let f : last + 1 - j ≡ suc (last + 1 - (j + 1)) = omega arith in rw (e, f, g) refl

window-behind : (start last j : ℕ) (vals : List (List ℕ)) → last < j → window start last j vals ≡ []
window-behind start last j vals h =
    let f : last + 1 - j ≡ 0 = omega arith in
    drop_all (start - j) (take (last + 1 - j) vals)
      (omega (arith, f, length-take (last + 1 - j) vals))

module _ (start last reply_cap j : ℕ) (reply : List ℕ) (m : Member) where
  abbrev asked : Window
  asked = record { start = start; stop = pos last; reply_cap = reply_cap }

  put_entry-outside :
      (leb start j && leb (j + 0) (last + 0)) ≡ false
      → put_entry asked m (j, reply) ≡ (j + 1, reply)
  put_entry-outside e = rw e refl

  put_entry-inside :
      start ≤ j
      → j ≤ last
      → length (reply ++ entry_text m) < reply_cap
      → put_entry asked m (j, reply) ≡ (j + 1, reply ++ entry_text m)
  put_entry-inside a b c =
      let e : leb (j + 0) (last + 0) ≡ true = le→leb _ _ (omega arith) in
      rw (le→leb start j a, e, lt→ltb _ _ c) refl

put_values-behind :
    (tree : Tree) (start last reply_cap j : ℕ) (reply xs : List ℕ)
    → last < j
    → put_values tree
        (record { start = start; stop = pos last; reply_cap = reply_cap })
        xs
        (j, reply)
      ≡ (j + length xs, reply)
put_values-behind tree start last reply_cap j reply [] h =
    ap (λ n. (n, reply)) (let e : j ≡ j + 0 = omega arith in e)
put_values-behind tree start last reply_cap j reply (x ∷ xs) h =
    let e : (leb start j && leb (j + 0) (last + 0)) ≡ false = ground arith in
    ap (put_values tree (record { start = start; stop = pos last; reply_cap = reply_cap }) xs)
      (put_entry-outside start last reply_cap j reply (member_at tree x) e)
    ∙ (put_values-behind tree start last reply_cap (j + 1) reply xs (omega arith)
        ∙ ap (λ n. (n, reply)) (let f : j + 1 + length xs ≡ j + suc (length xs) = omega arith in f))

-- The entries of the window, when all of them fit.
pub put_values-window :
    (tree : Tree) (start last reply_cap j : ℕ) (reply xs : List ℕ)
    → Texts (names tree xs)
    → length (reply ++ bulks (window start last j (names tree xs))) < reply_cap
    → put_values tree
        (record { start = start; stop = pos last; reply_cap = reply_cap })
        xs
        (j, reply)
      ≡ (j + length xs, reply ++ bulks (window start last j (names tree xs)))
put_values-window tree start last reply_cap j reply [] t room =
    let none_left : List (List ℕ) = [] in
    let e : window start last j none_left ≡ [] =
      drop_all (start - j) (take (last + 1 - j) none_left)
        (omega (arith, length-take (last + 1 - j) none_left)) in
    let n : j ≡ j + 0 = omega arith in
    ap (λ k. (k, reply)) n
    ∙ ap (λ r. (j + 0, r)) (sym (append-nil reply) ∙ ap (λ l. reply ++ bulks l) (sym e))
put_values-window tree start last reply_cap j reply (x ∷ xs) (t, ts) room =
    elim (Bool-cases (ltb last j)) [
      | inl b ↦
          let h = ltb→lt _ _ b in
          put_values-behind tree start last reply_cap j reply (x ∷ xs) h
          ∙ ap (λ r. (j + suc (length xs), r))
              (sym (append-nil reply)
                ∙ ap (λ l. reply ++ bulks l)
                    (sym (window-behind start last j (names tree (x ∷ xs)) h)))
      | inr b ↦
          let le = ltb→le _ _ b in
          elim (Bool-cases (ltb j start)) [
            | inl a ↦
                let lt = ltb→lt _ _ a in
                let e : (leb start j && leb (j + 0) (last + 0)) ≡ false = ground arith in
                let w = window-before start last j m.bytes (names tree xs) lt le in
                ap (put_values tree asked_for xs)
                  (put_entry-outside start last reply_cap j reply m e)
                ∙ (put_values-window tree start last reply_cap (j + 1) reply xs ts (rw w at room)
                    ∙ ap₂ (λ k l. (k, reply ++ bulks l)) next (sym w))
            | inr a ↦
                let ge = ltb→le _ _ a in
                let w = window-inside start last j m.bytes (names tree xs) ge le in
                let more = bulks (window start last (j + 1) (names tree xs)) in
                let text = entry_text-Text m t in
                let all : (reply ++ entry_text m) ++ more
                    ≡ reply ++ bulks (window start last j (names tree (x ∷ xs))) =
                  append_assoc reply (entry_text m) more
                  ∙ ap (λ r. reply ++ r) (ap (λ r. r ++ more) text ∙ ap bulks (sym w)) in
                let fits : length ((reply ++ entry_text m) ++ more) < reply_cap = rw all room in
                ap (put_values tree asked_for xs) (
                  put_entry-inside start last reply_cap j reply m ge le
                    (omega (arith, fits, length-append (reply ++ entry_text m) more)))
                ∙ (put_values-window tree start last reply_cap (j + 1) (reply ++ entry_text m) xs ts
                      fits
                    ∙ ap₂ (λ k r. (k, r)) next all)
          ]
    ]
  where
    m : Member
    m = member_at tree x

    asked_for : Window
    asked_for = record { start = start; stop = pos last; reply_cap = reply_cap }

    next : j + 1 + length xs ≡ j + suc (length xs)
    next = omega arith
