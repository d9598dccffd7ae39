-- ===== src/BTree/Cells.antt =====
-- The loops of src/btree.c over the cells of a node.
use zedis.Base.{
  ℕ, zero, suc, ◌+◌, ◌-◌, ◌≤◌, ◌<◌, ◌≡◌, refl, sym, ap, ◌∙◌, true, false, List, [], ◌∷◌, ◌++◌, ltb,
  length, get_or, set, take, drop, arith, length-set, length-take, take-append_left, take_all,
  Bool-cases, inl, inr, append_assoc, length-drop,
}
use zedis.BTree.Insert.{shift_up, copy_cells}

module _ {A : Type 0} where
  take-set_late : (k n : ℕ) (w : A) (xs : List A) → k ≤ n → take k (set xs n w) ≡ take k xs
  take-set_late zero n w xs h = refl
  take-set_late (suc k) zero w xs h = absurd (omega arith)
  take-set_late (suc k) (suc n) w [] h = refl
  take-set_late (suc k) (suc n) w (x ∷ xs) h = ap (◌∷◌ x) (take-set_late k n w xs (omega arith))

  drop-set_at :
      (n : ℕ) (w : A) (xs : List A) → n < length xs → drop n (set xs n w) ≡ w ∷ drop (suc n) xs
  drop-set_at n w [] h = absurd (omega arith)
  drop-set_at zero w (x ∷ xs) h = refl
  drop-set_at (suc n) w (x ∷ xs) h = drop-set_at n w xs (omega arith)

  pub take-snoc :
      (n : ℕ) (d : A) (xs : List A)
      → n < length xs
      → take (suc n) xs ≡ take n xs ++ get_or xs n d ∷ []
  take-snoc n d [] h = absurd (omega arith)
  take-snoc zero d (x ∷ xs) h = refl
  take-snoc (suc n) d (x ∷ xs) h = ap (◌∷◌ x) (take-snoc n d xs (omega arith))

  take-set_last :
      (n : ℕ) (w : A) (xs : List A)
      → n < length xs
      → take (suc n) (set xs n w) ≡ take n xs ++ w ∷ []
  take-set_last n w [] h = absurd (omega arith)
  take-set_last zero w (x ∷ xs) h = refl
  take-set_last (suc n) w (x ∷ xs) h = ap (◌∷◌ x) (take-set_last n w xs (omega arith))

  get_or-drop : (m n : ℕ) (d : A) (xs : List A) → get_or (drop m xs) n d ≡ get_or xs (m + n) d
  get_or-drop zero n d xs = ap (λ k. get_or xs k d) (omega arith)
  get_or-drop (suc m) n d [] = refl
  get_or-drop (suc m) n d (x ∷ xs) =
      get_or-drop m n d xs
      ∙ ap (λ k. get_or (x ∷ xs) k d) (let e : suc (m + n) ≡ suc m + n = omega arith in e)

  pub length-shift_up : (n at : ℕ) (d : A) (xs : List A) → length (shift_up n at d xs) ≡ length xs
  length-shift_up zero at d xs = refl
  length-shift_up (suc n) at d xs = elim (Bool-cases (ltb at (suc n))) [
    | inl e ↦ rw e (
        length-shift_up n at d (set xs (suc n) (get_or xs n d))
        ∙ length-set xs (suc n) (get_or xs n d))
    | inr e ↦ rw e refl
  ]

  shift_up-tail :
      (n at : ℕ) (d x : A) (xs : List A)
      → shift_up (suc n) (suc at) d (x ∷ xs) ≡ x ∷ shift_up n at d xs
  shift_up-tail zero at d x xs = let e : ltb (suc at) 1 ≡ false = ground arith in rw e refl
  shift_up-tail (suc n) at d x xs = elim (Bool-cases (ltb at (suc n))) [
    | inl e ↦
        let f : ltb (suc at) (suc (suc n)) ≡ true = ground arith in
        rw (e, f) (shift_up-tail n at d x (set xs (suc n) (get_or xs n d)))
    | inr e ↦ let f : ltb (suc at) (suc (suc n)) ≡ false = ground arith in rw (e, f) refl
  ]

  shift_up-start :
      (n : ℕ) (d x : A) (xs : List A)
      → n ≤ length xs
      → shift_up n 0 d (x ∷ xs) ≡ x ∷ (take n (x ∷ xs) ++ drop n xs)
  shift_up-start zero d x xs h = refl
  shift_up-start (suc n) d x xs h =
      let w : A = get_or (x ∷ xs) n d in
      let e : ltb 0 (suc n) ≡ true = ground arith in
      let s : take n (x ∷ set xs n w) ≡ take n (x ∷ xs) = first n w in
      rw e (
        shift_up-start n d x (set xs n w) (omega (arith, length-set xs n w))
        ∙ ap (◌∷◌ x) (
            ap (λ l. l ++ drop n (set xs n w)) s
            ∙ (ap (λ l. take n (x ∷ xs) ++ l) (drop-set_at n w xs (omega arith))
                ∙ (sym (append_assoc (take n (x ∷ xs)) (w ∷ []) (drop (suc n) xs))
                    ∙ ap (λ l. l ++ drop (suc n) xs)
                        (sym (take-snoc n d (x ∷ xs) (omega arith)))))))
    where
      first : (n : ℕ) (w : A) → take n (x ∷ set xs n w) ≡ take n (x ∷ xs)
      first zero w = refl
      first (suc n) w = ap (◌∷◌ x) (take-set_late n (suc n) w xs (omega arith))

  -- A value put in at `at` among the first `n` cells.
  pub insert_cells :
      (n at : ℕ) (d v : A) (xs : List A)
      → at ≤ n
      → n < length xs
      → take (suc n) (set (shift_up n at d xs) at v) ≡ take at xs ++ v ∷ take (n - at) (drop at xs)
  insert_cells n at d v [] h k = absurd (omega arith)
  insert_cells n zero d v (x ∷ xs) h k =
      let e : n - 0 ≡ n = omega arith in
      let len : length (take n (x ∷ xs)) ≡ n = length-take n (x ∷ xs) ∙ omega arith in
      rw (shift_up-start n d x xs (omega arith), e)
        (ap (◌∷◌ v) (
          take-append_left n (take n (x ∷ xs)) (drop n xs) (omega (arith, len))
          ∙ take_all n (take n (x ∷ xs)) (omega (arith, len))))
  insert_cells zero (suc at) d v (x ∷ xs) h k = absurd (omega arith)
  insert_cells (suc n) (suc at) d v (x ∷ xs) h k =
      let e : suc n - suc at ≡ n - at = omega arith in
      rw (shift_up-tail n at d x xs, e)
        (ap (◌∷◌ x) (insert_cells n at d v xs (omega arith) (omega arith)))

  pub length-copy_cells :
      (n : ℕ) (src : List A) (from : ℕ) (d : A) (dst : List A)
      → length (copy_cells n src from d dst) ≡ length dst
  length-copy_cells zero src from d dst = refl
  length-copy_cells (suc n) src from d dst =
      length-set (copy_cells n src from d dst) n _ ∙ length-copy_cells n src from d dst

  -- The copied cells.
  pub take-copy_cells :
      (n : ℕ) (src : List A) (from : ℕ) (d : A) (dst : List A)
      → from + n ≤ length src
      → n ≤ length dst
      → take n (copy_cells n src from d dst) ≡ take n (drop from src)
  take-copy_cells zero src from d dst h k = refl
  take-copy_cells (suc n) src from d dst h k =
      take-set_last n (get_or src (from + n) d) (copy_cells n src from d dst)
        (omega (arith, length-copy_cells n src from d dst))
      ∙ (ap (λ l. l ++ get_or src (from + n) d ∷ [])
            (take-copy_cells n src from d dst (omega arith) (omega arith))
          ∙ (ap (λ w. take n (drop from src) ++ w ∷ []) (sym (get_or-drop from n d src))
              ∙ sym (take-snoc n d (drop from src) (omega (arith, length-drop from src)))))
