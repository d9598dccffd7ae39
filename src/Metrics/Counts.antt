-- ===== src/Metrics/Counts.antt =====
-- src/metrics.c: after a run of commands each counter holds the number of its command's calls.
use zedis.Base.{
  ℕ, zero, suc, ◌+◌, ◌-◌, ◌%◌, ◌^◌, ◌≤◌, ◌<◌, ◌≡◌, refl, sym, ap, ◌∙◌, Bool, true, false, Option,
  none, some, List, [], ◌∷◌, length, get_or, get_or-set_self, get_or-set_ne, length-set,
  get_or-replicate, ◌==◌, ==_refl, ◌&&◌, not, if◌then◌else◌, arith, inl, inr, Bool-cases,
}
use zedis.Base.Size.{add_size}
use zedis.HashTable.{same_bytes}
use zedis.HashTable.Walk.{same_bytes-eq, same_bytes_refl}
use zedis.Metrics.{
  Metrics, command_names, command_index, name_equal, index_from, count, record_command, fresh,
}

-- The calls in turn
abbrev pub record_all : List (List ℕ) → Option Metrics → Option Metrics
record_all [] m = m
record_all (name ∷ names) m = record_all names (record_command m name)

-- How often a name stands in a list of names
abbrev pub occurrences : List ℕ → List (List ℕ) → ℕ
occurrences a [] = 0
occurrences a (name ∷ names) =
    let rest = occurrences a names in if same_bytes a name then suc rest else rest

-- The `i`th counter; 0 without metrics
abbrev pub counter : ℕ → Option Metrics → ℕ
counter i none = 0
counter i (some m) = get_or m.command_counts i 0

abbrev differs : List ℕ → List (List ℕ) → Bool
differs a [] = true
differs a (x ∷ xs) = not (name_equal a x) && differs a xs

abbrev distinct : List (List ℕ) → Bool
distinct [] = true
distinct (x ∷ xs) = differs x xs && distinct xs

name_equal_refl : (a : List ℕ) → name_equal a a ≡ true
name_equal_refl a = rw (==_refl (length a), same_bytes_refl a) refl

name_equal-same_bytes : (a b : List ℕ) → name_equal a b ≡ same_bytes a b
name_equal-same_bytes a b = elim (Bool-cases (same_bytes a b)) [
  | inl e ↦ rw (same_bytes-eq a b e) (name_equal_refl b ∙ sym (same_bytes_refl b))
  | inr e ↦ rw e (and_false (length a == length b))
]
  where
    and_false : (b : Bool) → (b && false) ≡ false
    and_false true = refl
    and_false false = refl

differs-name_equal :
    (a : List ℕ) (xs : List (List ℕ)) (i : ℕ)
    → differs a xs ≡ true
    → i < length xs
    → name_equal a (get_or xs i []) ≡ false
differs-name_equal a [] i d h = absurd (omega arith)
differs-name_equal a (x ∷ xs) zero d h = ground (arith, d)
differs-name_equal a (x ∷ xs) (suc i) d h =
    differs-name_equal a xs i (ground (arith, d)) (omega arith)

table-distinct : distinct command_names ≡ true
table-distinct = refl

-- A name of the table is found at its own place.
index_from-own :
    (k : ℕ) (xs : List (List ℕ)) (i : ℕ)
    → distinct xs ≡ true
    → i < length xs
    → index_from k xs (get_or xs i []) ≡ some (k + i)
unfolding index_from
index_from-own k [] i d h = absurd (omega arith)
index_from-own k (x ∷ xs) zero d h = rw (name_equal_refl x) (ap some (omega arith))
index_from-own k (x ∷ xs) (suc i) d h =
    let n = differs-name_equal x xs i (ground (arith, d)) (omega arith) in
    rw n (index_from-own (suc k) xs i (ground (arith, d)) (omega arith) ∙ ap some (omega arith))

-- Only the name itself is found at its place.
index_from-name :
    (k : ℕ) (xs : List (List ℕ)) (name : List ℕ) (j : ℕ)
    → index_from k xs name ≡ some j
    → (k ≤ j) × (name ≡ get_or xs (j - k) [])
unfolding index_from
index_from-name k [] name j e = cc
index_from-name k (x ∷ xs) name j e = elim (Bool-cases (name_equal x name)) [
  | inl b ↦
      let f : index_from k (x ∷ xs) name ≡ some k = rw b refl in
      let kj : k ≡ j = (let s : some k ≡ some j = sym f ∙ e in cc) in
      let z : j - k ≡ 0 = omega (arith, kj) in
      let n : name ≡ x = sym (same_bytes-eq x name (sym (name_equal-same_bytes x name) ∙ b)) in
      (omega (arith, kj), rw z n)
  | inr b ↦
      let f : index_from k (x ∷ xs) name ≡ index_from (suc k) xs name = rw b refl in
      let r : index_from (suc k) xs name ≡ some j = sym f ∙ e in
      let h : (suc k ≤ j) × (name ≡ get_or xs (j - suc k) []) =
        index_from-name (suc k) xs name j r in
      let p : j - k ≡ suc (j - suc k) = omega (arith, h.0) in (omega (arith, h.0), rw p h.1)
]

-- One call raises the counter of its name and no other.
counter-record_command :
    (m : Metrics) (name : List ℕ) (i : ℕ)
    → length m.command_counts ≡ length command_names
    → i < length command_names
    → counter i (record_command (some m) name) ≡ (
        if same_bytes (get_or command_names i []) name
        then add_size (counter i (some m)) 1
        else counter i (some m))
unfolding record_command
counter-record_command m name i n h =
    elim (Bool-cases (same_bytes (get_or command_names i []) name)) [
      | inl e ↦
          let own = index_from-own 0 command_names i table-distinct h in
          let a : get_or command_names i [] ≡ name =
            same_bytes-eq (get_or command_names i []) name e in
          let f : command_index name ≡ some i =
            sym (ap command_index a) ∙ own ∙ ap some (omega arith) in
          rw (e, f)
            (get_or-set_self m.command_counts i (add_size (get_or m.command_counts i 0) 1) 0
              (omega (arith, n, h)))
      | inr e ↦ rw e (untouched e (command_index name) refl)
    ]
  where
    untouched :
        same_bytes (get_or command_names i []) name ≡ false
        → (r : Option ℕ) → command_index name ≡ r
        → counter i (some (count m r)) ≡ counter i (some m)
    untouched e none f = refl
    untouched e (some j) f =
        let p = index_from-name 0 command_names name j f in
        get_or-set_ne m.command_counts j i (add_size (get_or m.command_counts j 0) 1) 0 (λ q.
          let k : j - 0 ≡ i = omega (arith, q) in
          let own : name ≡ get_or command_names i [] =
            p.1 ∙ ap (λ x. get_or command_names x []) k in
          let t : same_bytes (get_or command_names i []) name ≡ true =
            ap (same_bytes (get_or command_names i [])) own
            ∙ same_bytes_refl (get_or command_names i []) in
          absurd (cc (t, e)))

length-count :
    (m : Metrics) (r : Option ℕ) → length (count m r).command_counts ≡ length m.command_counts
length-count m none = refl
length-count m (some i) = length-set m.command_counts i (add_size (get_or m.command_counts i 0) 1)

add_step : (c k : ℕ) → add_size (add_size c 1) k ≡ add_size c (suc k)
add_step c k = omega arith

counter-record_all_from :
    (names : List (List ℕ)) (m : Metrics) (i : ℕ)
    → length m.command_counts ≡ length command_names
    → i < length command_names
    → counter i (some m) < 2 ^ 64
    → counter i (record_all names (some m))
      ≡ add_size (counter i (some m)) (occurrences (get_or command_names i []) names)
unfolding record_command
counter-record_all_from [] m i n h b = omega (arith, b)
counter-record_all_from (name ∷ names) m i n h b =
    let a = get_or command_names i [] in
    let m' = count m (command_index name) in
    let one = counter-record_command m name i n h in
    elim (Bool-cases (same_bytes a name)) [
      | inl e ↦
          let up : counter i (some m') ≡ add_size (counter i (some m)) 1 =
            one ∙ ap (λ t. if t then add_size (counter i (some m)) 1 else counter i (some m)) e in
          rw e (
            counter-record_all_from names m' i (length-count m (command_index name) ∙ n) h
              (omega (arith, up))
            ∙ ap (λ c. add_size c (occurrences a names)) up
            ∙ add_step (counter i (some m)) (occurrences a names))
      | inr e ↦
          let up : counter i (some m') ≡ counter i (some m) =
            one ∙ ap (λ t. if t then add_size (counter i (some m)) 1 else counter i (some m)) e in
          rw e (
            counter-record_all_from names m' i (length-count m (command_index name) ∙ n) h
              (omega (arith, up, b))
            ∙ ap (λ c. add_size c (occurrences a names)) up)
    ]

-- After any run of calls on a new record of counters, the counter of a command in the table is the
-- number of calls with exactly its name, modulo 2 ^ 64.
pub counter-record_all :
    (dir : List ℕ) (interval : ℕ) (names : List (List ℕ)) (i : ℕ)
    → i < length command_names
    → counter i (record_all names (some (fresh dir interval)))
      ≡ occurrences (get_or command_names i []) names % 2 ^ 64
counter-record_all dir interval names i h =
    let z : counter i (some (fresh dir interval)) ≡ 0 =
      get_or-replicate (length command_names) i 0 in
    counter-record_all_from names (fresh dir interval) i refl h (omega (arith, z))
    ∙ ap (λ c. add_size c (occurrences (get_or command_names i []) names)) z
    ∙ ap (λ k. k % 2 ^ 64) (omega arith)
