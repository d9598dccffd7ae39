-- ===== src/KeyRegistry/Index.antt =====
-- The index that a key has in a registry of src/key_registry.c.
use zedis.Base.{
  ℕ, zero, suc, ◌+◌, ◌-◌, ◌*◌, ◌/◌, ◌%◌, ◌^◌, ◌≤◌, ◌<◌, ◌≡◌, refl, sym, ap, ◌∙◌, true, false,
  Option, none, some, List, [], ◌∷◌, ltb, leb, if◌then◌else◌, Bool-cases, inl, inr, length, arith,
  min, ltb→lt, ltb→le, leb→le, lt→ltb, le→leb, lt→leb, take_all, length-append,
}
use zedis.Base.Bytes.{Text, cstr_all}
use zedis.HashTable.{Table, fetch, max_key, same_bytes}
use zedis.HashTable.Walk.{same_bytes-eq}
use zedis.HashTable.Total.{admits}
use zedis.HashTable.Refine.{answer, set_key_refines}
use zedis.HashTable.Dictionary.{
  Dictionary, put, Agrees, get-Agrees, set_key-count, set_key-long, Stored-Agrees,
}
use zedis.Resp.Scan.{is_digit}
use zedis.Resp.Format.{decimal_in, decimal}
use zedis.Resp.Decode.Lines.{Digits, value_of, value_of-grows, decimal-Digits, decimal-value}
use zedis.KeyRegistry.{
  Registry, strtoul_from, index_of, looked_up, lookup_index, store_index, index_for_key, take_index,
  index_or,
}

strtoul_from-Digits :
    (v : ℕ) (ds : List ℕ) → Digits ds → value_of v ds < 2 ^ 64 → strtoul_from v ds ≡ value_of v ds
strtoul_from-Digits v [] d h = refl
strtoul_from-Digits v (c ∷ ds) (a, b, d) h =
    let g = value_of-grows (v * 10 + (c - 48)) ds in
    let is : is_digit c ≡ true = ground arith in
    let whole : min (v * 10 + (c - 48)) (2 ^ 64 - 1) ≡ v * 10 + (c - 48) = omega arith in
    rw (is, whole) (strtoul_from-Digits (v * 10 + (c - 48)) ds d h)

Digits-Text : (ds : List ℕ) → Digits ds → Text ds
Digits-Text [] d = tt
Digits-Text (c ∷ ds) (a, b, d) = (omega arith, Digits-Text ds d)

length-decimal_in : (fuel n : ℕ) → length (decimal_in fuel n) ≤ fuel
unfolding decimal_in
length-decimal_in zero n = omega arith
length-decimal_in (suc fuel) n = elim (Bool-cases (ltb n 10)) [
  | inl e ↦ rw e (omega arith)
  | inr e ↦ rw e (
      omega (
        arith,
        length-decimal_in fuel (n / 10),
        length-append (decimal_in fuel (n / 10)) ((48 + n % 10) ∷ []),
      ))
]

-- What `store_index` writes, `lookup_index` reads.
index_of-decimal : (n : ℕ) → n < 2 ^ 32 → index_of (fetch 32 (decimal n)) ≡ n
index_of-decimal n h =
    let l = length-decimal_in 20 n in
    let d = decimal-Digits 20 n in
    let small : ltb (length (decimal n)) 32 ≡ true = lt→ltb _ _ (omega arith) in
    let v = decimal-value 20 n (omega arith) in
    rw
      (
        small,
        take_all (length (decimal n)) (decimal n) (omega arith),
        cstr_all (decimal n) (Digits-Text (decimal n) d),
      )
      (ap (λ k. k % 2 ^ 32) (strtoul_from-Digits 0 (decimal n) d (omega (arith, v)) ∙ v)
        ∙ omega arith)

-- What the table of a registry holds for an index.
abbrev pub name_of : Option ℕ → Option (List ℕ)
name_of none = none
name_of (some i) = some (decimal i)

-- The registry gives each key the index that the function has for it, and no two keys one index.
pub record Indexed {A : Type 0} (reg : Registry A) (index : List ℕ → Option ℕ) : Type 0 where
  pub named : Agrees reg.keys (λ q. name_of (index q))
  pub counted : reg.keys.count ≤ reg.used
  pub limit : reg.used ≤ reg.max_items
  pub size : length reg.items ≡ reg.max_items
  pub some_items : 0 < reg.max_items
  pub word : reg.max_items < 2 ^ 31
  pub capacity : reg.keys.capacity ≡ reg.max_items * 2
  pub bound : (q : List ℕ) (i : ℕ) → index q ≡ some i → i < reg.used
  pub apart : (q r : List ℕ) (i : ℕ) → index q ≡ some i → index r ≡ some i → q ≡ r

abbrev pub assign : List ℕ → ℕ → (List ℕ → Option ℕ) → List ℕ → Option ℕ
assign key idx index q = if same_bytes key q then some idx else index q

pub lookup_index-Indexed :
    {A : Type 0} (reg : Registry A) (index : List ℕ → Option ℕ) (key : List ℕ)
    → Indexed reg index
    → lookup_index reg.keys key ≡ some (index key)
unfolding lookup_index
lookup_index-Indexed reg index key v =
    let g =
      get-Agrees {t = reg.keys} key 32 v.named
        (omega (arith, v.counted, v.limit, v.some_items, v.capacity)) in
    ap looked_up g ∙ back (index key) (λ i e. v.bound key i e)
  where
    back :
        (o : Option ℕ)
        → ((i : ℕ) → o ≡ some i → i < reg.used)
        → looked_up (some (answer 32 (name_of o))) ≡ some o
    back none b = refl
    back (some i) b =
        ap (λ n. some (some n)) (index_of-decimal i (omega (arith, b i refl, v.limit, v.word)))

-- What a call that may create an index returns, and the registry it leaves.
pub data Found {A : Type 0} (reg : Registry A) (index : List ℕ → Option ℕ) (key : List ℕ)
    (r : Option (Option ℕ × Registry A)) : Type 0 where
  present : (i : ℕ) → index key ≡ some i → r ≡ some (some i, reg) → Found reg index key r
  created :
      (reg' : Registry A)
      → index key ≡ none
      → reg.used < reg.max_items
      → length key ≤ max_key
      → reg'.items ≡ reg.items
      → reg'.max_items ≡ reg.max_items
      → reg'.used ≡ reg.used + 1
      → Indexed reg' (assign key reg.used index)
      → r ≡ some (some reg.used, reg')
      → Found reg index key r
  burnt :
      index key ≡ none
      → reg.used < reg.max_items
      → max_key < length key
      → Indexed (record reg { used = reg.used + 1 }) index
      → r ≡ some (none, record reg { used = reg.used + 1 })
      → Found reg index key r
  full : index key ≡ none → reg.max_items ≤ reg.used → r ≡ some (none, reg) → Found reg index key r

Agrees-ext : {t : Table} {m n : Dictionary} → Agrees t m → ((q : List ℕ) → m q ≡ n q) → Agrees t n
Agrees-ext {t} {m} {n} a e = record {
  shape = a.shape;
  ordered = a.ordered;
  same = λ q v. let s = a.same q v in ((λ x. sym (e q) ∙ s.0 x), λ z. s.1 (e q ∙ z));
}

put-assign :
    (key : List ℕ) (idx : ℕ) (index : List ℕ → Option ℕ) (q : List ℕ)
    → put key (decimal idx) (λ r. name_of (index r)) q ≡ name_of (assign key idx index q)
unfolding put
put-assign key idx index q = elim (Bool-cases (same_bytes key q)) [
  | inl e ↦ rw e refl
  | inr e ↦ rw e refl
]

module _ {A : Type 0} (reg : Registry A) (index : List ℕ → Option ℕ) (key : List ℕ)
    (v : Indexed reg index) (absent : index key ≡ none) (room : reg.used < reg.max_items) where
  next_used : Registry A
  next_used = record reg { used = reg.used + 1 }

  next_used-Indexed : Indexed next_used index
  unfolding next_used
  next_used-Indexed = record {
    named = v.named;
    counted = omega (arith, v.counted);
    limit = omega arith;
    size = v.size;
    some_items = v.some_items;
    word = v.word;
    capacity = v.capacity;
    bound = λ q i e. omega (arith, v.bound q i e);
    apart = v.apart;
  }

  assign-apart :
      (q r : List ℕ) (i : ℕ)
      → assign key reg.used index q ≡ some i
      → assign key reg.used index r ≡ some i
      → q ≡ r
  assign-apart q r i e f = elim (Bool-cases (same_bytes key q)) [
    | inl a ↦ elim (Bool-cases (same_bytes key r)) [
      | inl b ↦ sym (same_bytes-eq key q a) ∙ same_bytes-eq key r b
      | inr b ↦
          let e' : some reg.used ≡ some i = rw a at e in
          let f' : index r ≡ some i = rw b at f in
          let n : reg.used ≡ i = cc in absurd (omega (arith, v.bound r i f', n))
    ]
    | inr a ↦ elim (Bool-cases (same_bytes key r)) [
      | inl b ↦
          let f' : some reg.used ≡ some i = rw b at f in
          let e' : index q ≡ some i = rw a at e in
          let n : reg.used ≡ i = cc in absurd (omega (arith, v.bound q i e', n))
      | inr b ↦
          let e' : index q ≡ some i = rw a at e in
          let f' : index r ≡ some i = rw b at f in v.apart q r i e' f'
    ]
  ]

  assign-bound : (q : List ℕ) (i : ℕ) → assign key reg.used index q ≡ some i → i < reg.used + 1
  assign-bound q i e = elim (Bool-cases (same_bytes key q)) [
    | inl a ↦
        let e' : some reg.used ≡ some i = rw a at e in let n : reg.used ≡ i = cc in omega (arith, n)
    | inr a ↦ let e' : index q ≡ some i = rw a at e in omega (arith, v.bound q i e')
  ]

  not_le : (a b : ℕ) → leb a b ≡ false → b < a
  not_le a b h = ground arith

  take_index-Found : Found reg index key (take_index reg key)
  unfolding store_index next_used
  take_index-Found =
      let open_ : leb reg.max_items reg.used ≡ false = lt→leb _ _ room in
      let word : (reg.used + 1) % 2 ^ 32 ≡ reg.used + 1 = omega (arith, v.word) in
      let short = length-decimal_in 20 reg.used in
      rw (open_, word)
        (elim (Bool-cases (leb (length key) max_key)) [
          | inl k ↦
              let l : length key ≤ max_key = leb→le _ _ k in
              let go : admits reg.keys key (decimal reg.used) ≡ true =
                ground (arith, k, short, v.counted, room, v.capacity, v.some_items) in
              let (t, s) =
                set_key_refines {t = reg.keys} key (decimal reg.used) v.named.shape v.named.ordered
                  go in
              let n = set_key-count reg.keys key (decimal reg.used) t s.returns in
              rw s.returns (
                created _ absent room l refl refl refl
                  (record {
                    named =
                        Agrees-ext (Stored-Agrees key (decimal reg.used) t v.named s)
                          (put-assign key reg.used index);
                    counted = omega (arith, n, v.counted);
                    limit = omega arith;
                    size = v.size;
                    some_items = v.some_items;
                    word = v.word;
                    capacity = s.same_capacity ∙ v.capacity;
                    bound = assign-bound;
                    apart = assign-apart;
                  })
                  refl)
          | inr k ↦
              let long : max_key < length key = not_le _ _ k in
              rw (set_key-long reg.keys key (decimal reg.used) long)
                (burnt absent room long next_used-Indexed refl)
        ])

-- The index of a key: the one it has, or the next_used one when there is room; a key of more than 256 bytes
-- gets none, and uses up an index all the same.
pub index_for_key-Found :
    {A : Type 0} (reg : Registry A) (index : List ℕ → Option ℕ) (key : List ℕ)
    → Indexed reg index
    → Found reg index key (index_for_key reg key true)
unfolding index_for_key
index_for_key-Found reg index key v =
    rw (lookup_index-Indexed reg index key v) (decide (index key) refl)
  where
    decide : (o : Option ℕ) → index key ≡ o → Found reg index key (index_or reg key true (some o))
    decide (some i) e = present i e refl
    decide none e = elim (Bool-cases (ltb reg.used reg.max_items)) [
      | inl l ↦ take_index-Found reg index key v e (ltb→lt _ _ l)
      | inr l ↦ let g = ltb→le _ _ l in rw (le→leb _ _ g) (full e g refl)
    ]
