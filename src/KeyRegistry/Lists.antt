-- ===== src/KeyRegistry/Lists.antt =====
-- The lists of src/key_registry.c as a map from keys to sequences of values.
use native.Mathlib.Decide.{ℕ_discrete}
use zedis.Base.{
  ℕ, ◌+◌, ◌≤◌, ◌<◌, ◌≡◌, ◌≢◌, refl, sym, ap, ap₂, ◌∙◌, true, false, Option, none, some, List, [],
  ◌∷◌, ◌==◌, ==_refl, if◌then◌else◌, Bool-cases, inl, inr, ◌⊎◌, arith, set, get_or, length-set,
  get_or-set_self, get_or-set_ne,
}
use zedis.Base.Status.{Status, ok, failed}
use zedis.HashTable.{same_bytes}
use zedis.HashTable.Walk.{same_bytes-eq, same_bytes_refl}
use zedis.AppendLog.{Log, Meta}
use zedis.AppendLog.Chain.{Chain, Fits, Lists, Pushed, accepted, refused, lpush_refines}
use zedis.AppendLog.Chain as Chains
use zedis.KeyRegistry.{Registry, empty_list, list_of, push_at, list_reg_lpush}
use zedis.KeyRegistry.Index.{Indexed, assign, present, created, burnt, full, index_for_key-Found}

-- The registry and the log hold the lists `vals i`, and the keys have the indices `index q`.
pub record Tracks (reg : Registry Meta) (log : Log) (index : List ℕ → Option ℕ)
    (vals : ℕ → List (List ℕ)) : Type 0 where
  pub indexed : Indexed reg index
  pub log_valid : Chains.IsValid log
  pub lists : (i : ℕ) → i < reg.max_items → Lists log (list_of reg i) (vals i)
  pub unused : (i : ℕ) → reg.used ≤ i → vals i ≡ []

abbrev pub values_of : (ℕ → List (List ℕ)) → Option ℕ → List (List ℕ)
values_of vals none = []
values_of vals (some i) = vals i

-- The list of a key, empty for a key without one.
abbrev pub values : (List ℕ → Option ℕ) → (ℕ → List (List ℕ)) → List ℕ → List (List ℕ)
values index vals q = values_of vals (index q)

abbrev pub update : ℕ → List (List ℕ) → (ℕ → List (List ℕ)) → ℕ → List (List ℕ)
update i new vals j = if i == j then new else vals j

-- The map with one more value in front of the list of a key.
abbrev pub push_value : List ℕ → List ℕ → (List ℕ → List (List ℕ)) → List ℕ → List (List ℕ)
push_value key val map q = if same_bytes key q then val ∷ map key else map q

-- What `zedis_list_reg_lpush` made of the map.
pub data PushedList (reg : Registry Meta) (log : Log) (index : List ℕ → Option ℕ)
    (vals : ℕ → List (List ℕ)) (key val : List ℕ) (r : Option (Status × Registry Meta × Log))
    : Type 0 where
  pushed :
      (reg' : Registry Meta) (log' : Log) (index' : List ℕ → Option ℕ) (vals' : ℕ → List (List ℕ))
      → r ≡ some (ok, reg', log')
      → Fits log key val
      → Tracks reg' log' index' vals'
      → ((q : List ℕ) → values index' vals' q ≡ push_value key val (values index vals) q)
      → PushedList reg log index vals key val r
  rejected :
      (reg' : Registry Meta) (index' : List ℕ → Option ℕ) (vals' : ℕ → List (List ℕ))
      → r ≡ some (failed, reg', log)
      → (¬ Fits log key val) ⊎ ((index key ≡ none) × (reg.max_items ≤ reg.used))
      → Tracks reg' log index' vals'
      → ((q : List ℕ) → values index' vals' q ≡ values index vals q)
      → PushedList reg log index vals key val r

-- One list replaced, in a log that keeps the others.
module _ (reg : Registry Meta) (log log' : Log) (index : List ℕ → Option ℕ)
    (vals : ℕ → List (List ℕ)) (i : ℕ) (meta : Meta) (new : List (List ℕ))
    (t : Tracks reg log index vals) (inside : i < reg.used) where
  reg' : Registry Meta
  reg' = record reg { items = set reg.items i meta }

  replaced-Tracks :
      Chains.IsValid log'
      → Lists log' meta new
      → ((cur : ℕ) (others : List (List ℕ)) → Chain log cur others → Chain log' cur others)
      → Tracks reg' log' index (update i new vals)
  unfolding reg'
  replaced-Tracks valid l kept =
      let x = t.indexed in
      record {
        indexed = record {
          named = x.named;
          counted = x.counted;
          limit = x.limit;
          size = length-set reg.items i meta ∙ x.size;
          some_items = x.some_items;
          word = x.word;
          capacity = x.capacity;
          bound = x.bound;
          apart = x.apart;
        };
        log_valid = valid;
        lists = λ j h. elim (ℕ_discrete i j) [
          | yes e ↦
              let here : get_or (set reg.items i meta) i empty_list ≡ meta =
                get_or-set_self reg.items i meta empty_list (omega (arith, x.size, x.limit)) in
              rw (← e, ==_refl i, here) l
          | no n ↦
              let other : (i == j) ≡ false = ground arith in
              let o = t.lists j h in
              rw (other, get_or-set_ne reg.items i j meta empty_list n)
                (record { chain = kept _ _ o.chain; number = o.number })
        ];
        unused = λ j h.
            let other : (i == j) ≡ false = ground (arith, inside, h) in rw other (t.unused j h);
      }

  values-update :
      (key q : List ℕ)
      → index key ≡ some i
      → values index (update i new vals) q ≡ (if same_bytes key q then new else values index vals q)
  values-update key q e = elim (Bool-cases (same_bytes key q)) [
    | inl s ↦
        let k : index q ≡ some i = rw (same_bytes-eq key q s) at e in rw (s, k, ==_refl i) refl
    | inr s ↦ rw s (other (index q) refl s)
  ]
    where
      other :
          (o : Option ℕ)
          → index q ≡ o
          → same_bytes key q ≡ false
          → values_of (update i new vals) o ≡ values_of vals o
      other none f s = refl
      other (some j) f s =
          let n : i ≢ j = λ z.
            let k : key ≡ q = t.indexed.apart key q j (e ∙ ap some z) f in
            let y : same_bytes key q ≡ true = rw k (same_bytes_refl q) in absurd (cc (y, s)) in
          let b : (i == j) ≡ false = ground arith in rw b refl

push_at-PushedList :
    (reg : Registry Meta) (log : Log) (index : List ℕ → Option ℕ) (vals : ℕ → List (List ℕ))
    (key val : List ℕ) (i : ℕ)
    → Tracks reg log index vals
    → index key ≡ some i
    → PushedList reg log index vals key val (push_at log key val (some (some i, reg)))
unfolding reg'
push_at-PushedList reg log index vals key val i t e =
    let inside = t.indexed.bound key i e in
    let l = t.lists i (omega (arith, t.indexed.limit)) in
    elim (lpush_refines log (list_of reg i) (vals i) key val t.log_valid l) [
      | accepted log' meta f fits valid new kept ↦ rw f (
          pushed _ log' index (update i (val ∷ vals i) vals) refl fits
            (replaced-Tracks reg log log' index vals i meta (val ∷ vals i) t inside valid new kept)
            (λ q.
              values-update reg log log' index vals i meta (val ∷ vals i) t inside key q e
              ∙ ap (λ o. if same_bytes key q then val ∷ values_of vals o else values index vals q)
                  (sym e)))
      | refused f out ↦ rw f (
          rejected _ index (update i (vals i) vals) refl (inl out)
            (replaced-Tracks reg log log index vals i (list_of reg i) (vals i) t inside t.log_valid
              l (λ cur others c. c))
            (λ q.
              values-update reg log log index vals i (list_of reg i) (vals i) t inside key q e
              ∙ same key q i e))
    ]
  where
    same :
        (key q : List ℕ) (i : ℕ)
        → index key ≡ some i
        → (if same_bytes key q then vals i else values index vals q) ≡ values index vals q
    same key q i e = elim (Bool-cases (same_bytes key q)) [
      | inl s ↦ let k : index q ≡ some i = rw (same_bytes-eq key q s) at e in rw (s, k) refl
      | inr s ↦ rw s refl
    ]

-- A registry that gained an index has the same map.
module _ (reg reg1 : Registry Meta) (log : Log) (index : List ℕ → Option ℕ)
    (vals : ℕ → List (List ℕ)) (key : List ℕ) (t : Tracks reg log index vals)
    (absent : index key ≡ none) (items : reg1.items ≡ reg.items)
    (limit : reg1.max_items ≡ reg.max_items) (more : reg1.used ≡ reg.used + 1)
    (v : Indexed reg1 (assign key reg.used index)) where
  created-Tracks : Tracks reg1 log (assign key reg.used index) vals
  created-Tracks = record {
    indexed = v;
    log_valid = t.log_valid;
    lists = λ i h. rw items (t.lists i (omega (arith, limit)));
    unused = λ i h. t.unused i (omega (arith, more));
  }

  created-values : (q : List ℕ) → values (assign key reg.used index) vals q ≡ values index vals q
  created-values q = elim (Bool-cases (same_bytes key q)) [
    | inl s ↦
        let k : index q ≡ none = rw (same_bytes-eq key q s) at absent in
        rw (s, k) (t.unused reg.used (omega arith))
    | inr s ↦ rw s refl
  ]

  created-PushedList :
      (val : List ℕ) (r : Option (Status × Registry Meta × Log))
      → PushedList reg1 log (assign key reg.used index) vals key val r
      → PushedList reg log index vals key val r
  created-PushedList val r (pushed reg2 log2 index2 vals2 e fits t2 same) =
      pushed reg2 log2 index2 vals2 e fits t2 (λ q. same q ∙ ahead q)
    where
      ahead :
          (q : List ℕ)
          → push_value key val (values (assign key reg.used index) vals) q
            ≡ push_value key val (values index vals) q
      ahead q =
          ap₂ (λ x y. if same_bytes key q then val ∷ x else y) (created-values key')
            (created-values q)
        where
          key' : List ℕ
          key' = key
  created-PushedList val r (rejected reg2 index2 vals2 e why t2 same) =
      rejected reg2 index2 vals2 e
        (elim why [
          | inl out ↦ inl out
          | inr (none_now, _) ↦
              let k : some reg.used ≡ none = rw (same_bytes_refl key) at none_now in absurd cc
        ])
        t2 (λ q. same q ∙ created-values q)

burnt-Tracks :
    (reg : Registry Meta) (log : Log) (index : List ℕ → Option ℕ) (vals : ℕ → List (List ℕ))
    → Tracks reg log index vals
    → Indexed (record reg { used = reg.used + 1 }) index
    → Tracks (record reg { used = reg.used + 1 }) log index vals
burnt-Tracks reg log index vals t v = record {
  indexed = v;
  log_valid = t.log_valid;
  lists = t.lists;
  unused = λ i h. t.unused i (omega arith);
}

-- LPUSH on a registry and a log in order puts the value in front of the list of its key, which is empty
-- before the first value, and leaves every other key's list alone; or it returns -1 and leaves all lists
-- alone, and then the record does not fit into the log or its limits, or the key is new and all indices are
-- in use. Registry and log stay in order.
pub list_reg_lpush_refines :
    (reg : Registry Meta) (log : Log) (index : List ℕ → Option ℕ) (vals : ℕ → List (List ℕ))
    (key val : List ℕ)
    → Tracks reg log index vals
    → PushedList reg log index vals key val (list_reg_lpush reg log key val)
unfolding list_reg_lpush
list_reg_lpush_refines reg log index vals key val t =
    elim (index_for_key-Found reg index key t.indexed) [
      | present i e f ↦ rw f (push_at-PushedList reg log index vals key val i t e)
      | created reg1 absent room short items limit more v f ↦
          let own : assign key reg.used index key ≡ some reg.used = rw (same_bytes_refl key) refl in
          rw f (
            created-PushedList reg reg1 log index vals key t absent items limit more v val _ (
              push_at-PushedList reg1 log (assign key reg.used index) vals key val reg.used
                (created-Tracks reg reg1 log index vals key t absent items limit more v) own))
      | burnt absent room long v f ↦ rw f (
          rejected _ index vals refl (inl (λ fits. absurd (omega (arith, fits.short_key, long))))
            (burnt-Tracks reg log index vals t v) (λ q. refl))
      | full absent room f ↦ rw f (rejected reg index vals refl (inr (absent, room)) t (λ q. refl))
    ]
