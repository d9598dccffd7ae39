-- ===== src/KeyRegistry/Start.antt =====
-- The list registry that `zedis_list_reg_init` of src/key_registry.c makes.
use zedis.Base.{
  ℕ, ◌*◌, ◌%◌, ◌^◌, ◌<◌, ◌≡◌, refl, sym, false, Option, none, some, [], ◌==◌, Bool-cases, inl, inr,
  arith, replicate, length-replicate, get_or-replicate,
}
use zedis.Arena.{Arena, calloc}
use zedis.HashTable.{Table, init, fresh, on_entries, entry_size}
use zedis.HashTable.Dictionary.{fresh-Agrees}
use zedis.AppendLog.{Log, Meta}
use zedis.AppendLog.Chain as Chains
use zedis.KeyRegistry.{Registry, empty_list, with_keys, with_lists, list_reg_init}
use zedis.KeyRegistry.Lists.{Tracks}

abbrev pub fresh_lists : ℕ → Registry Meta
fresh_lists n = record {
  items = replicate n empty_list;
  keys = fresh (n * 2);
  max_items = n;
  used = 0;
}

pub fresh_lists-Tracks :
    (n : ℕ) (log : Log)
    → 0 < n
    → n < 2 ^ 31
    → Chains.IsValid log
    → Tracks (fresh_lists n) log (λ q. none) (λ i. [])
fresh_lists-Tracks n log pos small v = record {
  indexed = record {
    named = fresh-Agrees (n * 2) (omega arith) (omega arith);
    counted = omega arith;
    limit = omega arith;
    size = length-replicate n empty_list;
    some_items = pos;
    word = small;
    capacity = refl;
    bound = λ q i e. absurd cc;
    apart = λ q r i e f. absurd cc;
  };
  log_valid = v;
  lists =
      λ i h. rw (get_or-replicate n i empty_list) (record { chain = refl; number = omega arith });
  unused = λ i h. refl;
}

init-fresh :
    (arena arena' : Arena) (n : ℕ) (t : Table)
    → init arena n ≡ (some t, arena')
    → (t ≡ fresh n) × (0 < n)
unfolding init
init-fresh arena arena' n t h = elim (Bool-cases (n == 0)) [
  | inl z ↦ let e : (none, arena) ≡ (some t, arena') = rw z at h in absurd (cc e)
  | inr p ↦
      let e : on_entries n (calloc arena n entry_size 64) ≡ (some t, arena') = rw p at h in
      (filled (calloc arena n entry_size 64) e, positive n p)
]
  where
    filled : (r : Option ℕ × Arena) → on_entries n r ≡ (some t, arena') → t ≡ fresh n
    filled (none, a) e = absurd (cc e)
    filled (some p, a) e = let f : fresh n ≡ t = cc e in sym f

    positive : (n : ℕ) → (n == 0) ≡ false → 0 < n
    positive n p = ground arith

-- A list registry that `zedis_list_reg_init` made, for at most 2 ^ 31 - 1 lists, has an empty list for every
-- key, whatever valid log it is used with.
pub list_reg_init-Tracks :
    (arena arena' : Arena) (max_lists : ℕ) (reg : Registry Meta) (log : Log)
    → max_lists < 2 ^ 31
    → Chains.IsValid log
    → list_reg_init arena max_lists ≡ (some reg, arena')
    → Tracks reg log (λ q. none) (λ i. [])
unfolding list_reg_init
list_reg_init-Tracks arena arena' n reg log small v h = elim (Bool-cases (n == 0)) [
  | inl z ↦ let e : (none, arena) ≡ (some reg, arena') = rw z at h in absurd (cc e)
  | inr p ↦
      let e : with_lists n (calloc arena n 12 64) ≡ (some reg, arena') = rw p at h in
      on_lists (calloc arena n 12 64) e
]
  where
    on_keys :
        (r : Option Table × Arena)
        → ((t : Table) (a : Arena) → r ≡ (some t, a) → (t ≡ fresh (n * 2)) × (0 < n * 2))
        → with_keys n r ≡ (some reg, arena')
        → Tracks reg log (λ q. none) (λ i. [])
    on_keys (none, a) f e = absurd (cc e)
    on_keys (some t, a) f e =
        let (same, pos) = f t a refl in
        let k : record { items = replicate n empty_list; keys = t; max_items = n; used = 0 } ≡ reg =
          cc e in
        rw (← k, same) (fresh_lists-Tracks n log (omega arith) small v)

    on_lists :
        (r : Option ℕ × Arena)
        → with_lists n r ≡ (some reg, arena')
        → Tracks reg log (λ q. none) (λ i. [])
    on_lists (none, a) e = absurd (cc e)
    on_lists (some p, a) e =
        let word : n * 2 % 2 ^ 32 ≡ n * 2 = omega arith in
        let f : with_keys n (init a (n * 2)) ≡ (some reg, arena') = rw word at e in
        on_keys (init a (n * 2)) (λ t b. init-fresh a b (n * 2) t) f
