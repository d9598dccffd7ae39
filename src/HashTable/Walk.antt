-- ===== src/HashTable/Walk.antt =====
-- Facts on slots, keys and single rounds that the proofs about the table share.
use native.Mathlib.Nat.{mod-add-mod, mod-eq_of_lt, add-mod_right}
use native.Mathlib.Decide.{dec_lt, ℕ_discrete}
use zedis.Base.{
  ℕ, zero, suc, ◌+◌, ◌-◌, ◌%◌, ◌≤◌, ◌<◌, ◌≡◌, ◌≢◌, refl, ap, ◌∙◌, true, false, List, [], ◌∷◌,
  ==_refl, if◌then◌else◌, length, set, arith, get_or-set_self, get_or-set_ne, inl, inr, Bool-cases,
}
use zedis.HashTable.{tombstone, Entry, is_occupied, is_empty, same_bytes, entry_key_match, entry_at}

pub same_bytes-eq : (a b : List ℕ) → same_bytes a b ≡ true → a ≡ b
same_bytes-eq [] [] h = refl
same_bytes-eq [] (b ∷ v) h = cc
same_bytes-eq (a ∷ u) [] h = cc
same_bytes-eq (a ∷ u) (b ∷ v) h = ground (arith, same_bytes-eq u v)

pub same_bytes_refl : (a : List ℕ) → same_bytes a a ≡ true
same_bytes_refl [] = refl
same_bytes_refl (a ∷ u) = rw (==_refl a) (same_bytes_refl u)

-- `entry_key_match` decides that the slot is occupied by the key, under its hash.
pub match-eq :
    (e : Entry) (hash : ℕ) (key : List ℕ)
    → entry_key_match e hash key ≡ true
    → (is_occupied e ≡ true) × (e.hash ≡ hash) × (e.key ≡ key)
unfolding entry_key_match
match-eq e hash key h = ground (arith, same_bytes-eq e.key key)

pub eq-match :
    (e : Entry) (hash : ℕ) (key : List ℕ)
    → is_occupied e ≡ true
    → e.hash ≡ hash
    → e.key ≡ key
    → entry_key_match e hash key ≡ true
unfolding entry_key_match
eq-match e hash key o h k = rw (o, h, k, ==_refl hash, ==_refl (length key), same_bytes_refl key)

pub entry_at-set_self :
    (es : List Entry) (i : ℕ) (x : Entry) → i < length es → entry_at (set es i x) i ≡ x
entry_at-set_self es i x h = get_or-set_self es i x _ h

pub entry_at-set_ne :
    (es : List Entry) (i j : ℕ) (x : Entry) → i ≢ j → entry_at (set es i x) j ≡ entry_at es j
entry_at-set_ne es i j x h = get_or-set_ne es i j x _ h

-- The number of occupied entries.
abbrev pub tally : List Entry → ℕ
tally [] = 0
tally (e ∷ es) = (if is_occupied e then 1 else 0) + tally es

-- Fewer occupied entries than slots leave a slot free.
pub free_slot :
    (es : List Entry)
    → tally es < length es
    → (i : ℕ) × (i < length es) × (is_occupied (entry_at es i) ≡ false)
free_slot [] h = absurd (omega arith)
free_slot (e ∷ es) h = elim (Bool-cases (is_occupied e)) [
  | inl o ↦
      let (i, a, b) =
        free_slot es (let k : 1 + tally es < suc (length es) = rw o at h in omega arith) in
      (suc i, omega arith, b)
  | inr f ↦ (0, omega arith, f)
]

abbrev weight : Entry → ℕ
weight e = if is_occupied e then 1 else 0

pub tally-set :
    (es : List Entry) (i : ℕ) (x : Entry)
    → i < length es
    → tally (set es i x) + weight (entry_at es i) ≡ tally es + weight x
tally-set [] i x h = absurd (omega arith)
tally-set (e ∷ es) zero x h = omega arith
tally-set (e ∷ es) (suc i) x h = omega (arith, tally-set es i x (omega arith))

-- The walk round the table: `n` slots on from `s`.
pub walk_next : (n' s n : ℕ) → ((s + n) % n' + 1) % n' ≡ (s + suc n) % n'
walk_next n' s n = mod-add-mod (s + n) n' 1 ∙ ap (λ t. t % n') (omega arith)

module _ (es : List Entry) (i : ℕ) (x : Entry) (inside : i < length es) where
  -- A slot that stays occupied leaves the tally, a free one that is filled adds one to it, and an occupied
  -- one that is given up takes one from it.
  pub tally-keep :
      is_occupied (entry_at es i) ≡ true → is_occupied x ≡ true → tally (set es i x) ≡ tally es
  tally-keep o p = let h = tally-set es i x inside in let k = rw (o, p) at h in omega arith

  pub tally-fill :
      is_occupied (entry_at es i) ≡ false → is_occupied x ≡ true → tally (set es i x) ≡ tally es + 1
  tally-fill o p = let h = tally-set es i x inside in let k = rw (o, p) at h in omega arith

  pub tally-clear :
      is_occupied (entry_at es i) ≡ true → is_occupied x ≡ false → tally (set es i x) + 1 ≡ tally es
  tally-clear o p = let h = tally-set es i x inside in let k = rw (o, p) at h in omega arith

-- Deleted entries have the probe length 0 that `zedis_ht_del` gives them.
abbrev pub Buried : List Entry → Type 0
Buried es = (i : ℕ) → (entry_at es i).state ≡ tombstone → (entry_at es i).psl ≡ 0

pub set-Buried :
    (es : List Entry) (i : ℕ) (x : Entry)
    → Buried es
    → (x.state ≡ tombstone → x.psl ≡ 0)
    → Buried (set es i x)
set-Buried es i x b h j = elim (ℕ_discrete i j) [
  | no n ↦ rw (entry_at-set_ne es i j x n) (b j)
  | yes e ↦ elim (dec_lt i (length es)) [
    | yes p ↦ rw (← e, entry_at-set_self es i x p) h
    | no p ↦ rw (set_outside es i x (omega arith)) (b j)
  ]
]
  where
    set_outside : (es : List Entry) (i : ℕ) (x : Entry) → length es ≤ i → set es i x ≡ es
    set_outside [] i x h = refl
    set_outside (e ∷ es) zero x h = absurd (omega arith)
    set_outside (e ∷ es) (suc i) x h = ap (◌∷◌ e) (set_outside es i x (omega arith))

-- The distance round the table from one slot to another.
pub distance : (n' s i : ℕ) → s < n' → i < n' → (d : ℕ) × (d < n') × ((s + d) % n' ≡ i)
distance n' s i hs hi = elim (dec_lt i s) [
  | no p ↦ (i - s, omega arith, (let e : s + (i - s) ≡ i = omega arith in rw e (mod-eq_of_lt hi)))
  | yes p ↦ (
    i + n' - s,
    omega arith,
    (let e : s + (i + n' - s) ≡ i + n' = omega arith in rw (e, add-mod_right) (mod-eq_of_lt hi)),
  )
]

pub tally-le : (es : List Entry) → tally es ≤ length es
tally-le [] = omega arith
tally-le (e ∷ es) = ground (arith, tally-le es)

pub tombstone_of : (e : Entry) → is_occupied e ≡ false → is_empty e ≡ false → e.state ≡ tombstone
tombstone_of e o b = ground arith
