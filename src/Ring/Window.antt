-- ===== src/Ring/Window.antt =====
-- The window of unread slots of a ring, and the queue that it stands for.
use native.Mathlib.Decide.{dec_lt}
use native.Mathlib.Nat.{pow-le-pow_right, mod-eq-sub-mod, mod-lt, mod-add-mod, mod-eq_of_lt}
use zedis.Base.{
  ℕ, zero, suc, ◌+◌, ◌-◌, ◌%◌, ◌^◌, ◌≤◌, ◌<◌, ◌≡◌, ◌≢◌, refl, ap, ap₂, ◌∙◌, List, [], ◌∷◌, ◌++◌,
  length, take, drop, take-append_left, get_or, set, arith, take_all, get_or-set_self,
  get_or-set_ne, length-take, take-append_self, lt→leb, le→leb,
}
use zedis.Base.Bits.{bit_and_mask, pow_pos}
use zedis.Base.Bytes.{memcpy, cstr, Text, cstr-terminated, take-Text}
use zedis.Base.Size.{add_size, sub_size}
use zedis.Ring.{Slot, Ring, Message, view, zero_slot, fill, index}
use zedis.Ring.Queue.{Queue}

-- The representation invariant. The sequence numbers are 64-bit counters that have not wrapped.
pub record IsValid (r : Ring) : Type 0 where
  pub power : (k : ℕ) × (r.capacity ≡ 2 ^ k) × (k < 64)
  pub storage : length r.slots ≡ r.capacity
  pub ordered : r.read_seq ≤ r.write_seq
  pub bounded : r.write_seq - r.read_seq ≤ r.capacity
  pub counted : r.write_seq < 2 ^ 64

pub capacity_pos : {r : Ring} → IsValid r → 0 < r.capacity
capacity_pos v = omega (arith, v.power.1, pow_pos v.power.0)

-- The mask is the remainder by the capacity.
pub index-mod : {r : Ring} (seq : ℕ) → IsValid r → index r seq ≡ seq % r.capacity
index-mod {r} seq v =
    let (k, e, small) = v.power in
    rw
      (
        let d : sub_size r.capacity 1 ≡ 2 ^ k - 1 =
              omega (arith, e, pow_pos k, pow_small k small) in
            d,
        e,
      )
      (bit_and_mask k seq)
  where
    pow_small : (k : ℕ) → k < 64 → 2 ^ k < 2 ^ 64
    pow_small k h =
        omega (arith, pow-le-pow_right {n = 2} (omega arith) {i = k} {j = 63} (omega arith))

module _ (slots : List Slot) (cap : ℕ) where
  -- The `n` messages from sequence number `s` on.
  abbrev pub window : ℕ → ℕ → List Message
  window s zero = []
  window s (suc n) = view (get_or slots (s % cap) zero_slot) ∷ window (s + 1) n

  pub length-window : (s n : ℕ) → length (window s n) ≡ n
  length-window s zero = refl
  length-window s (suc n) = ap suc (length-window (s + 1) n)

abbrev pub contents : Ring → List Message
contents r = window r.slots r.capacity r.read_seq (r.write_seq - r.read_seq)

-- The queue that a ring stands for.
abbrev pub queue : Ring → Queue
queue r = record { items = contents r; next = r.write_seq }

-- Two sequence numbers less than a capacity apart have different slots.
pub mod-ne : (cap s n : ℕ) → 0 < n → n < cap → (s + n) % cap ≢ s % cap
mod-ne n' s n pos h e = absurd (
    omega (
      arith,
      mod-lt s {m = n'} (omega arith),
      apart (s % n') (mod-lt s (omega arith)),
      mod-add-mod s n' n,
    ))
  where
    apart : (r : ℕ) → r < n' → (r + n) % n' ≢ r
    apart r lt = elim (dec_lt (r + n) n') [
      | yes p ↦ omega (arith, mod-eq_of_lt p)
      | no p ↦ omega (
        arith,
        mod-eq-sub-mod {n = r + n} {m = n'} (omega arith),
        mod-eq_of_lt {n = r + n - n'} {m = n'} (omega arith),
      )
    ]

pub window-set :
    (slots : List Slot) (n' s n i : ℕ) (x : Slot)
    → length slots ≡ n'
    → n < n'
    → i ≡ (s + n) % n'
    → window (set slots i x) n' s (suc n) ≡ window slots n' s n ++ view x ∷ []
window-set slots n' s zero i x e h at =
    let here : i ≡ s % n' = rw at (ap (λ t. t % n') (omega arith)) in
    rw (
      here,
      get_or-set_self slots (s % n') x zero_slot (omega (arith, mod-lt s {m = n'} (omega arith))),
    )
window-set slots n' s (suc n) i x e h at =
    ap₂ ◌∷◌
      (ap view
        (get_or-set_ne slots i (s % n') x zero_slot (rw at (mod-ne n' s (suc n) (omega arith) h))))
      (window-set slots n' (s + 1) n i x e (omega arith) (rw at (ap (λ t. t % n') (omega arith))))

-- The channel stored with its NUL is read back as the C string that was copied.
pub cstr-memcpy :
    (n : ℕ) (channel old : List ℕ)
    → n ≤ length channel
    → Text channel
    → cstr (memcpy (memcpy old 0 (take n channel)) n (0 ∷ [])) ≡ take n channel
cstr-memcpy n channel old h text =
    rw (take-append_left n (take n channel) (drop (0 + length (take n channel)) old) len) (
      rw (take_all n (take n channel) (omega (arith, length-take n channel)))
        (cstr-terminated (take n channel) _ (take-Text n channel text)))
  where
    len : n ≤ length (take n channel)
    len = omega (arith, length-take n channel)

-- A client reads back what was stored, whatever the slot held.
pub view-fill :
    (channel payload : List ℕ) (seq : ℕ) (slot : Slot)
    → Text channel
    → view (fill channel payload seq slot)
      ≡ record { channel = take 63 channel; payload = payload; seq = seq }
unfolding fill
view-fill channel payload seq slot text = elim (dec_lt (length channel) 64) [
  | yes p ↦ rw (
    lt→leb 64 (length channel) p,
    cstr-memcpy (length channel) channel slot.channel (omega arith) text,
    take_all (length channel) channel (omega arith),
    take_all 63 channel (omega arith),
    take-append_self payload (drop (0 + length payload) slot.payload),
  )
  | no p ↦ rw (
    le→leb 64 (length channel) (omega arith),
    cstr-memcpy 63 channel slot.channel (omega arith) text,
    take-append_self payload (drop (0 + length payload) slot.payload),
  )
]

pub published :
    {r : Ring} (channel payload : List ℕ)
    → IsValid r
    → r.write_seq + 1 < 2 ^ 64
    → r.write_seq - r.read_seq < r.capacity
    → Text channel
    → let i = index r r.write_seq in
      let x = fill channel payload r.write_seq (get_or r.slots i zero_slot) in
      window (set r.slots i x) r.capacity r.read_seq (add_size r.write_seq 1 - r.read_seq)
      ≡ contents r
        ++ record { channel = take 63 channel; payload = payload; seq = r.write_seq } ∷ []
published {r} channel payload v small room text =
    let i : ℕ = index r r.write_seq in
    let old : Slot = get_or r.slots i zero_slot in
    let n : ℕ = r.write_seq - r.read_seq in
    let e : add_size r.write_seq 1 - r.read_seq ≡ suc n = omega arith in
    let at : i ≡ (r.read_seq + n) % r.capacity =
      index-mod r.write_seq v ∙ ap (λ t. t % r.capacity) (omega arith) in
    ap (window (set r.slots i (fill channel payload r.write_seq old)) r.capacity r.read_seq) e
    ∙ window-set r.slots r.capacity r.read_seq n i _ v.storage room at
    ∙ ap (λ m. contents r ++ m ∷ []) (view-fill channel payload r.write_seq old text)
