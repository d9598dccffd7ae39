-- ===== src/AppendLog/Chain.antt =====
-- The lists of src/append_log.c as sequences of values, and what `zedis_aol_lpush` does to them.
use zedis.Base.{
  ℕ, ◌+◌, ◌%◌, ◌^◌, ◌≤◌, ◌<◌, ◌≡◌, refl, sym, ap, ◌∙◌, true, false, ◌||◌, List, [], ◌∷◌, ltb, ◌==◌,
  Bool-cases, inl, inr, length, take, drop, arith, ltb→lt, ltb→le,
}
use zedis.Base.Bytes.{memcpy, length-memcpy, drop-take}
use zedis.Base.Status.{Status, ok, failed}
use zedis.AppendLog.{
  Log, Meta, max_elem, max_key, no_prev, header, record_size, append_record, lpush,
}
use zedis.AppendLog.Layout.{take-memcpy_early, drop-memcpy_late, packed, written_thrice}

-- The bytes at `cur` are a record with these fields.
pub record Stored (log : Log) (cur prev : ℕ) (key val : List ℕ) : Type 0 where
  pub bytes : take (record_size (length key) (length val)) (drop cur log.base) ≡ packed prev key val
  pub inside : cur + record_size (length key) (length val) ≤ log.write_pos
  pub offset : prev < 2 ^ 32
  pub short_key : length key ≤ max_key
  pub short_val : length val ≤ max_elem

-- The records from `cur` back hold the values of the list, the newest first.
abbrev pub Chain : Log → ℕ → List (List ℕ) → Type 0
Chain log cur [] = cur ≡ no_prev
Chain log cur (val ∷ vals) =
    (prev : ℕ) × (key : List ℕ) × Stored log cur prev key val × Chain log prev vals

pub record IsValid (log : Log) : Type 0 where
  pub size : length log.base ≡ log.capacity
  pub written : log.write_pos ≤ log.capacity
  pub addressed : log.capacity < 2 ^ 32

-- The head of a list leads through its values, and the number of them is kept.
pub record Lists (log : Log) (meta : Meta) (vals : List (List ℕ)) : Type 0 where
  pub chain : Chain log meta.head_off vals
  pub number : meta.count ≡ length vals % 2 ^ 32

module _ (log : Log) (prev : ℕ) (key val : List ℕ) (v : IsValid log)
    (room : log.write_pos + record_size (length key) (length val) ≤ log.capacity) where
  log' : Log
  log' = append_record log prev key val

  headed : List ℕ
  headed = memcpy log.base log.write_pos (header prev (length key) (length val))

  keyed : List ℕ
  unfolding headed
  keyed = memcpy headed (log.write_pos + 8) key

  length-headed : length headed ≡ length log.base
  unfolding headed
  length-headed =
      length-memcpy log.base log.write_pos (header prev (length key) (length val))
        (omega (arith, v.size))

  length-keyed : length keyed ≡ length log.base
  unfolding keyed
  length-keyed =
      length-memcpy headed (log.write_pos + 8) key (omega (arith, v.size, length-headed))
      ∙ length-headed

  appended-IsValid : IsValid log'
  unfolding log' headed keyed
  appended-IsValid = record {
    size =
        length-memcpy keyed (log.write_pos + 8 + length key) val
          (omega (arith, v.size, length-keyed))
        ∙ (length-keyed ∙ v.size);
    written = omega arith;
    addressed = v.addressed;
  }

  -- The bytes in front of the record stay.
  take-appended : (n : ℕ) → n ≤ log.write_pos → take n log'.base ≡ take n log.base
  unfolding log' headed keyed
  take-appended n h =
      take-memcpy_early n (log.write_pos + 8 + length key) keyed val (omega arith)
        (omega (arith, v.size, length-keyed))
      ∙ (take-memcpy_early n (log.write_pos + 8) headed key (omega arith)
            (omega (arith, v.size, length-headed))
          ∙ take-memcpy_early n log.write_pos log.base (header prev (length key) (length val)) h
              (omega (arith, v.size)))

  take-drop_comm : (n off : ℕ) (xs : List ℕ) → take n (drop off xs) ≡ drop off (take (off + n) xs)
  take-drop_comm n off xs =
      ap (λ k. take k (drop off xs)) (omega arith) ∙ sym (drop-take off (off + n) xs)

  Stored-kept : (cur p : ℕ) (k w : List ℕ) → Stored log cur p k w → Stored log' cur p k w
  unfolding log'
  Stored-kept cur p k w s =
      let n : ℕ = record_size (length k) (length w) in
      record {
        bytes =
            take-drop_comm n cur log'.base
            ∙ (ap (drop cur) (take-appended (cur + n) s.inside)
                ∙ (sym (take-drop_comm n cur log.base) ∙ s.bytes));
        inside = omega (arith, s.inside);
        offset = s.offset;
        short_key = s.short_key;
        short_val = s.short_val;
      }

  Chain-kept : (cur : ℕ) (vals : List (List ℕ)) → Chain log cur vals → Chain log' cur vals
  Chain-kept cur [] c = c
  Chain-kept cur (w ∷ vals) (p, k, s, c) = (p, k, Stored-kept cur p k w s, Chain-kept p vals c)

  appended-bytes :
      take (record_size (length key) (length val)) (drop log.write_pos log'.base)
      ≡ packed prev key val
  unfolding log' headed keyed
  appended-bytes =
      let w = log.write_pos in
      let H : List ℕ = header prev (length key) (length val) in
      let n : ℕ = record_size (length key) (length val) in
      let e1 : drop w headed ≡ memcpy (drop w log.base) 0 H =
        ap (λ k. drop w (memcpy log.base k H)) (omega arith)
        ∙ drop-memcpy_late w 0 log.base H (omega (arith, v.size)) in
      let e2 : drop w keyed ≡ memcpy (drop w headed) 8 key =
        drop-memcpy_late w 8 headed key (omega (arith, v.size, length-headed)) in
      let e3 : drop w log'.base ≡ memcpy (drop w keyed) (8 + length key) val =
        ap (λ k. drop w (memcpy keyed k val)) (omega arith)
        ∙ drop-memcpy_late w (8 + length key) keyed val (omega (arith, v.size, length-keyed)) in
      ap (take n) (e3 ∙ ap (λ d. memcpy d (8 + length key) val) (e2 ∙ ap (λ d. memcpy d 8 key) e1))
      ∙ written_thrice (drop w log.base) H key val

  appended-Stored :
      prev < 2 ^ 32
      → length key ≤ max_key
      → length val ≤ max_elem
      → Stored log' log.write_pos prev key val
  unfolding log'
  appended-Stored p k l = record {
    bytes = appended-bytes;
    inside = omega arith;
    offset = p;
    short_key = k;
    short_val = l;
  }

-- What `zedis_aol_lpush` accepts: a key and a value within the limits, and room for the record.
pub record Fits (log : Log) (key val : List ℕ) : Type 0 where
  pub keyed : 0 < length key
  pub short_key : length key ≤ max_key
  pub valued : 0 < length val
  pub short_val : length val ≤ max_elem
  pub room : log.write_pos + record_size (length key) (length val) ≤ log.capacity

-- What a push made of the log and of the list with these values.
pub data Pushed (log : Log) (meta : Meta) (vals : List (List ℕ)) (key val : List ℕ)
    (r : Status × Log × Meta) : Type 0 where
  accepted :
      (log' : Log) (meta' : Meta)
      → r ≡ (ok, log', meta')
      → Fits log key val
      → IsValid log'
      → Lists log' meta' (val ∷ vals)
      → ((cur : ℕ) (others : List (List ℕ)) → Chain log cur others → Chain log' cur others)
      → Pushed log meta vals key val r
  refused : r ≡ (failed, log, meta) → ¬ Fits log key val → Pushed log meta vals key val r

head_off-bound :
    (log : Log) (cur : ℕ) (vals : List (List ℕ)) → IsValid log → Chain log cur vals → cur < 2 ^ 32
head_off-bound log cur [] v c = omega (arith, c)
head_off-bound log cur (w ∷ vals) v (p, k, s, c) = omega (arith, s.inside, v.written, v.addressed)

within : (n m : ℕ) → (n == 0 || ltb m n) ≡ false → (0 < n) × (n ≤ m)
within n m h = ground arith

outside : (n m : ℕ) → (n == 0 || ltb m n) ≡ true → 0 < n → n ≤ m → ⊥
outside n m h p q = ground arith

-- `zedis_aol_lpush` on a valid log: when key and value keep to the limits and the record has room, it
-- returns 0, the log stays valid, the list has the value in front of the ones it had, and every other list
-- in the log keeps its values; otherwise it returns -1 and changes nothing.
pub lpush_refines :
    (log : Log) (meta : Meta) (vals : List (List ℕ)) (key val : List ℕ)
    → IsValid log
    → Lists log meta vals
    → Pushed log meta vals key val (lpush log meta key val)
unfolding lpush log'
lpush_refines log meta vals key val v l =
    elim (Bool-cases (length key == 0 || ltb max_key (length key))) [
      | inl a ↦ rw a (refused refl (λ f. outside (length key) max_key a f.keyed f.short_key))
      | inr a ↦ elim (Bool-cases (length val == 0 || ltb max_elem (length val))) [
        | inl b ↦
            rw (a, b) (refused refl (λ f. outside (length val) max_elem b f.valued f.short_val))
        | inr b ↦ elim (Bool-cases (ltb log.capacity (log.write_pos + n))) [
          | inl c ↦ rw (a, b, c) (refused refl (λ f. absurd (omega (arith, ltb→lt _ _ c, f.room))))
          | inr c ↦
              let room : log.write_pos + n ≤ log.capacity = ltb→le _ _ c in
              let k = within (length key) max_key a in
              let w = within (length val) max_elem b in
              let p = head_off-bound log meta.head_off vals v l.chain in
              let s = appended-Stored log meta.head_off key val v room p k.1 w.1 in
              let small : log.write_pos % 2 ^ 32 ≡ log.write_pos = omega (arith, v.addressed) in
              rw (a, b, c)
                (accepted _ _ refl
                  (record {
                    keyed = k.0;
                    short_key = k.1;
                    valued = w.0;
                    short_val = w.1;
                    room = room;
                  })
                  (appended-IsValid log meta.head_off key val v room)
                  (record {
                    chain = rw small (
                      meta.head_off,
                      key,
                      s,
                      Chain-kept log meta.head_off key val v room meta.head_off vals l.chain,
                    );
                    number = omega (arith, l.number);
                  })
                  (λ cur others h. Chain-kept log meta.head_off key val v room cur others h))
        ]
      ]
    ]
  where
    n : ℕ
    n = record_size (length key) (length val)
