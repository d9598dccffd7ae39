-- ===== src/HashTable/Tombstone.antt =====
-- What a deleted slot does to the searches that pass it.
use zedis.Base.{
  ℕ, zero, suc, ◌+◌, ◌%◌, ◌<◌, ◌≡◌, ◌≢◌, refl, true, false, none, some, List, ltb, ◌==◌, arith, inl,
  inr, Bool-cases,
}
use zedis.HashTable.{
  tombstone, Entry, Table, is_occupied, is_empty, entry_key_match, entry_at, ht_hash, probe, search,
  get,
}
use zedis.HashTable.Walk.{match-eq}

dead_entry :
    (e : Entry) (hash : ℕ) (key : List ℕ)
    → e.state ≡ tombstone
    → (is_empty e ≡ false) × (entry_key_match e hash key ≡ false)
unfolding entry_key_match
dead_entry e hash key h = (ground arith, ground arith)

-- A search at a probe length of 1 or more ends at a tombstone.
probe_ends_there :
    (fuel : ℕ) (t : Table) (hash : ℕ) (key : List ℕ) (idx : ℕ)
    → 0 < fuel
    → (entry_at t.entries idx).state ≡ tombstone
    → (entry_at t.entries idx).psl ≡ 0
    → probe fuel t hash key idx 1 ≡ some none
unfolding probe
probe_ends_there zero t hash key idx pos dead low = absurd (omega arith)
probe_ends_there (suc fuel) t hash key idx pos dead low =
    let (a, b) = dead_entry (entry_at t.entries idx) hash key dead in rw (a, b, low) refl

-- When the home slot of a key is occupied by another key and the slot after it is a tombstone with the
-- probe length 0 that a deletion leaves, `zedis_ht_get` reports the key missing, wherever it may be stored.
pub tombstone_hides :
    (t : Table) (key : List ℕ) (value_cap : ℕ)
    → 0 < t.capacity
    → is_occupied (entry_at t.entries (ht_hash key % t.capacity)) ≡ true
    → (entry_at t.entries (ht_hash key % t.capacity)).key ≢ key
    → (entry_at t.entries ((ht_hash key % t.capacity + 1) % t.capacity)).state ≡ tombstone
    → (entry_at t.entries ((ht_hash key % t.capacity + 1) % t.capacity)).psl ≡ 0
    → get t key value_cap ≡ some none
unfolding get search probe
tombstone_hides t key value_cap pos o n dead low =
    rw
      (
        positive t.capacity pos,
        not_empty (entry_at t.entries home) o,
        miss,
        not_negative (entry_at t.entries home).psl,
        probe_ends_there t.capacity t (ht_hash key) key ((home + 1) % t.capacity) pos dead low,
      )
      refl
  where
    home : ℕ
    home = ht_hash key % t.capacity

    not_negative : (n : ℕ) → ltb n 0 ≡ false
    not_negative n = ground arith

    positive : (n : ℕ) → 0 < n → (n == 0) ≡ false
    positive n h = ground arith

    not_empty : (e : Entry) → is_occupied e ≡ true → is_empty e ≡ false
    not_empty e h = ground arith

    miss : entry_key_match (entry_at t.entries home) (ht_hash key) key ≡ false
    miss = elim (Bool-cases (entry_key_match (entry_at t.entries home) (ht_hash key) key)) [
      | inr m ↦ m
      | inl m ↦
          let (_, _, k) = match-eq (entry_at t.entries home) (ht_hash key) key m in absurd (n k)
    ]
