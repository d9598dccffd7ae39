-- ===== src/Ring/Refine.antt =====
-- The operations of src/ring_buffer.c beside those of the bounded queue.
use native.Mathlib.Decide.{dec_lt}
use mathlib.Core.Option
use zedis.Base.{
  ℕ, suc, ◌+◌, ◌-◌, ◌^◌, ◌≤◌, ◌<◌, ◌≡◌, refl, ap₂, ◌∙◌, some, List, [], ◌∷◌, ltb, length, arith,
  length-set, Bool-cases, inl, inr, length-replicate, lt→leb, le→leb,
}
use zedis.Base.Bytes.{Text}
use zedis.Base.Size.{add_size, sub_size}
use zedis.Base.Status.{ok}
use zedis.Ring.{
  Ring, view, init, fresh, next_power_of_two, zero_slot, publish, poll, run, Op, put, get, msg_max,
}
use zedis.Arena.{Arena}
use zedis.Ring.Power.{next_power_of_two_lem}
use zedis.Ring.Queue
use zedis.Ring.Queue.{Queue}
use zedis.Ring.Window.{IsValid, index-mod, length-window, contents, queue, published}

-- On a valid ring whose counter has not reached the end of its 64 bits, `zedis_ring_publish` returns
-- what the bounded queue returns (a refusal of a payload over 512 bytes, or when `capacity` messages
-- are unread, and then nothing changes), leaves the ring standing for the queue with the message
-- appended, its channel cut to 63 bytes, keeps the ring valid and its capacity.
pub publish_refines :
    {r : Ring} (channel payload : List ℕ)
    → IsValid r
    → r.write_seq + 1 < 2 ^ 64
    → Text channel
    → let (s, r') = publish r channel payload in
      ((s, queue r') ≡ Queue.push r.capacity (queue r) channel payload)
      × IsValid r'
      × (r'.capacity ≡ r.capacity)
unfolding publish Queue.push
publish_refines {r} channel payload v small text =
    elim (Bool-cases (ltb msg_max (length payload))) [
      | inl big ↦ rw big (refl, v, refl)
      | inr fits ↦ elim (dec_lt n r.capacity) [
        | no p ↦
            rw
              (
                fits,
                le→leb r.capacity (sub_size r.write_seq r.read_seq) (omega arith),
                le→leb r.capacity (length (contents r)) (omega (arith, len)),
              )
              (refl, v, refl)
        | yes p ↦
            rw
              (
                fits,
                lt→leb r.capacity (sub_size r.write_seq r.read_seq) (omega arith),
                lt→leb r.capacity (length (contents r)) (omega (arith, len)),
              )
              (
                ap₂ (λ items next. (ok, record { items = items; next = next }))
                    (published channel payload v small p text) (omega arith),
                record {
                  power = v.power;
                  storage = length-set r.slots _ _ ∙ v.storage;
                  ordered = omega arith;
                  bounded = omega arith;
                  counted = omega arith;
                },
                refl,
              )
      ]
    ]
  where
    n : ℕ
    n = r.write_seq - r.read_seq

    len : length (contents r) ≡ n
    len = length-window r.slots r.capacity r.read_seq n

-- On a valid ring `zedis_ring_poll` copies out the oldest unread message, or nothing when there is none,
-- leaves the ring standing for the queue without that message, keeps it valid and its capacity.
pub poll_refines :
    {r : Ring}
    → IsValid r
    → let (out, r') = poll r in
      ((Option.map view out, queue r') ≡ Queue.pop (queue r))
      × IsValid r'
      × (r'.capacity ≡ r.capacity)
unfolding poll Queue.pop
poll_refines {r} v = elim (dec_lt r.read_seq r.write_seq) [
  | no p ↦
      let e : r.write_seq - r.read_seq ≡ 0 = omega arith in
      rw (le→leb r.write_seq r.read_seq (omega arith), e) (refl, v, refl)
  | yes p ↦
      let m : ℕ = r.write_seq - r.read_seq - 1 in
      let e : r.write_seq - r.read_seq ≡ suc m = omega arith in
      let f : r.write_seq - add_size r.read_seq 1 ≡ m = omega arith in
      let g : add_size r.read_seq 1 ≡ r.read_seq + 1 = omega arith in
      rw (lt→leb r.write_seq r.read_seq p, e, f, g, index-mod r.read_seq v)
        (
          refl,
          record {
            power = v.power;
            storage = v.storage;
            ordered = omega arith;
            bounded = omega arith;
            counted = v.counted;
          },
          refl,
        )
]

abbrev pub Texts : List Op → Type 0
Texts [] = Unit
Texts (put c p ∷ ops) = Text c × Texts ops
Texts (get ∷ ops) = Texts ops

write_seq-publish :
    (r : Ring) (c p : List ℕ)
    → r.write_seq + 1 < 2 ^ 64
    → (publish r c p).1.write_seq ≤ r.write_seq + 1
unfolding publish
write_seq-publish r c p h = ground arith

write_seq-poll : (r : Ring) → (poll r).1.write_seq ≡ r.write_seq
unfolding poll
write_seq-poll r = ground arith

-- No sequence of publications and polls that stays within the 64-bit counter tells a valid ring from the
-- bounded queue of its messages: every call returns the same, over the whole sequence.
pub run_refines :
    (ops : List Op) {r : Ring}
    → IsValid r
    → r.write_seq + length ops < 2 ^ 64
    → Texts ops
    → run r ops ≡ Queue.run r.capacity (queue r) ops
unfolding run Queue.run
run_refines [] v h t = refl
run_refines (put c p ∷ ops) {r} v h t =
    let (e, v', same) = publish_refines c p v (omega arith) t.0 in
    rw (run_refines ops v' (omega (arith, write_seq-publish r c p (omega arith))) t.1, ← e, same)
run_refines (get ∷ ops) {r} v h t =
    let (e, v', same) = poll_refines v in
    rw (run_refines ops v' (omega (arith, write_seq-poll r)) t, ← e, same)

-- What `zedis_ring_init` builds, for a wanted capacity of 1 to 2 ^ 63, is a valid empty ring with room for
-- at least as many messages as asked for, and for no more than twice as many.
pub ring_init-IsValid :
    (arena : Arena) (capacity : ℕ) {r : Ring}
    → 0 < capacity
    → capacity ≤ 2 ^ 63
    → (init arena capacity).0 ≡ some r
    → IsValid r × (contents r ≡ []) × (capacity ≤ r.capacity) × (r.capacity ≤ capacity + capacity)
unfolding init
ring_init-IsValid arena capacity {r} pos h e =
    let (k, is_pow, _, small, lo, hi) = next_power_of_two_lem capacity pos h in
    rw shape (
      record {
        power = (k, is_pow, small);
        storage = length-replicate (next_power_of_two capacity) zero_slot;
        ordered = omega arith;
        bounded = omega arith;
        counted = omega arith;
      },
      refl,
      rw is_pow lo,
      rw is_pow hi,
    )
  where
    shape : r ≡ fresh (next_power_of_two capacity)
    shape = ground arith
