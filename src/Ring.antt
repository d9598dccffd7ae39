-- ===== src/Ring.antt =====
-- src/ring_buffer.c, include/ring_buffer.h: the single-producer ring of published messages.
-- `none` and `failed` stand for the return code -1. The server runs on one thread, so the atomic loads
-- and stores are plain reads and writes in program order.
pub mod Power
pub mod Queue
pub mod Window
pub mod Refine
mod Tests
use Prim.Native.Nat.{bit_and, bit_or}
use mathlib.Core.Option
use zedis.Base.{
  ℕ, ◌+◌, ◌-◌, ◌/◌, ◌%◌, ◌^◌, Option, none, some, List, [], ◌∷◌, ltb, leb, ◌==◌, if◌then◌else◌,
  length, take, get_or, set, replicate,
}
use zedis.Base.Bytes.{memcpy, cstr}
use zedis.Base.Size.{add_size, sub_size}
use zedis.Base.Status.{Status, ok, failed}
use zedis.Arena.{Arena, calloc}

abbrev pub msg_max : ℕ
msg_max = 512

-- `ring_slot_t`
pub record Slot : Type 0 where
  pub channel : List ℕ
  pub payload : List ℕ
  pub payload_len : ℕ
  pub seq : ℕ

-- `zedis_ring_buffer_t`
pub record Ring : Type 0 where
  pub slots : List Slot
  pub capacity : ℕ
  pub write_seq : ℕ
  pub read_seq : ℕ

-- A slot of zeroed memory.
abbrev pub zero_slot : Slot
zero_slot = record {
  channel = replicate 64 0;
  payload = replicate msg_max 0;
  payload_len = 0;
  seq = 0;
}

-- v |= v >> k
abbrev pub smear : ℕ → ℕ → ℕ
smear k v = bit_or v (v / 2 ^ k)

unfoldable pub next_power_of_two : ℕ → ℕ
next_power_of_two v =
    if ltb v 2
    then 2
    else add_size (smear 32 (smear 16 (smear 8 (smear 4 (smear 2 (smear 1 (v - 1))))))) 1

-- sizeof(ring_slot_t)
abbrev pub slot_size : ℕ
slot_size = 592

abbrev pub fresh : ℕ → Ring
fresh n = record { slots = replicate n zero_slot; capacity = n; write_seq = 0; read_seq = 0 }

unfoldable pub init : Arena → ℕ → Option Ring × Arena
init arena capacity =
    if capacity == 0
    then (none, arena)
    else let cap = next_power_of_two capacity in
      let (mem, arena') = calloc arena cap slot_size 64 in
      elim mem [ none ↦ (none, arena') | some _ ↦ (some (fresh cap), arena') ]

-- The stores of `zedis_ring_publish` into one slot; the channel keeps at most 63 bytes and a NUL.
unfoldable pub fill : List ℕ → List ℕ → ℕ → Slot → Slot
fill channel payload seq slot =
    let ch_len = if leb 64 (length channel) then 63 else length channel in
    record {
      channel = memcpy (memcpy slot.channel 0 (take ch_len channel)) ch_len (0 ∷ []);
      payload = memcpy slot.payload 0 payload;
      payload_len = length payload;
      seq = seq;
    }

-- The slot of a sequence number.
abbrev pub index : Ring → ℕ → ℕ
index r seq = bit_and seq (sub_size r.capacity 1)

-- `channel` is the C string without its NUL, `payload` the `payload_len` bytes of the message.
unfoldable pub publish : Ring → List ℕ → List ℕ → Status × Ring
publish r channel payload =
    if ltb msg_max (length payload)
    then (failed, r)
    else if leb r.capacity (sub_size r.write_seq r.read_seq)
    then (failed, r)
    else let i = index r r.write_seq in
      (
        ok,
        record r {
          slots = set r.slots i (fill channel payload r.write_seq (get_or r.slots i zero_slot));
          write_seq = add_size r.write_seq 1;
        },
      )

-- The slot copied to `*out`.
unfoldable pub poll : Ring → Option Slot × Ring
poll r = if leb r.write_seq r.read_seq then (none, r) else (
  some (get_or r.slots (index r r.read_seq) zero_slot),
  record r { read_seq = add_size r.read_seq 1 },
)

-- What a client reads of a slot: the channel as a C string, the first `payload_len` bytes of the
-- payload, and the sequence number.
pub record Message : Type 0 where
  pub channel : List ℕ
  pub payload : List ℕ
  pub seq : ℕ

abbrev pub view : Slot → Message
view s = record { channel = cstr s.channel; payload = take s.payload_len s.payload; seq = s.seq }

pub data Op : Type 0 where
  put : List ℕ → List ℕ → Op
  get : Op

pub data Reply : Type 0 where
  put_status : Status → Reply
  got : Option Message → Reply

-- A client's calls in order, with what each shows it.
unfoldable pub run : Ring → List Op → List Reply
run r [] = []
run r (put c p ∷ ops) = let (s, r') = publish r c p in put_status s ∷ run r' ops
run r (get ∷ ops) = let (out, r') = poll r in got (Option.map view out) ∷ run r' ops

-- `zedis_ring_destroy`: the structure is zeroed.
abbrev pub destroy : Ring → Ring
destroy r = record { slots = []; capacity = 0; write_seq = 0; read_seq = 0 }
