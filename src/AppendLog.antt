-- ===== src/AppendLog.antt =====
-- src/append_log.c, include/append_log.h: the log of list elements, written at byte level (little-endian),
-- and the lists that are threaded through it from the newest element back. The file behind the log is the
-- kernel's: `init` is given the bytes of the mapping. A reply is the bytes in front of `*reply_len`.
pub mod Layout
pub mod Chain
pub mod Range
mod Tests
use zedis.Base.{
  ℕ, zero, suc, ◌+◌, ◌-◌, ◌*◌, ◌/◌, ◌%◌, ◌^◌, Bool, true, false, ◌||◌, Option, none, some, List, [],
  ◌∷◌, ◌++◌, ltb, leb, ◌==◌, if◌then◌else◌, length, take, drop,
}
use zedis.Base.Bytes.{memcpy, cstr}
use zedis.Base.Int.{ℤ, pos, negsuc, pos_part, ◌-ℤ◌, ltb_ℤ, leb_ℤ}
use zedis.Base.Status.{Status, ok, failed}
use zedis.Resp.Format.{decimal, crlf}

abbrev pub max_elem : ℕ
max_elem = 512

abbrev pub max_key : ℕ
max_key = 256

-- UINT32_MAX
abbrev pub no_prev : ℕ
no_prev = 4294967295

-- `list_meta_t`
pub record Meta : Type 0 where
  pub head_off : ℕ
  pub tail_off : ℕ
  pub count : ℕ

-- `zedis_append_log_t`, less the file
pub record Log : Type 0 where
  pub base : List ℕ
  pub capacity : ℕ
  pub write_pos : ℕ

-- The `n` bytes of a number, the lowest first, and the number of such bytes.
abbrev pub le_bytes : ℕ → ℕ → List ℕ
le_bytes zero v = []
le_bytes (suc n) v = v % 256 ∷ le_bytes n (v / 256)

abbrev pub number_of : List ℕ → ℕ
number_of [] = 0
number_of (b ∷ bs) = b + 256 * number_of bs

-- `aol_hdr_t`
abbrev pub header : ℕ → ℕ → ℕ → List ℕ
header prev key_len val_len = le_bytes 4 prev ++ (le_bytes 2 key_len ++ le_bytes 2 val_len)

abbrev pub record_size : ℕ → ℕ → ℕ
record_size key_len val_len = 8 + key_len + val_len

-- The fields of the header that stands in front of some bytes, and the value behind it (`val_at`).
abbrev pub prev_off : List ℕ → ℕ
prev_off h = number_of (take 4 h)

abbrev pub key_len : List ℕ → ℕ
key_len h = number_of (take 2 (drop 4 h))

abbrev pub val_len : List ℕ → ℕ
val_len h = number_of (take 2 (drop 6 h))

abbrev pub val_at : List ℕ → List ℕ
val_at h = take (val_len h) (drop (8 + key_len h) h)

-- `mapping` holds the bytes that `open`, `ftruncate` and `mmap` gave, `none` if one of them failed.
unfoldable pub init : ℕ → Option (List ℕ) → Option Log
init capacity mapping = if ltb capacity 4096 then none else elim mapping [
  | none ↦ none
  | some bytes ↦ some (record { base = bytes; capacity = capacity; write_pos = 0 })
]

-- The three writes of `zedis_aol_lpush`.
abbrev pub append_record : Log → ℕ → List ℕ → List ℕ → Log
append_record log prev key val =
    let at = log.write_pos in
    let headed = memcpy log.base at (header prev (length key) (length val)) in
    record log {
      base = memcpy (memcpy headed (at + 8) key) (at + 8 + length key) val;
      write_pos = at + record_size (length key) (length val);
    }

abbrev pub push_meta : Meta → ℕ → Meta
push_meta meta off = record {
  head_off = off;
  tail_off = if meta.head_off == no_prev then off else meta.tail_off;
  count = (meta.count + 1) % 2 ^ 32;
}

unfoldable pub lpush : Log → Meta → List ℕ → List ℕ → Status × Log × Meta
lpush log meta key val =
    if (length key == 0 || ltb max_key (length key))
      || (length val == 0 || ltb max_elem (length val))
    then (failed, log, meta)
    else if ltb log.capacity (log.write_pos + record_size (length key) (length val))
    then (failed, log, meta)
    else (ok, append_record log meta.head_off key val, push_meta meta (log.write_pos % 2 ^ 32))

unfoldable pub hdr_at : Log → ℕ → Bool
hdr_at log off = if off == no_prev then false else leb (off + 8) log.capacity

-- `hdr_ptr`: the bytes from an offset on.
abbrev pub hdr_ptr : Log → ℕ → List ℕ
hdr_ptr log off = drop off log.base

-- The chain from `cur` back, `room` offsets at most.
unfoldable pub collect : ℕ → Log → ℕ → List ℕ
collect zero log cur = []
collect (suc room) log cur =
    let rest = collect room log (prev_off (hdr_ptr log cur)) in
    if cur == no_prev then [] else if hdr_at log cur then cur ∷ rest else []

-- snprintf("$%u\r\n%.*s\r\n", ...): the value is printed up to its first NUL.
abbrev pub element_text : Log → ℕ → List ℕ
element_text log off =
    let h = hdr_ptr log off in 36 ∷ decimal (val_len h) ++ (crlf ++ (cstr (val_at h) ++ crlf))

abbrev pub count_text : ℕ → List ℕ
count_text n = 42 ∷ decimal n ++ crlf

-- A text that snprintf fits into the reply.
abbrev pub fitting : ℕ → List ℕ → Option (List ℕ)
fitting reply_cap text = if leb reply_cap (length text) then none else some text

-- The loop over the chosen offsets, behind the text written so far.
unfoldable pub emit : Log → ℕ → List ℕ → List ℕ → Option (List ℕ)
emit log reply_cap text [] = some text
emit log reply_cap text (off ∷ rest) =
    let text' = text ++ element_text log off in
    let more = emit log reply_cap text' rest in
    if hdr_at log off then (if leb reply_cap (length text') then none else more) else none

-- The last index asked for.
abbrev pub clip : ℤ → ℕ → ℤ
clip stop n = if ltb_ℤ stop (pos 0) || leb_ℤ (pos n) stop then pos n -ℤ pos 1 else stop

-- The reply for the offsets from index `start` up to `stop`.
unfoldable pub reply_range : Log → List ℕ → ℕ → ℤ → ℕ → Option (List ℕ)
reply_range log offsets start stop reply_cap =
    let last = clip stop (length offsets) in
    if ltb_ℤ last (pos start)
    then fitting reply_cap (count_text 0)
    else let n = pos_part last - start + 1 in
      if leb reply_cap (length (count_text n))
      then none
      else emit log reply_cap (count_text n) (take n (drop start offsets))

unfoldable pub lrange : Log → Meta → ℤ → ℤ → ℕ → Option (List ℕ)
lrange log meta start stop reply_cap =
    if meta.count == 0 || meta.head_off == no_prev
    then fitting reply_cap (count_text 0)
    else reply_range log (collect 1024 log meta.head_off) (pos_part start) stop reply_cap

abbrev pub llen : Meta → ℕ
llen meta = meta.count

-- `zedis_aol_destroy`: the mapping goes back and the structure is zeroed.
abbrev pub destroy : Log → Log
destroy log = record { base = []; capacity = 0; write_pos = 0 }
