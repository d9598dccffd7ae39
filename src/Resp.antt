-- ===== src/Resp.antt =====
-- src/resp_buf.c, src/resp_scan.c, src/resp_decode.c, src/resp_format.c, include/resp.h, include/resp_internal.h: the streaming
-- RESP parser. A node's `bulk` pointer and `bulk_len` are the bytes they delimit; the nodes come from an
-- allocator that does not run out. Signed overflow is undefined behaviour. Nested calls take fuel.
pub mod Buffer
pub mod Scan
pub mod Decode
pub mod Format
mod Tests
use zedis.Base.{ℕ, List}
use zedis.Base.Int.{ℤ}

-- `resp_node_t` and `resp_value_t`, a list for the nodes of an array
mutual
  pub data Value : Type 0 where
    simple : List ℕ → Value
    error : List ℕ → Value
    integer : ℤ → Value
    bulk : List ℕ → Value
    null : Value
    array : Values → Value

  pub data Values : Type 0 where
    nil : Values
    cons : Value → Values → Values

-- What a parsing call returns: a `resp_parse_status_t`, with the value and the new position under RESP_OK.
-- A run may also overflow an `int64_t`, or use up its fuel.
pub data Outcome (A : Type 0) : Type 0 where
  need_more : Outcome A
  parsed : A → ℕ → Outcome A
  protocol_error : Outcome A
  overflow : Outcome A
  no_fuel : Outcome A

-- `resp_parser_t`, less its recycled nodes
pub record Parser : Type 0 where
  pub buf : List ℕ
  pub buf_cap : ℕ
  pub r_pos : ℕ
  pub w_pos : ℕ
