-- ===== src/Resp/Buffer.antt =====
-- src/resp_buf.c: the bytes that were received and not yet parsed.
pub mod Stream
use zedis.Base.{
  ℕ, zero, suc, ◌+◌, ◌-◌, List, leb, ltb, ◌==◌, if◌then◌else◌, length, take, drop, replicate,
}
use zedis.Base.Status.{Status, ok, failed}
use zedis.Base.Bytes.{memcpy}
use zedis.Base.Size.{add_size, sub_size}
use zedis.Resp.{Parser}

abbrev pub default_buf : ℕ
default_buf = 65536

-- `malloc` returned a buffer, whose bytes are arbitrary: `buf` is given.
unfoldable pub init_ex : List ℕ → ℕ → Parser
init_ex buf buf_cap = record {
  buf = buf;
  buf_cap = if buf_cap == 0 then default_buf else buf_cap;
  r_pos = 0;
  w_pos = 0;
}

unfoldable pub reset : Parser → Parser
reset p = record p { r_pos = 0; w_pos = 0 }

-- `resp__compact`: the unread bytes move to the front.
unfoldable pub compact : Parser → Parser
compact p =
    if p.r_pos == 0
    then p
    else let unread = sub_size p.w_pos p.r_pos in
      record p {
        buf = memcpy p.buf 0 (take unread (drop p.r_pos p.buf));
        w_pos = unread;
        r_pos = 0;
      }

unfoldable pub space : Parser → ℕ
space p = sub_size p.buf_cap p.w_pos

-- The caller has written to `resp_parser_write_ptr`: `bytes` are those.
unfoldable pub write_in : Parser → List ℕ → Parser
write_in p bytes = record p { buf = memcpy p.buf p.w_pos bytes }

unfoldable pub commit : Parser → ℕ → Parser
commit p n = record p { w_pos = add_size p.w_pos n }

unfoldable pub feed : Parser → List ℕ → Status × Parser
feed p bytes =
    let len = length bytes in
    if len == 0
    then (ok, p)
    else if leb (add_size p.w_pos len) p.buf_cap
    then (ok, record p { buf = memcpy p.buf p.w_pos bytes; w_pos = add_size p.w_pos len })
    else let free_total = sub_size p.buf_cap (sub_size p.w_pos p.r_pos) in
      if ltb free_total len
      then (failed, p)
      else let q = compact p in
        (ok, record q { buf = memcpy q.buf q.w_pos bytes; w_pos = add_size q.w_pos len })
