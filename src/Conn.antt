-- ===== src/Conn.antt =====
-- src/conn.c: the write side of a connection. What write(2) answers is given, call by call. `closed` is the
-- field of that name; `armed` says whether the event loop last was told to report that the socket can be
-- written, with `conn_on_writable` as the handler (`conn_enable_write`, `conn_disable_write`).
pub mod Waiting
pub mod Stream
mod Tests
use zedis.Base.{
  ℕ, ◌+◌, ◌-◌, Bool, true, false, Option, none, some, List, [], ◌∷◌, ◌++◌, ltb, ◌==◌, if◌then◌else◌,
  length, take, drop,
}
use zedis.Base.Bytes.{memcpy}
use zedis.Base.Status.{Status, ok, failed}

-- ZEDIS_CONN_WRITE_SIZE
abbrev pub write_size : ℕ
write_size = 4096

-- `conn_t`: `write_buf`, `write_len`, `write_sent` and `closed`, with the state of the writable event
pub record Conn : Type 0 where
  pub write_buf : List ℕ
  pub write_len : ℕ
  pub write_sent : ℕ
  pub closed : Bool
  pub armed : Bool

-- What one call of write(2) returns: a number of bytes, -1 with EAGAIN, or -1 with another error.
pub data Answer : Type 0 where
  wrote : ℕ → Answer
  again : Answer
  broken : Answer

unfoldable pub write_buf_append : Conn → List ℕ → Status × Conn
write_buf_append conn bytes =
    if conn.closed
    then (failed, conn)
    else if ltb write_size (conn.write_len + length bytes)
    then (failed, conn)
    else (
      ok,
      record conn {
        write_buf = memcpy conn.write_buf conn.write_len bytes;
        write_len = conn.write_len + length bytes;
      },
    )

-- The result of a flush, the connection, and the bytes that went into the socket.
pub record Flush : Type 0 where
  pub status : Status
  pub conn : Conn
  pub sent : List ℕ

-- memmove of the unsent bytes to the front
abbrev pub reclaim : Conn → Conn
reclaim conn =
    if ltb 0 conn.write_sent
    then record conn {
      write_buf =
          memcpy conn.write_buf 0
            (take (conn.write_len - conn.write_sent) (drop conn.write_sent conn.write_buf));
      write_len = conn.write_len - conn.write_sent;
      write_sent = 0;
    }
    else conn

abbrev pub emptied : Conn → Conn
emptied conn = record conn { write_len = 0; write_sent = 0; armed = false }

abbrev pub after_write : List ℕ → Option Flush → Option Flush
after_write bytes none = none
after_write bytes (some f) = some (record f { sent = bytes ++ f.sent })

-- `conn_flush`; `none` when a call of write(2) is still to be answered.
unfoldable pub conn_flush : List Answer → Conn → Option Flush
conn_flush [] conn =
    if ltb conn.write_sent conn.write_len
    then none
    else some (record { status = ok; conn = emptied conn; sent = [] })
conn_flush (wrote n ∷ answers) conn =
    let rest = conn_flush answers (record conn { write_sent = conn.write_sent + n }) in
    if ltb conn.write_sent conn.write_len
    then after_write (take n (drop conn.write_sent conn.write_buf)) rest
    else some (record { status = ok; conn = emptied conn; sent = [] })
conn_flush (again ∷ answers) conn =
    if ltb conn.write_sent conn.write_len
    then some (record { status = ok; conn = reclaim (record conn { armed = true }); sent = [] })
    else some (record { status = ok; conn = emptied conn; sent = [] })
conn_flush (broken ∷ answers) conn =
    if ltb conn.write_sent conn.write_len
    then some (record { status = failed; conn = record conn { closed = true }; sent = [] })
    else some (record { status = ok; conn = emptied conn; sent = [] })

-- A failed flush closes the connection.
abbrev pub close_on_failure : Status → Flush → Flush
close_on_failure ok f = f
close_on_failure failed f = record f { conn = record f.conn { closed = true } }

abbrev pub flushed : Option Flush → Option Flush
flushed none = none
flushed (some f) = some (close_on_failure f.status f)

abbrev pub flush_appended : List Answer → Status × Conn → Option Flush
flush_appended answers (ok, conn) = flushed (conn_flush answers conn)
flush_appended answers (failed, conn) =
    some (record { status = failed; conn = record conn { closed = true }; sent = [] })

unfoldable pub conn_queue_write : List Answer → Conn → List ℕ → Option Flush
conn_queue_write answers conn bytes =
    if conn.closed
    then some (record { status = failed; conn = conn; sent = [] })
    else flush_appended answers (write_buf_append conn bytes)
