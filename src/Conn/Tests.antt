-- ===== src/Conn/Tests.antt =====
-- Runs of a connection's write side, and the theorems at concrete inputs.
use zedis.Base.{ℕ, ◌≡◌, refl, some, [], ◌∷◌, replicate, length-replicate, arith, false}
use zedis.Conn.{Conn, wrote, again, broken, Flush, conn_flush, conn_queue_write}
use zedis.Conn.Waiting.{IsValid, Flushed, pending}
use zedis.Conn.Stream.{Queued, conn_flush-Flushed, conn_queue_write-Queued}

abbrev idle : Conn
idle = record {
  write_buf = replicate 4096 0;
  write_len = 0;
  write_sent = 0;
  closed = false;
  armed = false;
}

abbrev three_waiting : Conn
three_waiting = record idle { write_len = 3 }

idle-IsValid : IsValid idle
idle-IsValid = record {
  size = length-replicate {A = ℕ} 4096 0;
  filled = omega arith;
  started = omega arith;
}

three_waiting-IsValid : IsValid three_waiting
three_waiting-IsValid = record {
  size = length-replicate {A = ℕ} 4096 0;
  filled = omega arith;
  started = omega arith;
}

-- The socket takes two bytes and then none.
conn_flush-Flushed_example :
    (f : Flush) × (conn_flush (wrote 2 ∷ again ∷ again ∷ []) three_waiting ≡ some f)
    × Flushed (wrote 2 ∷ again ∷ again ∷ []) false (pending three_waiting) f
conn_flush-Flushed_example =
    conn_flush-Flushed (wrote 2 ∷ again ∷ again ∷ []) three_waiting three_waiting-IsValid
      (omega arith, omega arith, tt) (omega arith)

conn_queue_write-Queued_example :
    (f : Flush) × (conn_queue_write (wrote 1 ∷ broken ∷ []) idle (43 ∷ 79 ∷ []) ≡ some f)
    × Queued (wrote 1 ∷ broken ∷ []) idle (43 ∷ 79 ∷ []) f
conn_queue_write-Queued_example =
    conn_queue_write-Queued (wrote 1 ∷ broken ∷ []) idle (43 ∷ 79 ∷ []) idle-IsValid refl
      (omega arith, omega arith, tt) (omega arith)
