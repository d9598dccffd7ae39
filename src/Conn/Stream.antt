-- ===== src/Conn/Stream.antt =====
-- The bytes that src/conn.c takes and the bytes that it gives to the socket.
use zedis.Base.{
  take-split, ℕ, ◌+◌, ◌-◌, ◌≤◌, ◌<◌, ◌≡◌, refl, sym, ap, ◌∙◌, Bool, true, false, some, List, [],
  ◌∷◌, ◌++◌, ltb, Bool-cases, inl, inr, length, take, drop, arith, append_assoc, drop-drop,
  length-take, length-append, length-drop, ltb→lt, ltb→le,
}
use zedis.Base.Bytes.{memcpy, length-memcpy, take-memcpy}
use zedis.Base.Status.{Status, ok, failed}
use zedis.Conn.{
  write_size, Conn, Answer, wrote, again, broken, write_buf_append, Flush, reclaim, conn_flush,
  close_on_failure, flushed, flush_appended, conn_queue_write,
}
use zedis.Conn.Waiting.{
  pending, IsValid, Answers, taken, met, Flushed, all_sent, waiting, lost, met-left,
  emptied-Flushed, nothing_left, waiting-Flushed, lost-Flushed,
}

-- One more answer in front, which takes `bytes`.
module _ (bytes more : List ℕ) (answers : List Answer) (shut : Bool)
    (some_bytes : 0 < length bytes) where
  split : length (bytes ++ more) - length bytes ≡ length more
  split = omega (arith, length-append bytes more)

  met-wrote :
      met (length (bytes ++ more)) (wrote (length bytes) ∷ answers) ≡ met (length more) answers
  met-wrote =
      (met-left (length (bytes ++ more)) (length bytes) answers some_bytes
        (omega (arith, length-append bytes more))).0
      ∙ ap (λ k. met k answers) split

  taken-wrote :
      (f : Flush)
      → length f.sent ≡ taken (length more) answers
      → length (bytes ++ f.sent) ≡ taken (length (bytes ++ more)) (wrote (length bytes) ∷ answers)
  taken-wrote f e =
      length-append bytes f.sent
      ∙ (ap (λ k. length bytes + k) (e ∙ ap (λ k. taken k answers) (sym split))
          ∙ sym (
              (met-left (length (bytes ++ more)) (length bytes) answers some_bytes
                (omega (arith, length-append bytes more))).1))

  after_write-Flushed :
      (f : Flush)
      → Flushed answers shut more f
      → Flushed
          (wrote (length bytes) ∷ answers)
          shut
          (bytes ++ more)
          (record f { sent = bytes ++ f.sent })
  after_write-Flushed f (all_sent m a v s p z d o) =
      all_sent (met-wrote ∙ m) a v (ap (λ x. bytes ++ x) s) p z d o
  after_write-Flushed f (waiting m a v s t z d o) =
      waiting (met-wrote ∙ m) a v
        (append_assoc bytes f.sent (pending f.conn) ∙ ap (λ x. bytes ++ x) s) (taken-wrote f t) z d
        o
  after_write-Flushed f (lost m a c (rest, s) t) =
      lost (met-wrote ∙ m) a c (rest, append_assoc bytes f.sent rest ∙ ap (λ x. bytes ++ x) s)
        (taken-wrote f t)

-- `conn_flush` on a connection in order, when write(2) keeps its promise and answers often enough, comes to
-- an end. When the answers take all waiting bytes, it returns 0 with all of them sent in order and the
-- writable event off. When they meet EAGAIN before, it returns 0 with exactly the bytes taken so far sent,
-- the others kept in their order at the front of the buffer and the writable event armed. When they meet
-- another error before, it returns -1, with the connection closed and exactly the bytes taken so far sent.
pub conn_flush-Flushed :
    (answers : List Answer) (conn : Conn)
    → IsValid conn
    → Answers (conn.write_len - conn.write_sent) answers
    → conn.write_len - conn.write_sent ≤ length answers
    → (f : Flush) × (conn_flush answers conn ≡ some f)
      × Flushed answers conn.closed (pending conn) f
unfolding conn_flush
conn_flush-Flushed [] conn v a n =
    let e : ltb conn.write_sent conn.write_len ≡ false = ground arith in
    (nothing_left conn, rw e refl, emptied-Flushed _ conn v e)
conn_flush-Flushed (wrote n ∷ answers) conn v (p, l, a) k =
    elim (Bool-cases (ltb conn.write_sent conn.write_len)) [
      | inr e ↦ (nothing_left conn, rw e refl, emptied-Flushed _ conn v e)
      | inl e ↦
          let c : Conn = record conn { write_sent = conn.write_sent + n } in
          let left : conn.write_len - (conn.write_sent + n) ≡ conn.write_len - conn.write_sent - n =
            omega arith in
          let v' : IsValid c = record {
            size = v.size;
            filled = v.filled;
            started = omega (arith, v.started);
          } in
          let (f, run, r) = conn_flush-Flushed answers c v' (rw left a) (omega (arith, k, p)) in
          let now : List ℕ = take n (drop conn.write_sent conn.write_buf) in
          let size : length now ≡ n = omega (
            arith,
            length-take n (drop conn.write_sent conn.write_buf),
            length-drop conn.write_sent conn.write_buf,
            v.size,
            v.filled,
            l,
          ) in
          let whole : now ++ pending c ≡ pending conn =
            ap (λ xs. now ++ xs)
              (ap (λ xs. take (conn.write_len - (conn.write_sent + n)) xs)
                (sym (drop-drop n conn.write_sent conn.write_buf)))
            ∙ (sym (
                  take-split n (conn.write_len - (conn.write_sent + n))
                    (drop conn.write_sent conn.write_buf))
                ∙ ap (λ m. take m (drop conn.write_sent conn.write_buf))
                    (omega (arith, left, l))) in
          (
            record f { sent = now ++ f.sent },
            rw (e, run) refl,
            rw (whole, size) at
                (after_write-Flushed now (pending c) answers conn.closed (omega (arith, size, p)) f
                  r),
          )
    ]
conn_flush-Flushed (again ∷ answers) conn v a n =
    elim (Bool-cases (ltb conn.write_sent conn.write_len)) [
      | inr e ↦ (nothing_left conn, rw e refl, emptied-Flushed _ conn v e)
      | inl e ↦ (
        record { status = ok; conn = reclaim (record conn { armed = true }); sent = [] },
        rw e refl,
        waiting-Flushed answers conn v e,
      )
    ]
conn_flush-Flushed (broken ∷ answers) conn v a n =
    elim (Bool-cases (ltb conn.write_sent conn.write_len)) [
      | inr e ↦ (nothing_left conn, rw e refl, emptied-Flushed _ conn v e)
      | inl e ↦ (
        record { status = failed; conn = record conn { closed = true }; sent = [] },
        rw e refl,
        lost-Flushed answers conn v e,
      )
    ]

-- What a call of `conn_queue_write` does.
pub data Queued (answers : List Answer) (conn : Conn) (bytes : List ℕ) (f : Flush) : Type 0 where
  queued :
      conn.write_len + length bytes ≤ write_size
      → Flushed answers false (pending conn ++ bytes) f
      → Queued answers conn bytes f
  overflow :
      write_size < conn.write_len + length bytes
      → f.status ≡ failed
      → f.conn ≡ record conn { closed = true }
      → f.sent ≡ []
      → Queued answers conn bytes f

close_ok : (s : Status) (f : Flush) → s ≡ ok → close_on_failure s f ≡ f
close_ok ok f e = refl
close_ok failed f e = absurd cc

close_failed :
    (s : Status) (f : Flush)
    → s ≡ failed
    → close_on_failure s f ≡ record f { conn = record f.conn { closed = true } }
close_failed ok f e = absurd cc
close_failed failed f e = refl

closed-Flushed :
    (answers : List Answer) (shut : Bool) (bytes : List ℕ) (f : Flush)
    → Flushed answers shut bytes f
    → Flushed answers shut bytes (close_on_failure f.status f)
closed-Flushed answers shut bytes f (all_sent m a v s p z d o) =
    rw (close_ok f.status f a) (all_sent m a v s p z d o)
closed-Flushed answers shut bytes f (waiting m a v s t z d o) =
    rw (close_ok f.status f a) (waiting m a v s t z d o)
closed-Flushed answers shut bytes f (lost m a c r t) =
    rw (close_failed f.status f a) (lost m a refl r t)

reopened :
    {answers : List Answer} {shut other : Bool} {bytes : List ℕ} {f : Flush}
    → Flushed answers shut bytes f
    → shut ≡ other
    → Flushed answers other bytes f
reopened w e = rw e at w

module _ (answers : List Answer) (conn : Conn) (bytes : List ℕ) (open_ : conn.closed ≡ false) where
  queue_open :
      conn_queue_write answers conn bytes ≡ flush_appended answers (write_buf_append conn bytes)
  unfolding conn_queue_write
  queue_open = rw open_ refl

  append_full :
      ltb write_size (conn.write_len + length bytes) ≡ true
      → write_buf_append conn bytes ≡ (failed, conn)
  unfolding write_buf_append
  append_full e = rw (open_, e) refl

  append_fits :
      ltb write_size (conn.write_len + length bytes) ≡ false
      → write_buf_append conn bytes ≡ (
        ok,
        record conn {
          write_buf = memcpy conn.write_buf conn.write_len bytes;
          write_len = conn.write_len + length bytes;
        },
      )
  unfolding write_buf_append
  append_fits e = rw (open_, e) refl

-- `conn_queue_write` on an open connection in order: when the bytes fit behind what the buffer holds, the
-- waiting bytes and then these are flushed, with the outcomes of `conn_flush`; otherwise it returns -1, closes the
-- connection and sends nothing.
pub conn_queue_write-Queued :
    (answers : List Answer) (conn : Conn) (bytes : List ℕ)
    → IsValid conn
    → conn.closed ≡ false
    → Answers (conn.write_len + length bytes - conn.write_sent) answers
    → conn.write_len + length bytes - conn.write_sent ≤ length answers
    → (f : Flush) × (conn_queue_write answers conn bytes ≡ some f) × Queued answers conn bytes f
conn_queue_write-Queued answers conn bytes v open_ a n =
    elim (Bool-cases (ltb write_size (conn.write_len + length bytes))) [
      | inl e ↦ (
        record { status = failed; conn = record conn { closed = true }; sent = [] },
        queue_open answers conn bytes open_
            ∙ ap (flush_appended answers) (append_full answers conn bytes open_ e),
        overflow (ltb→lt _ _ e) refl refl refl,
      )
      | inr e ↦
          let room = ltb→le _ _ e in
          let c : Conn = record conn {
            write_buf = memcpy conn.write_buf conn.write_len bytes;
            write_len = conn.write_len + length bytes;
          } in
          let v' : IsValid c = record {
            size =
                length-memcpy conn.write_buf conn.write_len bytes (omega (arith, v.size, room))
                ∙ v.size;
            filled = room;
            started = omega (arith, v.started);
          } in
          let (f, run, r) = conn_flush-Flushed answers c v' a n in
          let all : pending c ≡ pending conn ++ bytes =
            take-memcpy conn.write_sent conn.write_len conn.write_buf bytes v.started
              (omega (arith, v.size, v.filled)) in
          (
            close_on_failure f.status f,
            queue_open answers conn bytes open_
                ∙ (ap (flush_appended answers) (append_fits answers conn bytes open_ e)
                    ∙ ap flushed run),
            queued room (closed-Flushed answers false _ f (reopened (rw all at r) open_)),
          )
    ]
