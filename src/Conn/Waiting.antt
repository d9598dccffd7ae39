-- ===== src/Conn/Waiting.antt =====
-- The bytes that wait in the buffer of src/conn.c, what write(2) may answer, and the outcomes of a flush.
use zedis.Base.{
  ℕ, ◌+◌, ◌-◌, ◌≤◌, ◌<◌, ◌≡◌, refl, sym, ap, ◌∙◌, Bool, true, false, Option, none, some, List, [],
  ◌∷◌, ◌++◌, ltb, Bool-cases, inl, inr, length, take, drop, arith, length-take, zero, suc,
  length-drop, ltb→lt, ltb→le, take-append_self,
}
use zedis.Base.Bytes.{length-memcpy}
use zedis.Base.Status.{ok, failed}
use zedis.Conn.{write_size, Conn, Answer, wrote, again, broken, Flush, reclaim, emptied}

-- The bytes that wait for the socket.
abbrev pub pending : Conn → List ℕ
pending conn = take (conn.write_len - conn.write_sent) (drop conn.write_sent conn.write_buf)

pub record IsValid (conn : Conn) : Type 0 where
  pub size : length conn.write_buf ≡ write_size
  pub filled : conn.write_len ≤ write_size
  pub started : conn.write_sent ≤ conn.write_len

-- What write(2) promises for a call with so many bytes: it takes at least one, and no more than it was given.
abbrev pub Answers : ℕ → List Answer → Type 0
Answers left [] = Unit
Answers left (wrote n ∷ answers) = (0 < n) × (n ≤ left) × Answers (left - n) answers
Answers left (again ∷ answers) = Unit
Answers left (broken ∷ answers) = Unit

-- How many of so many waiting bytes the calls of write(2) take, until one of them fails.
abbrev pub taken : ℕ → List Answer → ℕ
taken zero answers = 0
taken (suc left) [] = 0
taken (suc left) (wrote n ∷ answers) = n + taken (suc left - n) answers
taken (suc left) (again ∷ answers) = 0
taken (suc left) (broken ∷ answers) = 0

-- The error that a call of write(2) meets while bytes are waiting, `none` when all are taken first.
abbrev pub met : ℕ → List Answer → Option Answer
met zero answers = none
met (suc left) [] = none
met (suc left) (wrote n ∷ answers) = met (suc left - n) answers
met (suc left) (again ∷ answers) = some again
met (suc left) (broken ∷ answers) = some broken

-- What a flush of these waiting bytes does under these answers, on a connection whose `closed` is `shut`.
pub data Flushed (answers : List Answer) (shut : Bool) (bytes : List ℕ) (f : Flush) : Type 0 where
  all_sent :
      met (length bytes) answers ≡ none
      → f.status ≡ ok
      → IsValid f.conn
      → f.sent ≡ bytes
      → pending f.conn ≡ []
      → f.conn.write_len ≡ 0
      → f.conn.armed ≡ false
      → f.conn.closed ≡ shut
      → Flushed answers shut bytes f
  waiting :
      met (length bytes) answers ≡ some again
      → f.status ≡ ok
      → IsValid f.conn
      → f.sent ++ pending f.conn ≡ bytes
      → length f.sent ≡ taken (length bytes) answers
      → f.conn.write_sent ≡ 0
      → f.conn.armed ≡ true
      → f.conn.closed ≡ shut
      → Flushed answers shut bytes f
  lost :
      met (length bytes) answers ≡ some broken
      → f.status ≡ failed
      → f.conn.closed ≡ true
      → (rest : List ℕ) × (f.sent ++ rest ≡ bytes)
      → length f.sent ≡ taken (length bytes) answers
      → Flushed answers shut bytes f

pub length-pending :
    (conn : Conn) → IsValid conn → length (pending conn) ≡ conn.write_len - conn.write_sent
length-pending conn v = omega (
  arith,
  length-take (conn.write_len - conn.write_sent) (drop conn.write_sent conn.write_buf),
  length-drop conn.write_sent conn.write_buf,
  v.size,
  v.filled,
)

abbrev pub nothing_left : Conn → Flush
nothing_left conn = record { status = ok; conn = emptied conn; sent = [] }

pub met-left :
    (left n : ℕ) (answers : List Answer)
    → 0 < n
    → n ≤ left
    → (met left (wrote n ∷ answers) ≡ met (left - n) answers)
      × (taken left (wrote n ∷ answers) ≡ n + taken (left - n) answers)
met-left zero n answers p l = absurd (omega arith)
met-left (suc left) n answers p l = (refl, refl)

met-again :
    (left : ℕ) (answers : List Answer)
    → 0 < left
    → (met left (again ∷ answers) ≡ some again) × (taken left (again ∷ answers) ≡ 0)
met-again zero answers p = absurd (omega arith)
met-again (suc left) answers p = (refl, refl)

met-broken :
    (left : ℕ) (answers : List Answer)
    → 0 < left
    → (met left (broken ∷ answers) ≡ some broken) × (taken left (broken ∷ answers) ≡ 0)
met-broken zero answers p = absurd (omega arith)
met-broken (suc left) answers p = (refl, refl)

pub emptied-Flushed :
    (answers : List Answer) (conn : Conn)
    → IsValid conn
    → ltb conn.write_sent conn.write_len ≡ false
    → Flushed answers conn.closed
        (pending conn)
        (record { status = ok; conn = emptied conn; sent = [] })
emptied-Flushed answers conn v h =
    let z : conn.write_len - conn.write_sent ≡ 0 = omega (arith, ltb→le _ _ h) in
    let n : pending conn ≡ [] = ap (λ k. take k (drop conn.write_sent conn.write_buf)) z in
    all_sent (ap (λ l. met (length l) answers) n) refl
      (record { size = v.size; filled = omega arith; started = omega arith }) (sym n) refl refl refl
      refl

reclaim-pending : (conn : Conn) → IsValid conn → pending (reclaim conn) ≡ pending conn
reclaim-pending conn v = elim (Bool-cases (ltb 0 conn.write_sent)) [
  | inl p ↦
      let n = length-pending conn v in
      let left : conn.write_len - conn.write_sent - 0 ≡ length (pending conn) = omega (arith, n) in
      rw (p, left) (take-append_self (pending conn) _)
  | inr p ↦ rw p refl
]

reclaim-IsValid : (conn : Conn) → IsValid conn → IsValid (reclaim conn)
reclaim-IsValid conn v = elim (Bool-cases (ltb 0 conn.write_sent)) [
  | inl p ↦ rw p (record {
    size =
        length-memcpy conn.write_buf 0 (pending conn)
          (omega (arith, length-pending conn v, v.size, v.filled))
        ∙ v.size;
    filled = omega (arith, v.filled);
    started = omega arith;
  })
  | inr p ↦ rw p v
]

reclaim-start : (conn : Conn) → (reclaim conn).write_sent ≡ 0
reclaim-start conn = elim (Bool-cases (ltb 0 conn.write_sent)) [
  | inl p ↦ rw p refl
  | inr p ↦ rw p (omega (arith, ltb→le _ _ p))
]

reclaim-flags :
    (conn : Conn) → ((reclaim conn).armed ≡ conn.armed) × ((reclaim conn).closed ≡ conn.closed)
reclaim-flags conn = elim (Bool-cases (ltb 0 conn.write_sent)) [
  | inl p ↦ rw p (refl, refl)
  | inr p ↦ rw p (refl, refl)
]

some_pending :
    (conn : Conn)
    → IsValid conn
    → ltb conn.write_sent conn.write_len ≡ true
    → 0 < length (pending conn)
some_pending conn v h = let n = length-pending conn v in let l = ltb→lt _ _ h in omega (arith, n, l)

pub waiting-Flushed :
    (answers : List Answer) (conn : Conn)
    → IsValid conn
    → ltb conn.write_sent conn.write_len ≡ true
    → Flushed
        (again ∷ answers)
        conn.closed
        (pending conn)
        (record { status = ok; conn = reclaim (record conn { armed = true }); sent = [] })
waiting-Flushed answers conn v h =
    let c : Conn = record conn { armed = true } in
    let v' : IsValid c = record { size = v.size; filled = v.filled; started = v.started } in
    let (m, t) = met-again (length (pending conn)) answers (some_pending conn v h) in
    waiting m refl (reclaim-IsValid c v') (reclaim-pending c v') (sym t) (reclaim-start c)
      (reclaim-flags c).0 (reclaim-flags c).1

pub lost-Flushed :
    (answers : List Answer) (conn : Conn)
    → IsValid conn
    → ltb conn.write_sent conn.write_len ≡ true
    → Flushed
        (broken ∷ answers)
        conn.closed
        (pending conn)
        (record { status = failed; conn = record conn { closed = true }; sent = [] })
lost-Flushed answers conn v h =
    let (m, t) = met-broken (length (pending conn)) answers (some_pending conn v h) in
    lost m refl refl (pending conn, refl) (sym t)
