-- ===== src/Ring/Queue.antt =====
-- What the ring promises: a bounded queue of messages, numbered in the order of publication.
use zedis.Base.{
  ℕ, ◌+◌, Option, none, some, List, [], ◌∷◌, ◌++◌, ltb, leb, if◌then◌else◌, length, take,
}
use zedis.Base.Status.{Status, ok, failed}
use zedis.Ring.{Message, Op, put, get, Reply, put_status, got, msg_max}

-- The messages not yet read, oldest first, and the number of the next one.
pub record Queue : Type 0 where
  pub items : List Message
  pub next : ℕ

unfoldable pub push : ℕ → Queue → List ℕ → List ℕ → Status × Queue
push cap q channel payload =
    if ltb msg_max (length payload)
    then (failed, q)
    else if leb cap (length q.items)
    then (failed, q)
    else (
      ok,
      record {
        items =
            q.items ++ record { channel = take 63 channel; payload = payload; seq = q.next } ∷ [];
        next = q.next + 1;
      },
    )

unfoldable pub pop : Queue → Option Message × Queue
pop q = elim q.items [ [] ↦ (none, q) | m ∷ rest ↦ (some m, record q { items = rest }) ]

unfoldable pub run : ℕ → Queue → List Op → List Reply
run cap q [] = []
run cap q (put c p ∷ ops) = let (s, q') = push cap q c p in put_status s ∷ run cap q' ops
run cap q (get ∷ ops) = let (out, q') = pop q in got out ∷ run cap q' ops
