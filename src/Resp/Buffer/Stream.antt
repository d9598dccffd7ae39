-- ===== src/Resp/Buffer/Stream.antt =====
-- The buffer of src/resp_buf.c as a stream of unread bytes.
use zedis.Base.{
  ℕ, ◌+◌, ◌-◌, ◌^◌, ◌≤◌, ◌<◌, ◌≡◌, refl, sym, ap, ◌∙◌, List, [], ◌∷◌, ◌++◌, leb, ltb, ltb→lt,
  ltb→le, leb→le, ◌==◌, length, take, drop, arith, inl, inr, Bool-cases, length-take, length-drop,
  append-nil,
}
use zedis.Base.Status.{Status, ok, failed}
use zedis.Base.Size.{add_size, sub_size}
use zedis.Base.Bytes.{memcpy, length-memcpy, take-drop-memcpy, take-memcpy}
use zedis.Resp.{Parser}
use zedis.Resp.Buffer.{compact, feed}

-- The positions are in order, and the capacity is the length of a buffer that a machine can hold.
pub record IsValid (p : Parser) : Type 0 where
  pub sized : length p.buf ≡ p.buf_cap
  pub small : p.buf_cap < 2 ^ 63
  pub written : p.w_pos ≤ p.buf_cap
  pub read : p.r_pos ≤ p.w_pos

-- The bytes that were received and not parsed yet.
unfoldable pub unread : Parser → List ℕ
unread p = take (p.w_pos - p.r_pos) (drop p.r_pos p.buf)

pub unread-size : {p : Parser} → IsValid p → length (unread p) ≡ p.w_pos - p.r_pos
unfolding unread
unread-size {p} v =
    rw (length-take (p.w_pos - p.r_pos) (drop p.r_pos p.buf), length-drop p.r_pos p.buf)
      (omega (arith, v.sized, v.written, v.read))

-- Moving the unread bytes to the front keeps them.
pub compact-Kept :
    {p : Parser}
    → IsValid p
    → IsValid (compact p)
      × (unread (compact p) ≡ unread p)
      × ((compact p).buf_cap ≡ p.buf_cap)
      × ((compact p).w_pos ≡ length (unread p))
unfolding compact unread
compact-Kept {p} v = elim (Bool-cases (p.r_pos == 0)) [
  | inl z ↦ rw z (
    v,
    refl,
    refl,
    (let e : p.r_pos ≡ 0 = ground arith in let h = unread-size v in omega (arith, h)),
  )
  | inr n ↦
      rw (n, gap)
        (
          record {
            sized = length-memcpy p.buf 0 u (omega (arith, size, v.sized, v.written)) ∙ v.sized;
            small = v.small;
            written = omega (arith, v.written);
            read = omega arith;
          },
          (let k : p.w_pos - p.r_pos - 0 ≡ length u = omega (arith, size) in
              rw k (take-drop-memcpy p.buf 0 u (omega arith))),
          refl,
          sym size,
        )
]
  where
    u : List ℕ
    u = take (p.w_pos - p.r_pos) (drop p.r_pos p.buf)

    size : length u ≡ p.w_pos - p.r_pos
    size = unread-size v

    gap : sub_size p.w_pos p.r_pos ≡ p.w_pos - p.r_pos
    gap = omega (arith, v.written, v.read, v.small)

-- What a call of `resp_parser_feed` does.
pub data Fed (p : Parser) (bytes : List ℕ) (r : Status × Parser) : Type 0 where
  accepted :
      (q : Parser)
      → r ≡ (ok, q)
      → length (unread p) + length bytes ≤ p.buf_cap
      → IsValid q
      → q.buf_cap ≡ p.buf_cap
      → unread q ≡ unread p ++ bytes
      → Fed p bytes r
  refused : r ≡ (failed, p) → p.buf_cap < length (unread p) + length bytes → Fed p bytes r

-- The write behind the unread bytes.
write_behind :
    (p : Parser) (bytes : List ℕ)
    → IsValid p
    → p.w_pos + length bytes ≤ p.buf_cap
    → IsValid
        (record p { buf = memcpy p.buf p.w_pos bytes; w_pos = add_size p.w_pos (length bytes) })
      × (unread
            (record p { buf = memcpy p.buf p.w_pos bytes; w_pos = add_size p.w_pos (length bytes) })
          ≡ unread p ++ bytes)
unfolding unread
write_behind p bytes v fits =
    let w : add_size p.w_pos (length bytes) ≡ p.w_pos + length bytes = omega (arith, v.small) in
    rw w (
      record {
        sized = length-memcpy p.buf p.w_pos bytes (omega (arith, v.sized)) ∙ v.sized;
        small = v.small;
        written = fits;
        read = omega (arith, v.read);
      },
      take-memcpy p.r_pos p.w_pos p.buf bytes v.read (omega (arith, v.sized, v.written)),
    )

-- On a valid parser `resp_parser_feed` accepts the bytes exactly when they fit behind the unread ones, be it
-- after moving these to the front, and then they stand at the end of the unread bytes, none lost or changed
-- and the parser valid; otherwise it returns -1 and the parser is as before.
pub feed_refines :
    {p : Parser} (bytes : List ℕ) → IsValid p → length bytes < 2 ^ 63 → Fed p bytes (feed p bytes)
unfolding feed
feed_refines {p} bytes v short = elim (Bool-cases (length bytes == 0)) [
  | inl z ↦
      let e : bytes ≡ [] = none_of bytes (ground arith) in
      accepted p (rw z refl) (rw e (omega (arith, unread-size v, v.written, v.read))) v refl
        (rw e (sym (append-nil (unread p))))
  | inr n ↦ elim (Bool-cases (leb (add_size p.w_pos (length bytes)) p.buf_cap)) [
    | inl l ↦
        let fits : p.w_pos + length bytes ≤ p.buf_cap =
          let k = leb→le _ _ l in omega (arith, v.small, v.written) in
        let (v', u) = write_behind p bytes v fits in
        accepted _ (rw (n, l) refl) (omega (arith, unread-size v, v.read)) v' refl u
    | inr l ↦
        elim (Bool-cases (ltb (sub_size p.buf_cap (sub_size p.w_pos p.r_pos)) (length bytes))) [
          | inl s ↦
              refused (rw (n, l, s) refl)
                (let k = ltb→lt _ _ s in omega (arith, unread-size v, v.read, v.written, v.small))
          | inr s ↦
              let k = ltb→le _ _ s in
              let (vc, uc, cc', wc) = compact-Kept v in
              let fits : (compact p).w_pos + length bytes ≤ (compact p).buf_cap =
                omega (arith, unread-size v, v.read, v.written, v.small) in
              let (v', u) = write_behind (compact p) bytes vc fits in
              accepted _ (rw (n, l, s) refl) (omega arith) v' cc' (u ∙ ap (λ x. x ++ bytes) uc)
        ]
  ]
]
  where
    none_of : (xs : List ℕ) → length xs ≡ 0 → xs ≡ []
    none_of [] h = refl
    none_of (x ∷ xs) h = absurd (omega arith)
