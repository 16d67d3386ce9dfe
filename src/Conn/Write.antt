-- ===== src/Conn/Write.antt =====
-- What a line that `lsi_conn_write` of libsrsirc/conn.c sends looks like on the wire, and what a
-- failure leaves behind.
use libsrsirc.Base.{
  ℕ, zero, suc, ◌+◌, ◌-◌, ◌≡◌, ◌≢◌, ◌⊎◌, refl, sym, true, false, inl, inr, Option, none, some, [],
  ◌∷◌, ◌++◌, Bytes, if◌then◌else◌, length, take, drop, ltb, length-append, append-nil, Bool-cases,
  append_assoc, ◌∙◌, ap, arith,
}
use libsrsirc.Proto.{crlf}
use libsrsirc.V3.Caps.Want.{same_eq, same_refl}
use libsrsirc.Conn.{
  Sockets, Conn, sent, send_wrap, io_write, reset, conn_write_raw, needs_crlf, conn_write,
}

sent-world : {W : Type 0} (r : W × Option ℕ) (n : ℕ) → (sent r n).0 ≡ r.0
sent-world (w, none) n = refl
sent-world (w, some r) n = refl

take-drop : (n : ℕ) (s : Bytes) → s ≡ take n s ++ drop n s
take-drop zero s = refl
take-drop (suc n) [] = refl
take-drop (suc n) (c ∷ s) = ap (λ t. c ∷ t) (take-drop n s)

drop-length : (p s : Bytes) → drop (length p) (p ++ s) ≡ s
drop-length [] s = refl
drop-length (c ∷ p) s = drop-length p s

-- A line that needs no line end has one, and the other way round.
ends_crlf : (line : Bytes) → needs_crlf line ≡ false → line ≡ take (length line - 2) line ++ crlf
unfolding needs_crlf
ends_crlf line e =
    take-drop (length line - 2) line
    ∙ ap (λ t. take (length line - 2) line ++ t)
        (same_eq (drop (length line - 2) line) crlf (ground arith))

has_crlf : (p : Bytes) → needs_crlf (p ++ crlf) ≡ false
unfolding needs_crlf
has_crlf p =
    let size : length (p ++ crlf) ≡ length p + 2 = length-append p crlf in
    let tail : drop (length (p ++ crlf) - 2) (p ++ crlf) ≡ crlf =
      ap (λ n. drop n (p ++ crlf)) (omega arith) ∙ drop-length p crlf in
    let long : ltb (length (p ++ crlf)) 2 ≡ false = ground (arith, size) in
    rw (long, tail, same_refl crlf) refl

module _ {W : Type 0} (s : Sockets W) (wire : W → Bytes) where
  -- Each of the two writes transmits what it counts: a full count appends the whole buffer.
  unfoldable pub IsStream : Type 0
  IsStream =
      (sck shnd : Option ℕ) (buf : Bytes) (w : W)
      → (sent (send_wrap s sck shnd buf w) (length buf)).1 ≡ true
      → wire (send_wrap s sck shnd buf w).0 ≡ wire w ++ buf

  conn_write_raw-wire :
      (c : Conn W) (buf : Bytes)
      → IsStream
      → (conn_write_raw s c buf).1 ≡ true
      → (wire (conn_write_raw s c buf).0.net ≡ wire c.net ++ buf)
  unfolding conn_write_raw io_write IsStream
  conn_write_raw-wire c buf stream h = elim (Bool-cases c.online) [
    | inl on ↦ elim (Bool-cases (io_write s c buf).1) [
      | inl e ↦
          rw (on, e, conn_write_raw)
            (ap wire (sent-world (send_wrap s c.sck c.shnd buf c.net) (length buf))
              ∙ stream c.sck c.shnd buf c.net e)
      | inr e ↦ cc (rw (on, e, conn_write_raw) at h)
    ]
    | inr off ↦ cc (rw (off, conn_write_raw) at h)
  ]

  written-wire :
      (c : Conn W) (line : Bytes)
      → IsStream
      → (conn_write s c line).1 ≡ true
      → wire (conn_write s c line).0.net
        ≡ wire c.net ++ (line ++ (if needs_crlf line then crlf else []))
  unfolding conn_write
  written-wire c line stream h = elim (Bool-cases (conn_write_raw s c line).1) [
    | inl e ↦
        rw (e, conn_write)
          (conn_write_raw-wire (conn_write_raw s c line).0 (if needs_crlf line then crlf else [])
              stream (rw (e, conn_write) at h)
            ∙ ap (λ t. t ++ (if needs_crlf line then crlf else []))
                (conn_write_raw-wire c line stream e)
            ∙ append_assoc (wire c.net) line (if needs_crlf line then crlf else []))
    | inr e ↦ cc (rw (e, conn_write) at h, e)
  ]

  -- A line that is written stands on the wire, with one line end: the one that it ends in, or, where
  -- it ends in none, one that is added. The socket transmits what it counts.
  pub conn_write-wire :
      (c : Conn W) (line : Bytes)
      → IsStream
      → (conn_write s c line).1 ≡ true
      → (((p : Bytes) × (line ≡ p ++ crlf))
          × (wire (conn_write s c line).0.net ≡ wire c.net ++ line))
        ⊎ (((p : Bytes) → line ≢ p ++ crlf)
            × (wire (conn_write s c line).0.net ≡ wire c.net ++ (line ++ crlf)))
  conn_write-wire c line stream h = elim (Bool-cases (needs_crlf line)) [
    | inr e ↦ inl (
      (take (length line - 2) line, ends_crlf line e),
      written-wire c line stream h ∙ rw e (ap (λ t. wire c.net ++ t) (append-nil line)),
    )
    | inl e ↦ inr (
      λ p is. absurd (cc (sym (ap needs_crlf is) ∙ e, has_crlf p)),
      written-wire c line stream h ∙ rw e refl,
    )
  ]

module _ {W : Type 0} (s : Sockets W) where
  conn_write_raw-offline :
      (c : Conn W) (buf : Bytes)
      → (conn_write_raw s c buf).1 ≡ false
      → (conn_write_raw s c buf).0.online ≡ false
  unfolding conn_write_raw reset
  conn_write_raw-offline c buf h = elim (Bool-cases c.online) [
    | inl on ↦ elim (Bool-cases (io_write s c buf).1) [
      | inl e ↦ cc (rw (on, e, conn_write_raw) at h)
      | inr e ↦ rw (on, e, conn_write_raw) refl
    ]
    | inr off ↦ rw (off, conn_write_raw) off
  ]

  -- A line that could not be written leaves the connection offline.
  pub conn_write-offline :
      (c : Conn W) (line : Bytes)
      → (conn_write s c line).1 ≡ false
      → (conn_write s c line).0.online ≡ false
  unfolding conn_write
  conn_write-offline c line h = elim (Bool-cases (conn_write_raw s c line).1) [
    | inl e ↦
        rw (e, conn_write)
          (conn_write_raw-offline (conn_write_raw s c line).0 (if needs_crlf line then crlf else [])
            (rw (e, conn_write) at h))
    | inr e ↦ rw (e, conn_write) (conn_write_raw-offline c line e)
  ]
