-- ===== src/Conn.antt =====
-- The writing side of a connection: `lsi_conn_write` of libsrsirc/conn.c, down to `lsi_io_write` of
-- libsrsirc/io.c. The platform's sockets are an argument of the model (`Sockets`), and `W` is the
-- world that they change.
pub mod Write
pub mod Setup
use libsrsirc.Base.{
  ℕ, suc, ◌-◌, Bool, true, false, not, ◌&&◌, ◌||◌, Option, none, some, List, [], ◌∷◌, Bytes, ◌==◌,
  if◌then◌else◌, ltb, length, drop,
}
use libsrsirc.Msg.{same}
use libsrsirc.Proto.{crlf}

-- What the code calls of the platform layer; a count that is missing is a negative result.
pub record Sockets (W : Type 0) : Type 0 where
  pub write : ℕ → Bytes → W → W × Option ℕ
  pub write_ssl : ℕ → Bytes → W → W × Option ℕ
  pub close : ℕ → W → W
  pub sslfin : ℕ → W → W

-- The fields of `struct iconn_s` that these operations use. `sck` is `none` for -1; `unread` is
-- what the receive buffer holds between `wptr` and `eptr`.
pub record Conn (W : Type 0) : Type 0 where
  pub sck : Option ℕ
  pub shnd : Option ℕ
  pub online : Bool
  pub eof : Bool
  pub ssl : Bool
  pub unread : Bytes
  pub net : W

abbrev pub sent : {W : Type 0} → W × Option ℕ → ℕ → W × Bool
sent (w, none) n = (w, false)
sent (w, some r) n = (w, r == n)

-- The line has no line end yet.
unfoldable pub needs_crlf : Bytes → Bool
needs_crlf line = ltb (length line) 2 || not (same (drop (length line - 2) line) crlf)

module _ {W : Type 0} (s : Sockets W) where
  -- A write to the socket -1 fails.
  unfoldable pub send_wrap : Option ℕ → Option ℕ → Bytes → W → W × Option ℕ
  send_wrap sck (some shnd) buf w = s.write_ssl shnd buf w
  send_wrap (some sck) none buf w = s.write sck buf w
  send_wrap none none buf w = (w, none)

  unfoldable pub io_write : Conn W → Bytes → W × Bool
  unfolding send_wrap
  io_write c buf = sent (send_wrap c.sck c.shnd buf c.net) (length buf)

  shut_ssl : Bool → Option ℕ → W → W
  shut_ssl true (some shnd) w = s.sslfin shnd w
  shut_ssl true none w = w
  shut_ssl false shnd w = w

  close_sck : Option ℕ → W → W
  close_sck (some sck) w = s.close sck w
  close_sck none w = w

  pub reset : Conn W → Conn W
  unfolding shut_ssl close_sck
  reset c = record c {
    sck = none;
    shnd = if c.ssl then none else c.shnd;
    online = false;
    unread = [];
    net = close_sck c.sck (shut_ssl c.ssl c.shnd c.net);
  }

  -- A failed write ends the connection.
  unfoldable pub conn_write_raw : Conn W → Bytes → Conn W × Bool
  conn_write_raw c buf = elim c.online [
    | false ↦ (c, false)
    | true ↦ elim (io_write c buf).1 [
      | false ↦ (record (reset (record c { net = (io_write c buf).0 })) { eof = false }, false)
      | true ↦ (record c { net = (io_write c buf).0 }, true)
    ]
  ]

  unfoldable pub conn_write : Conn W → Bytes → Conn W × Bool
  unfolding conn_write_raw needs_crlf
  conn_write c line = elim (conn_write_raw c line).1 [
    | false ↦ conn_write_raw c line
    | true ↦ conn_write_raw (conn_write_raw c line).0 (if needs_crlf line then crlf else [])
  ]
