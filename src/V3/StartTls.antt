-- ===== src/V3/StartTls.antt =====
-- `handle_670` of libsrsirc/v3.c, which starts TLS when the server agrees to it. What it calls of the
-- platform layer is an argument (`Tls`); a missing number is a null handle.
pub mod Results
use libsrsirc.Base.{ℕ, Bool, true, false, not, Option, none, some, if◌then◌else◌}
use libsrsirc.Base.Mem.{Mem, ok, ◌>>=◌}
use libsrsirc.Msg.Res.{io_err, starttls_over}
use libsrsirc.Conn.{Sockets, Conn}
use libsrsirc.V3.Handlers.{V3State, conclude_sasl_cap, or_io_err}

pub record Tls (W : Type 0) : Type 0 where
  pub blocking : Option ℕ → Bool → W → W × Bool
  pub mksslctx : W → W × Option ℕ
  pub sslize : Option ℕ → ℕ → W → W × Option ℕ

module _ {W : Type 0} (s : Sockets W) (tls : Tls W) where
  abbrev with_net : V3State W → W → V3State W
  with_net v w = record v { con = record v.con { net = w } }

  -- The end: the socket is encrypted.
  encrypted : V3State W → Mem (V3State W × ℕ)
  encrypted v =
      if v.starttls_first
      then ok (record v { con = record v.con { ssl = true } }, starttls_over)
      else (conclude_sasl_cap s (record v { con = record v.con { ssl = true } }) >>= λ c.
          ok (or_io_err s c 0))

  -- The handle is stored in any case.
  sslized : V3State W → W × Option ℕ → Mem (V3State W × ℕ)
  unfolding encrypted
  sslized v (w, none) = ok (record v { con = record v.con { net = w; shnd = none } }, io_err)
  sslized v (w, some h) =
      let v' : V3State W = record v { con = record v.con { net = w; shnd = some h } } in
      let b = tls.blocking v'.con.sck false w in
      if b.1 then encrypted (with_net v' b.0) else ok (with_net v' b.0, io_err)

  with_ctx : V3State W → W × Option ℕ → Mem (V3State W × ℕ)
  unfolding sslized
  with_ctx v (w, none) = ok (with_net v w, io_err)
  with_ctx v (w, some sctx) = sslized v (tls.sslize v.con.sck sctx w)

  pub handle_670 : V3State W → Mem (V3State W × ℕ)
  unfolding with_ctx
  handle_670 v =
      let b = tls.blocking v.con.sck true v.con.net in
      if b.1 then with_ctx v (tls.mksslctx b.0) else ok (with_net v b.0, io_err)
