-- ===== src/Conn/Setup/Connected.antt =====
-- What `lsi_conn_connect` of libsrsirc/conn.c leaves behind.
use libsrsirc.Base.{
  ℕ, ◌≡◌, refl, Bool, true, false, ◌⊎◌, inl, inr, Option, none, some, Bytes, is_some, Bool-cases,
  Option-cases,
}
use libsrsirc.Base.Mem.{ok}
use libsrsirc.Hosts.Spec.{Pxtype}
use libsrsirc.Conn.Setup.{
  contents, Dialer, Link, on_net, set_sck, set_shnd, pxtype, has_px, give_up, go_online,
  connect_tls, connect_rest, log_on, time_left, connect_px, deadline, real_port, open_sck,
  with_socket, dial, conn_connect,
}

-- The connection is online, through the socket, and through TLS where that is on.
unfoldable pub IsOnline : {W : Type 0} → Bool → ℕ → Link W → Type 0
IsOnline ssl sck y =
    (y.con.online ≡ true) × (y.con.sck ≡ some sck) × (ssl ≡ true → is_some y.con.shnd ≡ true)

-- The connection is not online, and the socket is closed by the last step on the world.
unfoldable pub IsClosed : {W : Type 0} → Dialer W → ℕ → Link W → Type 0
IsClosed {W} d sck y =
    (y.con.online ≡ false) × (y.con.sck ≡ none) × ((w : W) × (y.con.net ≡ d.sockets.close sck w))

unfoldable pub Ends : {W : Type 0} → Dialer W → Bool → ℕ → Link W × Bool → Type 0
unfolding IsOnline IsClosed
Ends d ssl sck r = ((r.1 ≡ true) × IsOnline ssl sck r.0) ⊎ ((r.1 ≡ false) × IsClosed d sck r.0)

-- The proxy of the type that is set has let the client through to the server.
unfoldable pub LoggedOn : {W : Type 0} → Dialer W → Link W → ℕ → Type 0
LoggedOn {W} d l sck =
    (t : Pxtype) × (trem : ℕ) × (w : W) × (pxtype l.ptype ≡ some t)
    × ((d.px_logon t sck l.host (real_port l) trem w).1 ≡ true)

module _ {W : Type 0} (d : Dialer W) (sck : ℕ) where
  give_up-Ends : (ssl : Bool) (y : Link W) → y.con.online ≡ false → Ends d ssl sck (give_up d y sck)
  unfolding give_up Ends IsClosed
  give_up-Ends ssl y off = inr (refl, (off, refl, (y.con.net, refl)))

  go_online-Ends :
      (ssl : Bool) (y : Link W)
      → y.con.sck ≡ some sck
      → (ssl ≡ true → is_some y.con.shnd ≡ true)
      → Ends d ssl sck (go_online d y)
  unfolding go_online Ends IsOnline
  go_online-Ends ssl y at tls = inl (refl, (refl, at, tls))

  connect_tls-Ends :
      (ssl : Bool) (l : Link W)
      → l.con.online ≡ false
      → l.con.sck ≡ some sck
      → Ends d ssl sck (connect_tls d l sck)
  unfolding connect_tls
  connect_tls-Ends ssl l off at =
      let b = d.blocking sck true l.con.net in
      let r = d.sslize sck l.sctx b.0 in
      let n = d.blocking sck false r.0 in
      elim (Bool-cases b.1) [
        | inr e ↦ rw (e, connect_tls) (give_up-Ends ssl (on_net l b.0) off)
        | inl e ↦ elim (Option-cases r.1) [
          | inl f ↦ rw (e, f, connect_tls) (give_up-Ends ssl (set_shnd (on_net l r.0) none) off)
          | inr (h, f) ↦ elim (Bool-cases n.1) [
            | inr g ↦
                rw (e, f, g, connect_tls) (give_up-Ends ssl (set_shnd (on_net l n.0) (some h)) off)
            | inl g ↦
                rw (e, f, g, connect_tls)
                  (go_online-Ends ssl (set_shnd (on_net l n.0) (some h)) at (λ s. refl))
          ]
        ]
      ]

  connect_rest-Ends :
      (ssl : Bool) (l : Link W)
      → l.con.ssl ≡ ssl
      → l.con.online ≡ false
      → l.con.sck ≡ some sck
      → Ends d ssl sck (connect_rest d l sck)
  unfolding connect_rest
  connect_rest-Ends true l e off at = rw (e, connect_rest) (connect_tls-Ends true l off at)
  connect_rest-Ends false l e off at = rw (e, connect_rest) (go_online-Ends false l at (λ s. cc))

-- The connection ends so, and is online through a proxy, where one is set, only after its logon.
unfoldable pub Connects : {W : Type 0} → Dialer W → Link W → ℕ → Link W × Bool → Type 0
unfolding Ends LoggedOn
Connects d l sck r =
    Ends d l.con.ssl sck r × (r.1 ≡ true → has_px l.ptype ≡ true → LoggedOn d l sck)

module _ {W : Type 0} (d : Dialer W) (sck : ℕ) where
  give_up-Connects : (l y : Link W) → y.con.online ≡ false → Connects d l sck (give_up d y sck)
  unfolding Connects give_up
  give_up-Connects l y off = (give_up-Ends d sck l.con.ssl y off, λ h p. cc (h))

  log_on-LoggedOn :
      (l : Link W) (o : Option Pxtype) (trem : ℕ) (w : W)
      → pxtype l.ptype ≡ o
      → (log_on d o sck l.host (real_port l) trem w).1 ≡ true
      → LoggedOn d l sck
  unfolding log_on LoggedOn
  log_on-LoggedOn l none trem w e h = cc (h)
  log_on-LoggedOn l (some t) trem w e h = (t, trem, w, e, h)

  through_px-Connects :
      (l : Link W) (trem : ℕ) (w : W)
      → l.con.online ≡ false
      → l.con.sck ≡ some sck
      → (log_on d (pxtype l.ptype) sck l.host (real_port l) trem w).1 ≡ true
      → Connects d l sck (
          connect_rest d
            (on_net l (log_on d (pxtype l.ptype) sck l.host (real_port l) trem w).0)
            sck)
  unfolding Connects
  through_px-Connects l trem w off at h =
      let y = on_net l (log_on d (pxtype l.ptype) sck l.host (real_port l) trem w).0 in
      (
        connect_rest-Ends d sck l.con.ssl y refl off at,
        λ r p. log_on-LoggedOn l (pxtype l.ptype) trem w refl h,
      )

  connect_px-Connects :
      (l : Link W) (tend : ℕ)
      → l.con.online ≡ false
      → l.con.sck ≡ some sck
      → Connects d l sck (connect_px d l sck (real_port l) tend)
  unfolding connect_px
  connect_px-Connects l tend off at =
      let t = time_left d tend l.con.net in
      let b = d.blocking sck false t.0 in
      let r = log_on d (pxtype l.ptype) sck l.host (real_port l) t.1.1 b.0 in
      elim (Bool-cases t.1.0) [
        | inl e ↦ rw (e, connect_px) (give_up-Connects l (on_net l t.0) off)
        | inr e ↦ elim (Bool-cases b.1) [
          | inr f ↦ rw (e, f, connect_px) (give_up-Connects l (on_net l b.0) off)
          | inl f ↦ elim (Bool-cases r.1) [
            | inr g ↦ rw (e, f, g, connect_px) (give_up-Connects l (on_net l r.0) off)
            | inl g ↦ rw (e, f, g, connect_px) (through_px-Connects l t.1.1 b.0 off at g)
          ]
        ]
      ]

  either-Connects :
      (l : Link W) (px : Bool) (r q : Link W × Bool)
      → (px ≡ true → Connects d l sck r)
      → (px ≡ false → Connects d l sck q)
      → Connects d l sck (elim px [ true ↦ r | false ↦ q ])
  either-Connects l true r q f g = f refl
  either-Connects l false r q f g = g refl

  with_socket-Connects :
      (l : Link W) (tend : ℕ) → l.con.online ≡ false → Connects d l sck (with_socket d l sck tend)
  unfolding with_socket Connects real_port LoggedOn
  with_socket-Connects l tend off =
      let y = set_shnd (set_sck l (some sck)) none in
      either-Connects l (has_px l.ptype) (connect_px d y sck (real_port l) tend)
        (connect_rest d y sck) (λ e. connect_px-Connects y tend off refl)
        (λ e. (connect_rest-Ends d sck l.con.ssl y refl off refl, λ r p. cc (e, p)))

module _ {W : Type 0} (d : Dialer W) where
  dial-Connects :
      (l : Link W) (softto hardto : ℕ) (laddr : Option Bytes)
      → l.con.online ≡ false
      → let s = open_sck d l softto hardto laddr (deadline d hardto l.con.net).0 in
        ((s.1 ≡ none) × (dial d l softto hardto laddr ≡ (on_net l s.0, false)))
        ⊎ ((sck : ℕ) × (s.1 ≡ some sck) × Connects d l sck (dial d l softto hardto laddr))
  unfolding dial Connects real_port LoggedOn
  dial-Connects l softto hardto laddr off =
      let t = deadline d hardto l.con.net in
      let s = open_sck d l softto hardto laddr t.0 in
      elim (Option-cases s.1) [
        | inl e ↦ inl (e, rw (e, dial) refl)
        | inr (sck, e) ↦
            inr (sck, e, rw (e, dial) (with_socket-Connects d sck (on_net l s.0) t.1 off))
      ]

  -- A connect of a connection that is offline comes to an end. Where no socket is opened it says
  -- false, and only the world has changed. Where one is opened, and it says true, the connection is
  -- online through that socket, with a TLS handle where TLS is on, and, where a proxy is set, the
  -- proxy's logon has succeeded for the host and port of the server; where it says false, the
  -- connection is offline, and its last step was to close that socket. The local address was not
  -- cleared.
  pub conn_connect-Connects :
      (l : Link W) (softto hardto : ℕ) (laddr : Option Bytes)
      → l.con.online ≡ false
      → contents l.laddr ≡ ok laddr
      → (r : Link W × Bool) × (conn_connect d l softto hardto ≡ ok r)
        × (let s = open_sck d l softto hardto laddr (deadline d hardto l.con.net).0 in
            ((s.1 ≡ none) × (r ≡ (on_net l s.0, false)))
            ⊎ ((sck : ℕ) × (s.1 ≡ some sck) × Connects d l sck r))
  unfolding conn_connect
  conn_connect-Connects l softto hardto laddr off fresh = (
    dial d l softto hardto laddr,
    simp (off, fresh, conn_connect),
    dial-Connects l softto hardto laddr off,
  )
