-- ===== src/Settings/Tls.antt =====
-- What the setters of libsrsirc/irc_getset.c keep, in every order of calls.
use libsrsirc.Base.{
  arith, ℕ, suc, ◌≡◌, refl, Bool, true, false, not, ◌&&◌, ◌||◌, inl, inr, Option, none, some, List,
  [], ◌∷◌, Bytes, codes, is_some, Bool-cases, Option-cases, ◌==◌,
}
use libsrsirc.Base.Mem.{ok, ◌>>=◌}
use libsrsirc.Casecmp.{ℤ}
use libsrsirc.Conn.Setup.{
  Owned, null, held, freed, free_owned, Dialer, Link, pxtype, set_px, set_localaddr, set_server,
  set_ssl,
}
use libsrsirc.V3.Caps.{want_cap, clear_cap}
use libsrsirc.Settings.{
  Settings, update_strprop, is_on, is_one, Call, server, pass, uname, fname, nick, service_dist,
  service_info, starttls, sasl, localaddr, px, conflags, service_connect, service_type, track,
  connect_timeout, ssl, dumb, want_starttls, set_starttls, set_sasl, set_tls, apply, run,
}

unfoldable pub is_freed : Owned → Bool
is_freed null = false
is_freed (held s) = false
is_freed freed = true

-- The local address is not one that is freed, and TLS is on only with a TLS context.
unfoldable pub IsLink : {W : Type 0} → Link W → Type 0
unfolding is_freed
IsLink l = (is_freed l.laddr ≡ false) × (l.con.ssl ≡ true → is_some l.sctx ≡ true)

-- And not both TLS and STARTTLS are on. The flag that makes `irc_connect` begin with STARTTLS is set
-- only where STARTTLS is on, so it is not on along with TLS either.
unfoldable pub IsSane : {W : Type 0} → Settings W → Type 0
unfolding IsLink
IsSane x =
    IsLink x.link
    × (x.link.con.ssl && x.starttls ≡ false)
    × (x.starttls_first ≡ true → x.starttls ≡ true)

-- STARTTLS at the start: a mode that is neither 0 nor 1.
unfoldable pub early : ℤ → Bool
unfolding is_on is_one
early mode = is_on mode && not (is_one mode)

-- Whether a call is in order, where `first` says whether STARTTLS at the start was asked for: it does
-- not clear the local address, and it does not ask for another mode of STARTTLS once that was.
unfoldable pub allowed : Bool → Call → Bool
allowed first (starttls mode musthave) = not first || early mode
allowed first (localaddr none port) = false
allowed first c = true

unfoldable pub first_after : Bool → Call → Bool
first_after first (starttls mode musthave) = first || early mode
first_after first c = first

unfoldable pub orderly : Bool → List Call → Bool
orderly first [] = true
orderly first (c ∷ cs) = allowed first c && orderly (first_after first c) cs

-- A link that differs only in what the invariant does not read.
Alike : {W : Type 0} → Link W → Link W → Type 0
Alike k l = (k.laddr ≡ l.laddr) × (k.con.ssl ≡ l.con.ssl) × (k.sctx ≡ l.sctx)

and_none : (b : Bool) → b && false ≡ false
and_none true = refl
and_none false = refl

off_where : (have a b : Bool) → not have || (a && b) ≡ false → b ≡ true → a ≡ false
off_where have false b e h = refl
off_where false true b e h = cc (e)
off_where true true true e h = cc (e)
off_where true true false e h = cc (h)

or_true : (b : Bool) → (b || true) ≡ true
or_true true = refl
or_true false = refl

or_left : (b c : Bool) → b ≡ true → (b || c) ≡ true
or_left true c h = refl
or_left false c h = cc (h)

no_flag : (f b : Bool) → (f ≡ true → b ≡ true) → (not b || false) ≡ true → f ≡ false
no_flag false b low keep = refl
no_flag true true low keep = cc (keep)
no_flag true false low keep = cc (low refl)

released :
    {B : Type 0} (a : Owned) (r : B) → is_freed a ≡ false → (free_owned a >>= λ b. ok r) ≡ ok r
unfolding is_freed free_owned
released null y e = refl
released (held s) y e = refl
released freed y e = cc (e)

module _ {W : Type 0} where
  set_server-Alike :
      (dup : Bool) (l : Link W) (host : Option Bytes) (port : ℕ)
      → Alike (set_server dup l host port).0 l
  unfolding Alike set_server
  set_server-Alike false l host port = (refl, refl, refl)
  set_server-Alike true l none port = (refl, refl, refl)
  set_server-Alike true l (some host) port = (refl, refl, refl)

  set_px-Alike :
      (dup : Bool) (l : Link W) (host : Option Bytes) (port : ℕ) (ptype : ℤ)
      → Alike (set_px dup l host port ptype).0 l
  unfolding Alike set_px
  set_px-Alike dup l none port ptype = (refl, refl, refl)
  set_px-Alike dup l (some host) port ptype = elim (Option-cases (pxtype ptype)) [
    | inl e ↦ rw (e, set_px) (refl, refl, refl)
    | inr (t, e) ↦ elim (Bool-cases (port == 0)) [
      | inl f ↦ rw (e, f, set_px) (refl, refl, refl)
      | inr f ↦ elim (Bool-cases dup) [
        | inl g ↦ rw (e, f, g, set_px) (refl, refl, refl)
        | inr g ↦ rw (e, f, g, set_px) (refl, refl, refl)
      ]
    ]
  ]

  Alike-IsSane :
      (x : Settings W) (k : Link W) → Alike k x.link → IsSane x → IsSane (record x { link = k })
  unfolding Alike IsSane IsLink
  Alike-IsSane x k (a, b, c) s = rw (a, b, c) s

  set_localaddr-IsSane :
      (dup : Bool) (x : Settings W) (addr : Bytes) (port : ℕ)
      → IsSane x
      → (r : Link W × Bool) × (set_localaddr dup x.link (some addr) port ≡ ok r)
        × IsSane (record x { link = r.0 })
  unfolding set_localaddr free_owned IsSane IsLink is_freed
  set_localaddr-IsSane false x addr port s = ((x.link, false), refl, s)
  set_localaddr-IsSane true x addr port ((a, t), o, f) =
      let y = record x.link { laddr = held addr; lport = port } in
      ((y, true), released x.link.laddr (y, true) a, ((refl, t), o, f))

  -- The settings are sane, and the flag is set only if `b`.
  abbrev Within : Bool → Settings W → Type 0
  Within b x = IsSane x × (x.starttls_first ≡ true → b ≡ true)

  wanted-Within :
      (d : Dialer W) (have_ssl : Bool) (memory : ℕ → Bool) (b : Bool) (x : Settings W) (mode : ℤ)
      (m : Bool)
      → IsLink x.link
      → (is_on mode ≡ true → x.link.con.ssl ≡ false)
      → x.starttls ≡ false
      → (x.starttls_first ≡ true → b ≡ true)
      → (not b || early mode) ≡ true
      → Within (b || early mode) (want_starttls d have_ssl memory x mode m).0
  unfolding IsSane want_starttls early
  wanted-Within d have memory b x mode m l off idle low keep = elim (Bool-cases (is_on mode)) [
    | inr e ↦
        let plain : x.starttls_first ≡ false = no_flag x.starttls_first b low (rw e at keep) in
        rw (e, want_starttls)
          ((l, rw (idle) (and_none x.link.con.ssl), λ f. cc (f, plain)), λ f. cc (f, plain))
    | inl e ↦ elim (Bool-cases (is_one mode)) [
      | inr f ↦ rw (e, f, want_starttls) ((l, rw (off e) refl, λ g. refl), λ g. or_true b)
      | inl f ↦
          let plain : x.starttls_first ≡ false =
            no_flag x.starttls_first b low (rw (e, f) at keep) in
          elim (Bool-cases (want_cap (memory 0) x.v3caps (codes "tls") m).1) [
            | inr g ↦
                rw (e, f, g, want_starttls)
                  ((l, rw (off e) refl, λ h. cc (h, plain)), λ h. cc (h, plain))
            | inl g ↦
                rw (e, f, g, want_starttls) ((l, rw (off e) refl, λ h. refl), λ h. cc (h, plain))
          ]
    ]
  ]

  set_starttls-Within :
      (d : Dialer W) (have_ssl : Bool) (memory : ℕ → Bool) (b : Bool) (x : Settings W) (mode : ℤ)
      (m : Bool)
      → Within b x
      → (not b || early mode) ≡ true
      → Within (b || early mode) (set_starttls d have_ssl memory x mode m).0
  unfolding set_starttls IsSane
  set_starttls-Within d have memory b x mode m ((l, o, t), low) keep =
      elim (Bool-cases (not have || (x.link.con.ssl && is_on mode))) [
        | inl e ↦ rw (e, set_starttls) ((l, o, t), λ f. or_left b (early mode) (low f))
        | inr e ↦
            rw (e, set_starttls)
              (wanted-Within d have memory b
                (record x { v3caps = clear_cap x.v3caps (codes "tls"); starttls = false }) mode m l
                (off_where have x.link.con.ssl (is_on mode) e) refl low keep)
      ]

  set_sasl-Within :
      (d : Dialer W) (have_ssl : Bool) (memory : ℕ → Bool) (b : Bool) (x : Settings W)
      (mech : Option Bytes) (msg : Bytes) (m : Bool)
      → Within b x
      → Within b (set_sasl d have_ssl memory x mech msg m).0
  unfolding set_sasl IsSane
  set_sasl-Within d have memory b x mech msg m s =
      elim (Bool-cases (update_strprop (memory 0) x.sasl_mech mech).1) [
        | inr e ↦ rw (e, set_sasl) s
        | inl e ↦ elim (Bool-cases (memory 1)) [
          | inr f ↦ rw (e, f, set_sasl) s
          | inl f ↦ rw (e, f, set_sasl) s
        ]
      ]

  set_ssl-IsLink : (d : Dialer W) (l : Link W) (on : Bool) → IsLink l → IsLink (set_ssl d l on).0
  unfolding set_ssl IsLink
  set_ssl-IsLink d l true (a, t) = elim (Option-cases l.sctx) [
    | inr (s, e) ↦ rw (e, set_ssl) (a, λ h. rw (e) refl)
    | inl e ↦ elim (Option-cases (d.mksslctx l.con.net).1) [
      | inl f ↦ rw (e, f, set_ssl) (a, t)
      | inr (s, f) ↦ rw (e, f, set_ssl) (a, λ h. refl)
    ]
  ]
  set_ssl-IsLink d l false (a, t) = elim (Option-cases l.sctx) [
    | inl e ↦ rw (e, set_ssl) (a, λ h. cc)
    | inr (s, e) ↦ rw (e, set_ssl) (a, λ h. cc)
  ]

  set_ssl-off : (d : Dialer W) (l : Link W) → (set_ssl d l false).0.con.ssl ≡ false
  unfolding set_ssl
  set_ssl-off d l = elim (Option-cases l.sctx) [
    | inl e ↦ rw (e, set_ssl) refl
    | inr (s, e) ↦ rw (e, set_ssl) refl
  ]

  set_tls-IsSane :
      (d : Dialer W) (have_ssl : Bool) (memory : ℕ → Bool) (x : Settings W) (on : Bool)
      → IsSane x
      → IsSane (set_tls d have_ssl memory x on).0
  unfolding set_tls IsSane
  set_tls-IsSane d have memory x false (l, o, t) =
      elim (Bool-cases (not have || (x.starttls && false))) [
        | inl e ↦ rw (e, set_tls) (l, o, t)
        | inr e ↦
            rw (e, set_tls) (set_ssl-IsLink d x.link false l, rw (set_ssl-off d x.link) refl, t)
      ]
  set_tls-IsSane d have memory x true (l, o, t) =
      elim (Bool-cases (not have || (x.starttls && true))) [
        | inl e ↦ rw (e, set_tls) (l, o, t)
        | inr e ↦
            rw (e, set_tls)
              (
                set_ssl-IsLink d x.link true l,
                rw (off_where have x.starttls true e refl)
                    (and_none (set_ssl d x.link true).0.con.ssl),
                t,
              )
      ]

  set_tls-Within :
      (d : Dialer W) (have_ssl : Bool) (memory : ℕ → Bool) (b : Bool) (x : Settings W) (on : Bool)
      → Within b x
      → Within b (set_tls d have_ssl memory x on).0
  unfolding set_tls
  set_tls-Within d have memory b x on (s, w) = (
    set_tls-IsSane d have memory x on s,
    elim (Bool-cases (not have || (x.starttls && on))) [
      | inl e ↦ rw (e, set_tls) w
      | inr e ↦ rw (e, set_tls) w
    ],
  )

  apply-Within :
      (d : Dialer W) (have_ssl : Bool) (memory : ℕ → Bool) (b : Bool) (c : Call) (x : Settings W)
      → allowed b c ≡ true
      → Within b x
      → (r : Settings W × Bool) × (apply d have_ssl memory c x ≡ ok r)
        × Within (first_after b c) r.0
  unfolding apply IsSane allowed first_after
  apply-Within d have memory b (server host port) x e (s, w) =
      (_, refl, (Alike-IsSane x _ (set_server-Alike (memory 0) x.link host port) s, w))
  apply-Within d have memory b (px host port ptype) x e (s, w) =
      (_, refl, (Alike-IsSane x _ (set_px-Alike (memory 0) x.link host port ptype) s, w))
  apply-Within d have memory b (localaddr none port) x e (s, w) = cc (e)
  apply-Within d have memory b (localaddr (some addr) port) x e (s, w) =
      let (r, h, k) = set_localaddr-IsSane (memory 0) x addr port s in
      ((record x { link = r.0 }, r.1), rw (h) refl, (k, w))
  apply-Within d have memory b (starttls mode musthave) x e s =
      (_, refl, set_starttls-Within d have memory b x mode musthave s e)
  apply-Within d have memory b (sasl mech msg musthave) x e s =
      (_, refl, set_sasl-Within d have memory b x mech msg musthave s)
  apply-Within d have memory b (ssl on) x e s = (_, refl, set_tls-Within d have memory b x on s)
  apply-Within d have memory b (pass v) x e s = (_, refl, s)
  apply-Within d have memory b (uname v) x e s = (_, refl, s)
  apply-Within d have memory b (fname v) x e s = (_, refl, s)
  apply-Within d have memory b (nick v) x e s = (_, refl, s)
  apply-Within d have memory b (service_dist v) x e s = (_, refl, s)
  apply-Within d have memory b (service_info v) x e s = (_, refl, s)
  apply-Within d have memory b (conflags flags) x e s = (_, refl, s)
  apply-Within d have memory b (service_connect on) x e s = (_, refl, s)
  apply-Within d have memory b (service_type type) x e s = (_, refl, s)
  apply-Within d have memory b (track on) x e s = (_, refl, s)
  apply-Within d have memory b (connect_timeout soft hard) x e s = (_, refl, s)
  apply-Within d have memory b (dumb on) x e s = (_, refl, s)

  run-Within :
      (d : Dialer W) (have_ssl : Bool) (memory : ℕ → ℕ → Bool) (b : Bool) (cs : List Call)
      (x : Settings W)
      → orderly b cs ≡ true
      → Within b x
      → (y : Settings W) × (run d have_ssl memory cs x ≡ ok y) × IsSane y
  unfolding run orderly
  run-Within d have memory b [] x e s = (x, refl, s.0)
  run-Within d have memory b (c ∷ cs) x e s =
      let (r, h, k) = apply-Within d have (memory 0) b c x (ground arith) s in
      let (y, g, t) =
        run-Within d have (λ n. memory (suc n)) (first_after b c) cs r.0 (ground arith) k in
      (y, rw (h) g, t)

  -- Calls of the setters in any order, of which none clears the local address and none asks for
  -- another mode of STARTTLS once it was asked for at the start of a connection, all come to an end
  -- without a fault. They never leave TLS on along with STARTTLS, or with the flag that makes a
  -- connection begin with STARTTLS, nor TLS on without a TLS context, if they find it so.
  pub run-IsSane :
      (d : Dialer W) (have_ssl : Bool) (memory : ℕ → ℕ → Bool) (cs : List Call) (x : Settings W)
      → orderly x.starttls_first cs ≡ true
      → IsSane x
      → (y : Settings W) × (run d have_ssl memory cs x ≡ ok y) × IsSane y
  run-IsSane d have memory cs x e s = run-Within d have memory x.starttls_first cs x e (s, λ f. f)
