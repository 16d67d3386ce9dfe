-- ===== src/Settings.antt =====
-- The setters of libsrsirc/irc_getset.c and `irc_tracking_enab`, on the fields of `struct irc_s` that
-- they write. The getters give these fields as they are. `char`s are bytes, `int` and `long` are ℤ.
pub mod Tls
use libsrsirc.Base.{
  ℕ, zero, suc, Bool, true, false, not, ◌&&◌, ◌||◌, Option, none, some, List, [], ◌∷◌, Bytes, codes,
  if◌then◌else◌,
}
use libsrsirc.Base.Mem.{Mem, ok, fault, ◌>>=◌}
use libsrsirc.Casecmp.{ℤ, pos, negsuc}
use libsrsirc.Conn.Setup.{Dialer, Link, set_px, set_localaddr, set_server, set_ssl}
use libsrsirc.V3.Caps.{Caps, want_cap, clear_cap}

pub record Settings (W : Type 0) : Type 0 where
  pub link : Link W
  pub pass : Option Bytes
  pub nick : Option Bytes
  pub uname : Option Bytes
  pub fname : Option Bytes
  pub sasl_mech : Option Bytes
  pub sasl_msg : Option Bytes
  pub serv_dist : Option Bytes
  pub serv_info : Option Bytes
  pub serv_con : Bool
  pub serv_type : ℤ
  pub conflags : ℕ
  pub hcto_us : ℕ
  pub scto_us : ℕ
  pub tracking : Bool
  pub tracking_enab : Bool
  pub dumb : Bool
  pub starttls : Bool
  pub starttls_first : Bool
  pub v3caps : Caps

-- The new string, and whether there was memory for it; NULL needs none.
unfoldable pub update_strprop : Bool → Option Bytes → Option Bytes → Option Bytes × Bool
update_strprop dup field none = (none, true)
update_strprop true field (some val) = (some val, true)
update_strprop false field (some val) = (field, false)

-- The modes of STARTTLS: 0, 1 and any other number.
unfoldable pub is_on : ℤ → Bool
is_on (pos zero) = false
is_on (pos (suc n)) = true
is_on (negsuc n) = true

unfoldable pub is_one : ℤ → Bool
is_one (pos zero) = false
is_one (pos (suc zero)) = true
is_one (pos (suc (suc n))) = false
is_one (negsuc n) = false

-- A call of a setter with its arguments.
pub data Call : Type 0 where
  server : Option Bytes → ℕ → Call
  pass : Option Bytes → Call
  uname : Option Bytes → Call
  fname : Option Bytes → Call
  nick : Option Bytes → Call
  service_dist : Option Bytes → Call
  service_info : Option Bytes → Call
  starttls : ℤ → Bool → Call
  sasl : Option Bytes → Bytes → Bool → Call
  localaddr : Option Bytes → ℕ → Call
  px : Option Bytes → ℕ → ℤ → Call
  conflags : ℕ → Call
  service_connect : Bool → Call
  service_type : ℤ → Call
  track : Bool → Call
  connect_timeout : ℕ → ℕ → Call
  ssl : Bool → Call
  dumb : Bool → Call

module _ {W : Type 0} where
  unfoldable tracking_enab : Settings W → Bool
  tracking_enab x = x.tracking && x.tracking_enab

  -- `on_link` puts the connection back.
  abbrev pub on_link : Settings W → Link W × Bool → Settings W × Bool
  on_link x r = (record x { link = r.0 }, r.1)

-- `have_ssl` is `lsi_b_have_ssl`, and `memory` says of each allocation of a call whether it succeeds.
module _ {W : Type 0} (d : Dialer W) (have_ssl : Bool) (memory : ℕ → Bool) where
  -- The wish for STARTTLS once the earlier one is cleared.
  unfoldable pub want_starttls : Settings W → ℤ → Bool → Settings W × Bool
  unfolding is_on is_one
  want_starttls x mode musthave = elim (is_on mode) [
    | false ↦ (x, true)
    | true ↦ elim (is_one mode) [
      | false ↦ (record x { starttls_first = true; starttls = true }, true)
      | true ↦
          let r = want_cap (memory 0) x.v3caps (codes "tls") musthave in
          elim r.1 [
            | false ↦ (record x { v3caps = r.0 }, false)
            | true ↦ (record x { v3caps = r.0; starttls = true }, true)
          ]
    ]
  ]

  unfoldable pub set_starttls : Settings W → ℤ → Bool → Settings W × Bool
  unfolding is_on want_starttls
  set_starttls x mode musthave = elim (not have_ssl || (x.link.con.ssl && is_on mode)) [
    | true ↦ (x, false)
    | false ↦
        want_starttls (record x { v3caps = clear_cap x.v3caps (codes "tls"); starttls = false })
          mode musthave
  ]

  -- The result of the last call, of `lsi_v3_want_cap`, is not looked at.
  unfoldable pub set_sasl : Settings W → Option Bytes → Bytes → Bool → Settings W × Bool
  unfolding update_strprop
  set_sasl x mech msg musthave =
      let m = update_strprop (memory 0) x.sasl_mech mech in
      elim m.1 [
        | false ↦ (x, false)
        | true ↦
            let caps = clear_cap x.v3caps (codes "sasl") in
            elim (memory 1) [
              | false ↦ (record x { sasl_mech = none; sasl_msg = none; v3caps = caps }, false)
              | true ↦ (
                record x {
                  sasl_mech = m.0;
                  sasl_msg = some msg;
                  v3caps = (want_cap (memory 2) caps (codes "sasl") musthave).0;
                },
                true,
              )
            ]
      ]

  unfoldable pub set_tls : Settings W → Bool → Settings W × Bool
  unfolding set_ssl
  set_tls x on = elim (not have_ssl || (x.starttls && on)) [
    | true ↦ (x, false)
    | false ↦ on_link x (set_ssl d x.link on)
  ]

  -- A setter without a result succeeds.
  unfoldable pub apply : Call → Settings W → Mem (Settings W × Bool)
  unfolding update_strprop set_starttls set_sasl set_tls set_px set_localaddr set_server
  apply (server host port) x = ok (on_link x (set_server (memory 0) x.link host port))
  apply (pass s) x = let r = update_strprop (memory 0) x.pass s in ok (record x { pass = r.0 }, r.1)
  apply (uname s) x =
      let r = update_strprop (memory 0) x.uname s in ok (record x { uname = r.0 }, r.1)
  apply (fname s) x =
      let r = update_strprop (memory 0) x.fname s in ok (record x { fname = r.0 }, r.1)
  apply (nick s) x = let r = update_strprop (memory 0) x.nick s in ok (record x { nick = r.0 }, r.1)
  apply (service_dist s) x =
      let r = update_strprop (memory 0) x.serv_dist s in ok (record x { serv_dist = r.0 }, r.1)
  apply (service_info s) x =
      let r = update_strprop (memory 0) x.serv_info s in ok (record x { serv_info = r.0 }, r.1)
  apply (starttls mode musthave) x = ok (set_starttls x mode musthave)
  apply (sasl mech msg musthave) x = ok (set_sasl x mech msg musthave)
  apply (localaddr addr port) x =
      set_localaddr (memory 0) x.link addr port >>= λ r. ok (on_link x r)
  apply (px host port ptype) x = ok (on_link x (set_px (memory 0) x.link host port ptype))
  apply (conflags flags) x = ok (record x { conflags = flags }, true)
  apply (service_connect enabled) x = ok (record x { serv_con = enabled }, true)
  apply (service_type type) x = ok (record x { serv_type = type }, true)
  apply (track on) x = ok (record x { tracking = on }, true)
  apply (connect_timeout soft hard) x = ok (record x { hcto_us = hard; scto_us = soft }, true)
  apply (ssl on) x = ok (set_tls x on)
  apply (dumb on) x = ok (record x { dumb = on }, true)

-- The calls one after the other; the `n`-th finds the memory `memory n`.
unfoldable pub run :
    {W : Type 0} → Dialer W → Bool → (ℕ → ℕ → Bool) → List Call → Settings W → Mem (Settings W)
unfolding apply
run d have_ssl memory [] x = ok x
run d have_ssl memory (c ∷ cs) x =
    apply d have_ssl (memory 0) c x >>= λ r. run d have_ssl (λ n. memory (suc n)) cs r.0
