-- ===== src/Logon/Connect.antt =====
-- The logon of libsrsirc/irc.c: `send_logon`, `irc_write`, and the loop of `irc_connect`, which reads
-- messages until the server has taken the client on. What the clock, `lsi_conn_read` and the
-- user's callback give in one round of the loop is a `Turn`; a list of turns stands for the
-- time that the loop runs, and the loop still waits where it ends.
pub mod Send
pub mod Rounds
pub mod Complete
use libsrsirc.Base.{
  ℕ, zero, suc, ◌+◌, ◌-◌, ◌%◌, bit_and, Bool, true, false, not, ◌&&◌, ◌||◌, Option, none, some,
  List, [], ◌∷◌, ◌++◌, Bytes, codes, ◌==◌, if◌then◌else◌, ltb, length, take, is_some,
}
use libsrsirc.Base.Mem.{Mem, ok, fault, ◌>>=◌}
use libsrsirc.Proto.{Tokarr}
use libsrsirc.Msg.{HndTables, MsgHnd, unregall, handle}
use libsrsirc.Msg.Res.{logon_complete, sasl_complete, starttls_over}
use libsrsirc.Conn.{Conn, conn_write, reset}
use libsrsirc.V3.Caps.{want_caps}
use libsrsirc.Logon.{Irc, Host, stracpy}
use libsrsirc.Logon.Register.{imh_regall, v3_regall}
use libsrsirc.Skmap
use libsrsirc.Cmap.{rfc1459}
use libsrsirc.Modes.{ModeTypes}

-- What `irc_set_*` configured, which the handlers do not use. `conflags` and `serv_type` are given as
-- their decimal digits.
pub record Account : Type 0 where
  pub pass : Option Bytes
  pub nick : Bytes
  pub uname : Bytes
  pub fname : Bytes
  pub conflags : Bytes
  pub serv_dist : Bytes
  pub serv_type : Bytes
  pub serv_info : Bytes

-- One round: the time is up; the read failed, timed out or gave a message; what it left of the
-- connection; and whether `cb_con_read`, if it is set, agrees to the message.
pub record Turn (W : Type 0) : Type 0 where
  pub late : Bool
  pub read : Option (Option Tokarr)
  pub leaves : Conn W → Conn W
  pub allowed : Bool

-- The variables of `irc_connect` and the context.
pub record LogonState (W : Type 0) : Type 0 where
  pub irc : Irc W
  pub logon_sent : Bool
  pub logged_on : Bool
  pub sasl_authed : Bool

-- A round ends the loop with the result of `irc_connect`, or not.
pub data Progress (W : Type 0) : Type 0 where
  going : LogonState W → Progress W
  finished : Irc W → Bool → Progress W

unfoldable pub has_flag : ℕ → ℕ → Bool
has_flag flags f = not (bit_and flags f == 0)

-- `snprintf` into the `rem` bytes that are left of the buffer, and what is left then.
unfoldable pub add_part : Bytes × ℕ → Bytes → Bytes × ℕ
add_part (buf, rem) part = (buf ++ take (rem - 1) part, rem - length part)

unfoldable pub cap_part : {W : Type 0} → Irc W → Bytes
cap_part x = if want_caps x.v3.caps then codes "CAP LS 302\r\n" else []

unfoldable pub pass_part : Account → Bytes
pass_part a = elim a.pass [
  | none ↦ []
  | some p ↦ if length p == 0 then [] else codes "PASS :" ++ p ++ codes "\r\n"
]

unfoldable pub nick_part : {W : Type 0} → Account → Irc W → Bytes
nick_part a x =
    if x.service
    then codes "SERVICE "
      ++ a.nick
      ++ codes " 0 "
      ++ a.serv_dist
      ++ codes " "
      ++ a.serv_type
      ++ codes " 0 :"
      ++ a.serv_info
      ++ codes "\r\n"
    else codes "NICK "
      ++ a.nick
      ++ codes "\r\nUSER "
      ++ a.uname
      ++ codes " "
      ++ a.conflags
      ++ codes " * :"
      ++ a.fname
      ++ codes "\r\n"

-- `!logged_on || (using_sasl && !sasl_authed)`
unfoldable pub waits : {W : Type 0} → Bool → LogonState W → Bool
waits using_sasl st = not st.logged_on || (using_sasl && not st.sasl_authed)

module _ {W : Type 0} (h : Host W) where
  abbrev pub with_con : Irc W → Conn W → Irc W
  with_con x c = record x { v3 = record x.v3 { con = c } }

  unfoldable pub irc_reset : Irc W → Irc W
  irc_reset x = with_con x (reset h.sockets x.v3.con)

  unfoldable pub irc_write : Irc W → Bytes → Irc W × Bool
  unfolding irc_reset
  irc_write x line =
      let r = conn_write h.sockets x.v3.con line in
      if r.1 then (with_con x r.0, true) else (irc_reset (with_con x r.0), false)

  -- The last part, if the buffer has room for more than nothing before it.
  unfoldable pub last_part : Irc W → Bytes × ℕ → Bytes → Irc W × Bool
  unfolding irc_write
  last_part x (buf, rem) part =
      if rem == 0
      then (x, false)
      else if ltb rem (length part)
      then (x, false)
      else irc_write x (add_part (buf, rem) part).0

  unfoldable pub send_logon : Account → Irc W → Irc W × Bool
  unfolding last_part add_part cap_part pass_part nick_part
  send_logon a x =
      let first = add_part ([], 512) (cap_part x) in
      if not x.v3.con.online
      then (x, false)
      else if first.1 == 0
      then (x, false)
      else last_part x (add_part first (pass_part a)) (nick_part a x)

  -- The label `fail`.
  unfoldable pub fail : Irc W → Mem (Progress W)
  unfolding irc_reset
  fail x = ok (finished (irc_reset x) false)

  -- The end of a round: after an early STARTTLS the logon is still to be sent.
  unfoldable pub late_logon : Account → ℕ → LogonState W → Mem (Progress W)
  unfolding send_logon fail
  late_logon a flags st =
      if has_flag flags starttls_over && not st.logon_sent
      then (let r = send_logon a st.irc in
          if r.1 then ok (going (record st { irc = r.0; logon_sent = true })) else fail r.0)
      else ok (going st)

  -- What the flags of the handlers say.
  unfoldable pub take_flags : Account → LogonState W → Irc W → ℕ → Mem (Progress W)
  unfolding late_logon fail
  take_flags a st x flags =
      if flags % 2 == 1
      then fail x
      else late_logon a flags (record st {
        irc = x;
        logged_on = st.logged_on || has_flag flags logon_complete;
        sasl_authed = st.sasl_authed || has_flag flags sasl_complete;
      })

  unfoldable pub handled : Account → LogonState W → Mem (Mem (Irc W) × ℕ) → Mem (Progress W)
  unfolding take_flags
  handled a st m = m >>= λ r. r.0 >>= λ x. take_flags a st x r.1

  unfoldable pub step : Account → HndTables (Mem (Irc W)) → Turn W → LogonState W → Mem (Progress W)
  unfolding handled fail
  step a tables t st =
      let x = with_con st.irc (t.leaves st.irc.v3.con) in
      if t.late then fail st.irc else elim t.read [
        | none ↦ fail x
        | some none ↦ ok (going (record st { irc = x }))
        | some (some msg) ↦
            if t.allowed then handled a st (handle tables (ok x) msg true) else fail x
      ]

  -- `none` is a loop that still waits.
  unfoldable pub logon_loop :
      Account
      → HndTables (Mem (Irc W))
      → Bool
      → List (Turn W)
      → LogonState W
      → Mem (Option (Irc W × Bool))
  unfolding step waits
  logon_loop a tables using_sasl [] st = ok none
  logon_loop a tables using_sasl (t ∷ ts) st = step a tables t st >>= λ p. elim p [
    | finished x r ↦ ok (some (x, r))
    | going st' ↦
        if waits using_sasl st'
        then logon_loop a tables using_sasl ts st'
        else ok (some (st'.irc, true))
  ]

-- `reset_state`, but for the tags of the last message.
unfoldable pub reset_state : {W : Type 0} → Irc W → Irc W
reset_state x = record x {
  mynick = [];
  myhost = [];
  myumodes = [];
  ver = [];
  restricted = false;
  banned = false;
  service = false;
  casemap = rfc1459;
  lasterr = none;
  banmsg = none;
  umodes = codes "iswo";
  cmodes = codes "opsitnml";
  m005chantypes = codes "#&";
  types = record {
    chanmodes = codes "b" ∷ codes "k" ∷ codes "l" ∷ codes "psitnm" ∷ [];
    pfx_modes = codes "ov";
    pfx_syms = codes "@+";
  };
  v3 = record x.v3 { capreq = [] };
}

module _ {W : Type 0} (h : Host W) where
  -- What the context is reset to before a connection.
  unfoldable pub cleared : Irc W → Irc W
  unfolding reset_state
  cleared x =
      let y = reset_state x in
      record y {
        logonconv = none ∷ none ∷ none ∷ none ∷ [];
        m005attrs = Skmap.clear y.m005attrs;
        tracking_enab = false;
      }

  -- The logon is sent at once, unless TLS is to be started first.
  unfoldable pub begin : Account → Irc W → (Irc W × Bool) × Bool
  begin a x =
      if x.v3.starttls_first
      then (let r = conn_write h.sockets x.v3.con (codes "STARTTLS\r\n") in
          ((with_con h x r.0, r.1), false))
      else (send_logon h a x, true)

  unfoldable pub begun :
      Account
      → HndTables (Mem (Irc W))
      → List (Turn W)
      → (Irc W × Bool) × Bool
      → Mem (Option (Irc W × Bool))
  begun a tables turns ((x, false), sent) = ok (some (irc_reset h x, false))
  begun a tables turns ((x, true), sent) =
      logon_loop h a tables (is_some x.v3.sasl_mech && is_some x.v3.sasl_msg) turns (record {
        irc = record x { mynick = stracpy 64 a.nick };
        logon_sent = sent;
        logged_on = false;
        sasl_authed = false;
      })

  unfoldable pub connected :
      Account
      → HndTables (Mem (Irc W))
      → List (Turn W)
      → Irc W
      → Option (Conn W)
      → Mem (Option (Irc W × Bool))
  unfolding begun begin
  connected a tables turns x none = ok (some (x, false))
  connected a tables turns x (some con) =
      if x.v3.dumb
      then ok (some (with_con h x con, true))
      else begun a tables turns (begin a (with_con h x con))

  -- The handlers of the table are registered anew. `memory` says whether a table can grow, and `junk`
  -- is what a grown table holds.
  unfoldable pub registered :
      Bool
      → MsgHnd (Mem (Irc W))
      → List (MsgHnd (Mem (Irc W)))
      → Bool
      → List (MsgHnd (Mem (Irc W))) × Bool
  registered memory junk table dumb =
      let core = imh_regall h memory junk (unregall table (codes "core")) dumb in
      if core.1 then v3_regall h memory junk (unregall core.0 (codes "v3")) dumb else core

  unfoldable pub irc_connect :
      Account
      → Bool
      → MsgHnd (Mem (Irc W))
      → HndTables (Mem (Irc W))
      → Option (Conn W)
      → List (Turn W)
      → Irc W
      → Mem (Option (Irc W × Bool))
  unfolding registered cleared connected
  irc_connect a memory junk tables opened turns x =
      let r = registered memory junk (unregall tables.msghnds (codes "track")) x.v3.dumb in
      if r.1
      then connected a (record tables { msghnds = r.0 }) turns (cleared x) opened
      else ok (some (record x { tracking_enab = false }, false))
