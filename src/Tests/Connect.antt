-- ===== src/Tests/Connect.antt =====
-- A run of a connection whose server sends a 383. The slot of the table is free, with no module name.
use libsrsirc.Base.{◌≡◌, refl, true, false, ◌&&◌, none, some, List, [], ◌∷◌, Bytes, codes, is_some}
use libsrsirc.Base.Mem.{Mem}
use libsrsirc.Proto.{Tokarr}
use libsrsirc.Msg.{
  MsgHnd, HndTables, same, count_args, reghnd, register, fill_free, grown, unregall, handle,
  handle_cmd, pre_part, sys_part, after_sys, dispatch_sys,
}
use libsrsirc.Conn.{conn_write, conn_write_raw, io_write, send_wrap, needs_crlf}
use libsrsirc.V3.Caps.{want_caps}
use libsrsirc.Logon.{Irc, handle_383}
use libsrsirc.Logon.Register.{
  imh_regall, v3_regall, register_all, busy_handlers, core_handlers, v3_handlers, lift, lifted,
}
use libsrsirc.Logon.Register.Sound.{ends_logon, ends_sasl}
use libsrsirc.Logon.Connect.{
  Turn, irc_connect, cleared, reset_state, registered, connected, begin, begun, send_logon,
  last_part, add_part, cap_part, pass_part, nick_part, irc_write, irc_reset, logon_loop, step,
  handled, take_flags, late_logon, waits, has_flag, fail,
}
use libsrsirc.Logon.Connect.Complete.{received, irc_connect-received}
use libsrsirc.Tests.Logon.{host, irc, account}

abbrev slot : MsgHnd (Mem (Irc Bytes))
slot = record { cmd = []; hndfn = λ w msg nargs logon. (w, 0); module_name = [] }

abbrev tables : HndTables (Mem (Irc Bytes))
tables = record { uprehnds = []; msghnds = slot ∷ []; uposthnds = [] }

-- `383 me`
abbrev service_msg : Tokarr
service_msg = none ∷ some (codes "383") ∷ some (codes "me") ∷ none ∷ []

abbrev turns : List (Turn Bytes)
turns =
    record { late = false; read = some none; leaves = λ c. c; allowed = true }
    ∷ record { late = false; read = some (some service_msg); leaves = λ c. c; allowed = true }
    ∷ []

irc_connect-received_example :
    (received ends_logon turns ≡ true)
    × ((is_some irc.v3.sasl_mech && is_some irc.v3.sasl_msg) ≡ true
        → received ends_sasl turns ≡ true)
unfolding irc_connect cleared reset_state registered connected begin begun send_logon last_part
    add_part cap_part pass_part nick_part irc_write irc_reset logon_loop step handled take_flags
    late_logon waits has_flag fail imh_regall v3_regall register_all busy_handlers core_handlers
    v3_handlers lift lifted reghnd register fill_free grown unregall handle handle_cmd pre_part
    sys_part after_sys dispatch_sys same count_args handle_383 conn_write conn_write_raw io_write
    send_wrap needs_crlf want_caps
irc_connect-received_example =
    irc_connect-received host account true slot tables (some irc.v3.con) turns irc _
      ((λ taken. cc taken), tt) refl refl refl
