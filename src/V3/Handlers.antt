-- ===== src/V3/Handlers.antt =====
-- The message handlers of libsrsirc/v3.c: capability negotiation, SASL and the STARTTLS error.
-- `handle_cap_ack` cuts the spaces behind the argument in the message itself; here the message
-- stays as it was.
pub mod Offers
pub mod Results
use libsrsirc.Base.{
  ℕ, ◌%◌, Bool, true, false, not, ◌&&◌, ◌||◌, Option, none, some, [], ◌∷◌, ◌++◌, Bytes, codes, ◌==◌,
  if◌then◌else◌, ltb, take, get_or, bit_and, is_some,
}
use libsrsirc.Base.Mem.{Mem, ok, fault, ◌>>=◌}
use libsrsirc.Proto.{Tokarr, space, crlf}
use libsrsirc.Msg.{same}
use libsrsirc.Msg.Res.{
  proto_err, io_err, sasl_err, cap_err, sasl_complete, more_caps, starttls_over,
}
use libsrsirc.Conn.{Sockets, Conn, conn_write_raw, conn_write}
use libsrsirc.V3.Caps.{Caps, find_cap, check_caps, mk_capreq, update_caps}

-- The fields of `struct irc_s` that the handlers use.
pub record V3State (W : Type 0) : Type 0 where
  pub caps : Caps
  pub capreq : Bytes
  pub dumb : Bool
  pub sasl_mech : Option Bytes
  pub sasl_msg : Option Bytes
  pub starttls_first : Bool
  pub con : Conn W

-- The string without the spaces at its end.
pub trim_end : Bytes → Bytes
trim_end [] = []
trim_end (c ∷ s) = elim (trim_end s) [
  | [] ↦ if c == space then [] else c ∷ []
  | x ∷ r ↦ c ∷ (x ∷ r)
]

-- `(*msg)[i]`, read through: `fault` where it is NULL.
abbrev pub arg_at : Tokarr → ℕ → Mem Bytes
arg_at msg i = elim (get_or msg i none) [ none ↦ fault | some t ↦ ok t ]

abbrev starred : Bytes → Bool
starred [] = false
starred (c ∷ s) = c == b'*'

-- The table after `update_caps`; without a result it stays as it was.
unfoldable pub updated_caps : Caps → Bytes → Bool → Caps
updated_caps caps line offered = elim (update_caps caps line offered) [ none ↦ caps | some cs ↦ cs ]

abbrev has_enabled : Caps → Bytes → Bool
has_enabled caps name = elim (find_cap caps name) [ none ↦ false | some c ↦ c.enabled ]

module _ {W : Type 0} (s : Sockets W) where
  -- A write of a line in a handler.
  unfoldable pub send_line : V3State W → Bytes → V3State W × Bool
  send_line v line = (record v { con = (conn_write s v.con line).0 }, (conn_write s v.con line).1)

  -- A result that depends on a write.
  abbrev pub or_io_err : V3State W × Bool → ℕ → V3State W × ℕ
  or_io_err (v, true) r = (v, r)
  or_io_err (v, false) r = (v, io_err)

  -- `AUTHENTICATE` with the mechanism if SASL is enabled, else `CAP END`.
  pub conclude_sasl_cap : V3State W → Mem (V3State W × Bool)
  unfolding send_line
  conclude_sasl_cap v =
      if has_enabled v.caps (codes "sasl")
      then elim v.sasl_mech [
        | none ↦ fault
        | some mech ↦ ok (send_line v (take 511 (codes "AUTHENTICATE " ++ mech ++ crlf)))
      ]
      else ok (send_line v (codes "CAP END\r\n"))

  unfoldable pub handle_cap_ls : V3State W → Tokarr → ℕ → Bool → Mem (V3State W × ℕ)
  unfolding updated_caps
  handle_cap_ls v msg nargs false = ok (v, 0)
  handle_cap_ls v msg nargs true =
      if ltb nargs 5
      then ok (v, proto_err)
      else (arg_at msg 4 >>= λ star. arg_at msg (if starred star then 5 else 4) >>= λ line. ok (
        record v { caps = updated_caps v.caps line true },
        if starred star then more_caps else 0,
      ))

  handle_cap_ack : V3State W → Tokarr → ℕ → Mem (V3State W × ℕ)
  unfolding updated_caps trim_end
  handle_cap_ack v msg nargs =
      if ltb nargs 5
      then ok (v, proto_err)
      else (arg_at msg 4 >>= λ line. ok (
          if same (trim_end line) v.capreq
          then (record v { caps = updated_caps v.caps (trim_end line) false }, 0)
          else (v, cap_err)))

  handle_cap_nak : V3State W → ℕ → V3State W × ℕ
  handle_cap_nak v nargs = if ltb nargs 5 then (v, proto_err) else (v, cap_err)

  -- The request for the capabilities on offer, in 128 bytes, or the end of the negotiation.
  unfoldable pub request_caps : V3State W → Bytes × Bool → V3State W × ℕ
  unfolding send_line
  request_caps v (names, true) =
      or_io_err (send_line (record v { capreq = names }) (codes "CAP REQ :" ++ names)) 0
  request_caps v (names, false) =
      or_io_err (send_line (record v { capreq = [] }) (codes "CAP END\r\n")) 0

  unfoldable pub behind_ls : V3State W × ℕ → V3State W × ℕ
  unfolding request_caps
  behind_ls (v, r) =
      if r % 2 == 1
      then (v, r)
      else if not (bit_and r more_caps == 0)
      then (v, 0)
      else if check_caps v.caps true
      then request_caps v (mk_capreq v.caps 119)
      else (v, cap_err)

  -- STARTTLS goes before SASL, and `CAP END` waits for both.
  behind_ack : V3State W × ℕ → Mem (V3State W × ℕ)
  unfolding send_line conclude_sasl_cap
  behind_ack (v, r) =
      if r % 2 == 1
      then ok (v, r)
      else if has_enabled v.caps (codes "tls")
      then ok (or_io_err (send_line v (codes "STARTTLS\r\n")) 0)
      else (conclude_sasl_cap v >>= λ c. ok (or_io_err c 0))

  behind_nak : V3State W × ℕ → V3State W × ℕ
  behind_nak (v, r) = if r % 2 == 1 then (v, r) else (v, 0)

  unfoldable pub handle_cap : V3State W → Tokarr → ℕ → Bool → Mem (V3State W × ℕ)
  unfolding handle_cap_ls handle_cap_ack handle_cap_nak behind_ls behind_ack behind_nak
  handle_cap v msg nargs logon =
      if ltb nargs 4
      then ok (v, proto_err)
      else (arg_at msg 3 >>= λ subcmd.
          if same subcmd (codes "LS")
          then (handle_cap_ls v msg nargs logon >>= λ r. ok (behind_ls r))
          else if same subcmd (codes "ACK")
          then (handle_cap_ack v msg nargs >>= λ r. behind_ack r)
          else if same subcmd (codes "NAK")
          then ok (behind_nak (handle_cap_nak v nargs))
          else ok (v, 0))

  abbrev has_sasl : V3State W → Bool
  has_sasl v = is_some v.sasl_mech && is_some v.sasl_msg

  -- The three writes, each only if the ones before it succeeded.
  send_sasl : Conn W → Bytes → Conn W × Bool
  send_sasl c text =
      let r1 = conn_write_raw s c (codes "AUTHENTICATE ") in
      let r2 = conn_write_raw s r1.0 text in
      let r3 = conn_write s r2.0 (codes "\r\n") in
      if not r1.1 then r1 else if not r2.1 then r2 else r3

  pub handle_authenticate : V3State W → Tokarr → ℕ → V3State W × ℕ
  unfolding send_sasl
  handle_authenticate v msg nargs =
      if ltb nargs 3
      then (v, proto_err)
      else if v.dumb || not (has_sasl v)
      then (v, 0)
      else elim v.sasl_msg [
        | none ↦ (v, 0)
        | some text ↦
            or_io_err (record v { con = (send_sasl v.con text).0 }, (send_sasl v.con text).1) 0
      ]

  pub handle_903 : V3State W → Bool → V3State W × ℕ
  unfolding send_line
  handle_903 v logon =
      if not (has_sasl v)
      then (v, 0)
      else if logon
      then or_io_err (send_line v (codes "CAP END\r\n")) sasl_complete
      else (v, sasl_complete)

  pub handle_saslerr : V3State W → ℕ → V3State W × ℕ
  handle_saslerr v nargs =
      if ltb nargs 2 then (v, proto_err) else if not (has_sasl v) then (v, 0) else (v, sasl_err)

  abbrev needs_tls : Caps → Bool
  needs_tls caps = elim (find_cap caps (codes "tls")) [ none ↦ false | some c ↦ c.musthave ]

  pub handle_691 : V3State W → ℕ → Mem (V3State W × ℕ)
  unfolding conclude_sasl_cap
  handle_691 v nargs =
      if ltb nargs 4
      then ok (v, proto_err)
      else if needs_tls v.caps
      then ok (v, io_err)
      else if v.starttls_first
      then ok (v, starttls_over)
      else (conclude_sasl_cap v >>= λ c. ok (or_io_err c 0))
