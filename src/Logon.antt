-- ===== src/Logon.antt =====
-- The message handlers of libsrsirc/irc_msghnd.c, which keep the context (`struct irc_s`) up to date
-- while logging on and after it; the handler of 005 is in Logon.Isupport. What the host's
-- allocations give, and the host's functions, are in `Host`. A message argument that is read
-- through NULL is a `fault`; log messages are left out.
pub mod UserModes
pub mod Isupport
pub mod Results
pub mod Register
pub mod Connect
use libsrsirc.Base.{
  ℕ, zero, suc, ◌-◌, Bool, true, false, not, ◌&&◌, ◌||◌, Option, none, some, List, [], ◌∷◌, ◌++◌,
  Bytes, codes, ◌==◌, if◌then◌else◌, ltb, take, get_or, set, replicate,
}
use libsrsirc.Base.Mem.{Mem, ok, fault, ◌>>=◌}
use libsrsirc.Cmap.{Casemap}
use libsrsirc.Casecmp.{ℤ, pos, negsuc, istrcmp}
use libsrsirc.Text.{cstr}
use libsrsirc.Text.Ident.{ident2nick}
use libsrsirc.Proto.{Tokarr, has_byte, crlf}
use libsrsirc.Skmap.{Skmap, Allocs}
use libsrsirc.Modes.{ModeTypes}
use libsrsirc.Ucbase.{remove_byte}
use libsrsirc.Conn.{Sockets, conn_write}
use libsrsirc.Msg.Res.{proto_err, io_err, cap_err, logon_complete, out_of_nicks, auth_err}
use libsrsirc.V3.Caps.{check_caps}
use libsrsirc.V3.StartTls.{Tls}
use libsrsirc.V3.Handlers.{V3State, arg_at}

-- The fields of `struct irc_s` that the handlers use; those of the capabilities, the connection
-- and `dumb` are in `v3`. `con_host` is the host of the connection, and `cb_mut_nick` may be NULL.
pub record Irc (W : Type 0) : Type 0 where
  pub mynick : Bytes
  pub myhost : Bytes
  pub service : Bool
  pub cmodes : Bytes
  pub umodes : Bytes
  pub myumodes : Bytes
  pub ver : Bytes
  pub lasterr : Option Bytes
  pub restricted : Bool
  pub banned : Bool
  pub banmsg : Option Bytes
  pub casemap : Casemap
  pub logonconv : List (Option Tokarr)
  pub types : ModeTypes
  pub m005chantypes : Bytes
  pub m005attrs : Skmap Bytes
  pub tracking : Bool
  pub tracking_enab : Bool
  pub con_host : Bytes
  pub cb_mut_nick : Option (Bytes → Bytes)
  pub v3 : V3State W

-- What the host gives: its sockets, whether `char` is signed, and what allocations do: `clone` of a
-- message, `dup` of a string, and those of the `n`-th attribute of a 005. `trk` says
-- whether `lsi_trk_init` succeeds.
pub record Host (W : Type 0) : Type 0 where
  pub sockets : Sockets W
  pub tls : Tls W
  pub signed : Bool
  pub clone : Bool
  pub dup : Bool
  pub attr_dup : ℕ → Bool
  pub attr_put : ℕ → Allocs
  pub trk : Bool

-- `STRACPY` to an array of `size` bytes: what fits before the NUL.
abbrev pub stracpy : ℕ → Bytes → Bytes
stracpy size src = take (size - 1) src

abbrev copied : {A : Type 0} → Bool → A → Option A
copied true t = some t
copied false t = none

unfoldable pub is_zero : ℤ → Bool
is_zero (pos zero) = true
is_zero (pos (suc n)) = false
is_zero (negsuc n) = false

-- `lsi_ut_istrcmp(a, b, m) == 0`
unfoldable pub same_nick : Bool → Bytes → Bytes → Casemap → Bool
unfolding is_zero
same_nick signed a b m = is_zero (istrcmp signed a b m)

-- The loop over the modes of `handle_MODE`; `umodes` is `myumodes`, which has 64 bytes.
pub umode_loop : Bytes → Bool → Bytes → Bytes
umode_loop [] enab umodes = umodes
umode_loop (c ∷ p) enab umodes = elim (c == b'+' || c == b'-') [
  | true ↦ umode_loop p (c == b'+') umodes
  | false ↦ elim (has_byte umodes c) [
    | true ↦ if enab then umode_loop p enab umodes else umode_loop p enab (remove_byte umodes c)
    | false ↦
        if enab then umode_loop p enab (take 63 (umodes ++ c ∷ [])) else umode_loop p enab umodes
  ]
]

-- `s` begins with `t`.
starts_with : Bytes → Bytes → Bool
starts_with s [] = true
starts_with [] (c ∷ t) = false
starts_with (x ∷ s) (c ∷ t) = x == c && starts_with s t

-- `strstr(s, t)` is not NULL.
contains : Bytes → Bytes → Bool
unfolding starts_with
contains [] t = starts_with [] t
contains (c ∷ s) t = starts_with (c ∷ s) t || contains s t

abbrev or_else : Option Bytes → Bytes → Bytes
or_else none d = d
or_else (some t) d = t

module _ {W : Type 0} (h : Host W) where
  -- Only the dumb mode handles logon messages outside of the logon.
  abbrev misplaced : Irc W → Bool → Bool
  misplaced x logon = not x.v3.dumb && not logon

  abbrev keep_conv : Irc W → ℕ → Tokarr → Irc W
  keep_conv x i msg = record x { logonconv = set x.logonconv i (copied h.clone msg) }

  -- A line is written; what could not be written is an error.
  pub reply : Irc W → Bytes → Irc W × ℕ
  reply x line =
      let r = conn_write h.sockets x.v3.con line in
      (record x { v3 = record x.v3 { con = r.0 } }, if r.1 then 0 else io_err)

  pub handle_001 : Irc W → Tokarr → ℕ → Bool → Mem (Irc W × ℕ)
  handle_001 x msg nargs logon =
      if ltb nargs 3 || misplaced x logon
      then ok (x, proto_err)
      else (arg_at msg 2 >>= λ nick. ok (
        record (keep_conv x 0 msg) { mynick = stracpy 64 nick },
        if check_caps x.v3.caps false then 0 else cap_err,
      ))

  pub handle_002 : Irc W → Tokarr → ℕ → Bool → Mem (Irc W × ℕ)
  handle_002 x msg nargs logon =
      if misplaced x logon then ok (x, proto_err) else ok (keep_conv x 1 msg, 0)

  pub handle_003 : Irc W → Tokarr → ℕ → Bool → Mem (Irc W × ℕ)
  handle_003 x msg nargs logon =
      if misplaced x logon then ok (x, proto_err) else ok (keep_conv x 2 msg, 0)

  pub handle_004 : Irc W → Tokarr → ℕ → Bool → Mem (Irc W × ℕ)
  unfolding contains starts_with
  handle_004 x msg nargs logon =
      if ltb nargs 7 || misplaced x logon
      then (arg_at msg 0 >>= λ pfx.
          ok (x, if contains pfx (codes "twitch.tv") then logon_complete else proto_err))
      else (arg_at msg 3 >>= λ host. arg_at msg 4 >>= λ ver. arg_at msg 5 >>= λ umodes.
          arg_at msg 6 >>= λ cmodes. ok (
            record (keep_conv x 3 msg) {
              myhost = stracpy 128 host;
              umodes = stracpy 64 umodes;
              cmodes = stracpy 64 cmodes;
              ver = stracpy 128 ver;
            },
            logon_complete,
          ))

  pub handle_ping : Irc W → Tokarr → ℕ → Bool → Mem (Irc W × ℕ)
  unfolding reply
  handle_ping x msg nargs false = ok (x, 0)
  handle_ping x msg nargs true =
      if ltb nargs 3
      then ok (x, proto_err)
      else (arg_at msg 2 >>= λ t. ok (reply x (take 255 (codes "PONG :" ++ t ++ crlf))))

  -- The nick that the host's function makes of the one that is taken.
  try_nick : Irc W → Bytes → Irc W × ℕ
  unfolding reply
  try_nick x [] = (record x { mynick = [] }, out_of_nicks)
  try_nick x (c ∷ nick) =
      reply (record x { mynick = c ∷ nick }) (take 71 (codes "NICK " ++ (c ∷ nick) ++ crlf))

  pub handle_bad_nick : Irc W → Tokarr → ℕ → Bool → Mem (Irc W × ℕ)
  unfolding try_nick
  handle_bad_nick x msg nargs false = ok (x, 0)
  handle_bad_nick x msg nargs true = elim x.cb_mut_nick [
    | none ↦ ok (x, out_of_nicks)
    | some mut ↦ ok (try_nick x (mut x.mynick))
  ]

  pub handle_464 : Irc W → Tokarr → ℕ → Bool → Mem (Irc W × ℕ)
  handle_464 x msg nargs logon = ok (x, if logon then auth_err else proto_err)

  unfoldable pub handle_383 : Irc W → Tokarr → ℕ → Bool → Mem (Irc W × ℕ)
  handle_383 x msg nargs logon =
      if ltb nargs 3 || misplaced x logon
      then ok (x, proto_err)
      else (arg_at msg 2 >>= λ nick. ok (
        record x {
          mynick = stracpy 64 nick;
          myhost = stracpy 128 (or_else (get_or msg 0 none) x.con_host);
          umodes = codes "iswo";
          cmodes = codes "opsitnml";
          ver = [];
          service = true;
        },
        logon_complete,
      ))

  pub handle_484 : Irc W → Tokarr → ℕ → Bool → Mem (Irc W × ℕ)
  handle_484 x msg nargs logon = ok (record x { restricted = true }, 0)

  pub handle_465 : Irc W → Tokarr → ℕ → Bool → Mem (Irc W × ℕ)
  handle_465 x msg nargs logon =
      ok (record x { banned = true; banmsg = copied h.dup (or_else (get_or msg 3 none) []) }, 0)

  pub handle_466 : Irc W → Tokarr → ℕ → Bool → Mem (Irc W × ℕ)
  handle_466 x msg nargs logon = ok (x, 0)

  pub handle_error : Irc W → Tokarr → ℕ → Bool → Mem (Irc W × ℕ)
  handle_error x msg nargs logon =
      ok (record x { lasterr = copied h.dup (or_else (get_or msg 2 none) []) }, 0)

  -- The nick of the message's prefix, in an array of 128 bytes.
  abbrev prefix_nick : Bytes → Bytes
  prefix_nick pfx = cstr (ident2nick (replicate 128 0) 128 pfx)

  pub handle_nick : Irc W → Tokarr → ℕ → Bool → Mem (Irc W × ℕ)
  unfolding same_nick
  handle_nick x msg nargs logon = elim (get_or msg 0 none) [
    | none ↦ ok (x, proto_err)
    | some pfx ↦
        if ltb nargs 3
        then ok (x, proto_err)
        else (arg_at msg 2 >>= λ nick. ok (
          if same_nick h.signed (prefix_nick pfx) x.mynick x.casemap
              then record x { mynick = stracpy 64 nick }
              else x,
          0,
        ))
  ]

  pub handle_mode : Irc W → Tokarr → ℕ → Bool → Mem (Irc W × ℕ)
  unfolding same_nick umode_loop
  handle_mode x msg nargs logon =
      if ltb nargs 4
      then ok (x, proto_err)
      else (arg_at msg 2 >>= λ target. arg_at msg 3 >>= λ modes. ok (
        if same_nick h.signed target x.mynick x.casemap
            then record x { myumodes = umode_loop modes true x.myumodes }
            else x,
        0,
      ))
