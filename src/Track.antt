-- ===== src/Track.antt =====
-- The tracking handlers of libsrsirc/irc_track.c: messages of the server as steps on the store of
-- users and channels. `signed` says whether `char` is signed. A read behind the end of an argument is
-- a fault; log messages are left out. Track.Modes has those of modes, Track.Names that of 353,
-- Track.Whois those of 311 and 352, and Track.Topic those of topics.
pub mod Names
pub mod Whois
pub mod Topic
pub mod Modes
pub mod Register
pub mod Reports
pub mod Quit
pub mod Enter
pub mod Join
use libsrsirc.Base.{
  ℕ, zero, suc, ◌+◌, ◌-◌, ◌*◌, ◌%◌, ◌^◌, Bool, true, false, not, ◌&&◌, ◌||◌, Option, none, some,
  List, [], ◌∷◌, Bytes, ◌==◌, if◌then◌else◌, ltb, leb, get_or, is_some,
}
use libsrsirc.Base.Mem.{Mem, ok, fault}
use libsrsirc.Proto.{Tokarr, has_byte}
use libsrsirc.Logon.{same_nick}
use libsrsirc.Msg.Res.{proto_err}
use libsrsirc.V3.Handlers.{arg_at}
use libsrsirc.Ucbase.Store.{
  User, St, ◌>>=◌, ◌>>◌, done, lift, read, strdup, user, set_user, chan, set_chan,
}
use libsrsirc.Ucbase.Users.{get_user, nick_of, touch_user, add_user}
use libsrsirc.Ucbase.Channels.{get_chan}
use libsrsirc.Ucbase.Members.{add_memb, drop_memb, drop_user, drop_chan}
use libsrsirc.Ucbase.Rename.{add_chan, rename_user}

abbrev pub alloc_err : ℕ
alloc_err = 33

abbrev pub Handler : Type 0
Handler = Tokarr → ℕ → Bool → St ℕ

-- `if (!(*msg)[0] || nargs < n) return PROTO_ERR;`, and the rest with the prefix.
abbrev pub needs : ℕ → Tokarr → ℕ → (Bytes → St ℕ) → St ℕ
needs n msg nargs body = elim (get_or msg 0 none) [
  | none ↦ done proto_err
  | some pfx ↦ if ltb nargs n then done proto_err else body pfx
]

abbrev pub arg : Tokarr → ℕ → St Bytes
arg msg i = lift (arg_at msg i)

-- A user that is looked up and, where it is not there, added; with whether it was added.
unfoldable pub find_or_add : Bytes → St (Option (ℕ × Bool))
find_or_add ident = get_user ident >>= λ o. elim o [
  | some u ↦ done (some (u, false))
  | none ↦ add_user ident >>= λ n. elim n [ none ↦ done none | some u ↦ done (some (u, true)) ]
]

-- A user joins the channel `c`; one that was added for it is dropped where there is no memory.
unfoldable pub enter_chan : ℕ → Bytes → Bytes → St ℕ
unfolding find_or_add
enter_chan c ident mpfx = find_or_add ident >>= λ o. elim o [
  | none ↦ done alloc_err
  | some p ↦ add_memb c p.0 mpfx >>= λ added.
      if added then done 0 else if p.1 then (drop_user p.0 >> done alloc_err) else done alloc_err
]

module _ (signed : Bool) where
  -- `lsi_ut_istrcmp(nick, ctx->mynick, ctx->casemap) == 0`
  abbrev pub is_me : Bytes → St Bool
  is_me nick = read (λ x. same_nick signed nick x.mynick x.casemap)

  unfoldable pub handle_join : Handler
  unfolding enter_chan
  handle_join msg nargs logon = needs 3 msg nargs λ pfx. do
    me ← is_me (nick_of pfx)
    name ← arg msg 2
    o ← get_chan name
    elim o [
      | none ↦
          if me then (add_chan name >>= λ n. done (if is_some n then 0 else alloc_err)) else done 0
      | some c ↦ if me then done 0 else enter_chan c pfx []
    ]

  -- The end of PART and KICK: the nick `nick`, whose user is looked up by `ident`, leaves.
  part_chan : ℕ → Bytes → Bytes → St ℕ
  part_chan c nick ident = is_me nick >>= λ me.
      if me
      then (drop_chan c >> done 0)
      else (get_user ident >>= λ o. elim o [
        | none ↦ done 0
        | some u ↦ drop_memb c u true >> done 0
      ])

  unfoldable pub handle_part : Handler
  unfolding part_chan
  handle_part msg nargs logon = needs 3 msg nargs λ pfx. do
    touch_user pfx
    name ← arg msg 2
    o ← get_chan name
    elim o [ none ↦ done 0 | some c ↦ part_chan c (nick_of pfx) pfx ]

  unfoldable pub handle_kick : Handler
  unfolding part_chan
  handle_kick msg nargs logon = needs 4 msg nargs λ pfx. do
    touch_user pfx
    name ← arg msg 2
    o ← get_chan name
    elim o [ none ↦ done 0 | some c ↦ arg msg 3 >>= λ nick. part_chan c nick nick ]

  unfoldable pub handle_quit : Handler
  handle_quit msg nargs logon = needs 0 msg nargs λ pfx. do
    touch_user pfx
    o ← get_user pfx
    elim o [ none ↦ done 0 | some u ↦ drop_user u >> done 0 ]

  unfoldable pub handle_nick : Handler
  handle_nick msg nargs logon = needs 3 msg nargs λ pfx. do
    touch_user pfx
    newnick ← arg msg 2
    r ← rename_user signed pfx newnick
    done (if not r.0 && r.1 then alloc_err else 0)

unfoldable pub handle_366 : Handler
handle_366 msg nargs logon = needs 4 msg nargs λ pfx. do
  λ x. ok (tt, record x { endofnames = true })
  name ← arg msg 3
  o ← get_chan name
  elim o [
    | none ↦ done 0
    | some c ↦ chan c >>= λ k. set_chan c (record k { desync = false }) >> done 0
  ]

-- PRIVMSG and NOTICE, whose handlers are the same; a prefix with a dot is a server.
unfoldable pub handle_privmsg : Handler
handle_privmsg msg nargs logon = needs 4 msg nargs λ pfx.
    if not logon && not (has_byte (nick_of pfx) b'.') then (touch_user pfx >> done 0) else done 0

unfoldable pub handle_notice : Handler
handle_notice msg nargs logon = needs 4 msg nargs λ pfx.
    if not logon && not (has_byte (nick_of pfx) b'.') then (touch_user pfx >> done 0) else done 0
