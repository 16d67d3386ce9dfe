-- ===== src/Track/Modes.antt =====
-- The handlers of MODE and of 324 of libsrsirc/irc_track.c.
use libsrsirc.Base.{
  ℕ, ◌+◌, Bool, true, false, ◌||◌, Option, none, some, List, [], ◌∷◌, Bytes, ◌==◌, if◌then◌else◌,
  get_or, drop, length, ltb, bit_or, is_some,
}
use libsrsirc.Base.Mem.{Mem, ok, fault}
use libsrsirc.Proto.{Tokarr, has_byte}
use libsrsirc.Text.{first_byte, tail_of}
use libsrsirc.Modes.{parse_mode}
use libsrsirc.Ucbase.{index_of, add_chanmode, drop_chanmode, clear_chanmodes}
use libsrsirc.Ucbase.Store.{St, ◌>>=◌, ◌>>◌, done, lift, read, malloc, chan, set_chan}
use libsrsirc.Ucbase.Users.{nick_of, touch_user}
use libsrsirc.Ucbase.Channels.{get_chan}
use libsrsirc.Ucbase.Members.{update_memb_modepfx}
use libsrsirc.Track.{Handler, needs, arg, alloc_err}

-- `lsi_ut_parse_MODE` with what its allocations give: two for the modes and the array, and one for
-- each entry, of which there are no more than the first argument behind the modes' place has bytes.
unfoldable pub parse : Tokarr → Bool → St (Option (List Bytes))
parse msg is324 x =
    let n = x.clock in
    let memory = λ (i : ℕ). is_some (x.grants (n + 2 + i)).block in
    (lift (
          parse_mode x.types (is_some (x.grants n).block) (is_some (x.grants (n + 1)).block) memory
            msg is324)
        >>= λ o. λ y. elim o [
          | none ↦ ok (none, record y { clock = n + 2 })
          | some p ↦ ok (some p.0, record y { clock = n + 2 + length p.0 })
        ])
      x

-- `lsi_ucb_add_chanmode` and `lsi_ucb_drop_chanmode` on the channel `c`.
unfoldable pub add_mode : ℕ → Bytes → St ℕ
add_mode c modestr = do
  room ← malloc
  copy ← malloc
  k ← chan c
  set_chan c (record k { modes = (add_chanmode (is_some room) (is_some copy) k.modes modestr).0 })
  done (if (add_chanmode (is_some room) (is_some copy) k.modes modestr).1 then 0 else alloc_err)

unfoldable pub drop_mode : ℕ → Bytes → St ℕ
drop_mode c modestr = do
  t ← read (λ x. x.types)
  k ← chan c
  set_chan c (record k { modes = (drop_chanmode t k.modes modestr).0 })
  done 0

-- A channel mode: set or dropped as its sign says.
unfoldable pub change_mode : ℕ → Bytes → St ℕ
unfolding add_mode drop_mode
change_mode c e = if first_byte e == b'+' then add_mode c (tail_of e) else drop_mode c (tail_of e)

-- `p[i] + 3`, which lies behind the end of an entry with no argument.
abbrev behind_mode : Bytes → Mem Bytes
behind_mode e = if ltb (length e) 3 then fault else ok (drop 3 e)

-- An entry of a MODE: a mode of the members, or one of the channel.
unfoldable pub change : ℕ → Bytes → St ℕ
unfolding change_mode
change c e = do
  t ← read (λ x. x.types)
  elim (index_of t.pfx_modes (first_byte (tail_of e))) [
    | none ↦ change_mode c e
    | some i ↦ do
      nick ← lift (behind_mode e)
      update_memb_modepfx c nick (get_or t.pfx_syms i 0) (first_byte e == b'+')
      done 0
  ]

-- The loop over the entries, with `res`.
unfoldable pub changes : (Bytes → St ℕ) → ℕ → List Bytes → St ℕ
changes body res [] = done res
changes body res (e ∷ es) = body e >>= λ r. changes body (bit_or res r) es

unfoldable pub handle_mode_chanmode : Handler
unfolding parse change changes
handle_mode_chanmode msg nargs logon = needs 4 msg nargs λ pfx. do
  if has_byte (nick_of pfx) b'.' then done none else touch_user pfx
  name ← arg msg 2
  o ← get_chan name
  elim o [
    | none ↦ done 0
    | some c ↦ parse msg false >>= λ p. elim p [
      | none ↦ done alloc_err
      | some es ↦ changes (change c) 0 es
    ]
  ]

-- `strchr` finds the NUL of an empty target among the types of channels.
unfoldable pub handle_mode : Handler
unfolding handle_mode_chanmode
handle_mode msg nargs logon = needs 4 msg nargs λ pfx. do
  target ← arg msg 2
  types ← read (λ x. x.m005chantypes)
  if first_byte target == 0 || has_byte types (first_byte target)
      then handle_mode_chanmode msg nargs logon
      else done 0

unfoldable pub handle_324 : Handler
unfolding parse change_mode changes
handle_324 msg nargs logon = needs 5 msg nargs λ pfx. do
  name ← arg msg 3
  o ← get_chan name
  elim o [
    | none ↦ done 0
    | some c ↦ parse msg true >>= λ p. elim p [
      | none ↦ done alloc_err
      | some es ↦ do
        k ← chan c
        set_chan c (record k { modes = clear_chanmodes k.modes })
        changes (change_mode c) 0 es
    ]
  ]
