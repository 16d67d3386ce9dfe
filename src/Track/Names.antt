-- ===== src/Track/Names.antt =====
-- The handler of 353, the names of a channel, of libsrsirc/irc_track.c.
pub mod Lists
use libsrsirc.Base.{
  ℕ, zero, suc, false, Option, none, some, [], ◌∷◌, Bytes, ◌==◌, if◌then◌else◌, take, length,
}
use libsrsirc.Base.Mem.{ok, fault}
use libsrsirc.Proto.{has_byte, space}
use libsrsirc.Ucbase.Store.{St, ◌>>=◌, ◌>>◌, done, read}
use libsrsirc.Ucbase.Channels.{get_chan}
use libsrsirc.Ucbase.Members.{clear_memb}
use libsrsirc.Track.{Handler, needs, arg, enter_chan}

-- What stands before the first space, and what stands behind it, where there is one.
unfoldable pub split_space : Bytes → Bytes × Option Bytes
split_space [] = ([], none)
split_space (c ∷ p) =
    let (word, rest) = split_space p in if c == space then ([], some p) else (c ∷ word, rest)

-- A round with the prefix symbol cut off, and the rest of the loop at what stands behind the space.
-- The nick is cut to 63 bytes.
entry_round : (Bytes → St ℕ) → ℕ → Bytes → Bytes → St ℕ
unfolding split_space
entry_round loop c mpfx p = enter_chan c (take 63 (split_space p).0) mpfx >>= λ res.
    if res == 0
    then (elim (split_space p).1 [ none ↦ done 0 | some rest ↦ loop rest ])
    else done res

-- The loop with the bytes left as rounds. At the end of the text the NUL is taken for a prefix symbol:
-- `strchr` finds it behind the symbols, and what stands behind it is read.
unfoldable pub names_loop : ℕ → Bytes → ℕ → Bytes → St ℕ
unfolding entry_round
names_loop zero syms c p = λ x. fault
names_loop (suc n) syms c [] = λ x. fault
names_loop (suc n) syms c (b ∷ p) =
    let rest = names_loop n syms c in
    if has_byte syms b then entry_round rest c (b ∷ []) p else entry_round rest c [] (b ∷ p)

-- `lsi_ucb_clear_memb` at the first 353 of a list.
start_names : ℕ → St (Unit {0})
start_names c = read (λ x. x.endofnames) >>= λ over.
    if over then (clear_memb c >> (λ x. ok (tt, record x { endofnames = false }))) else done tt

unfoldable pub handle_353 : Handler
unfolding names_loop start_names
handle_353 msg nargs logon = needs 6 msg nargs λ pfx. do
  name ← arg msg 4
  o ← get_chan name
  elim o [
    | none ↦ done 0
    | some c ↦ do
      start_names c
      syms ← read (λ x. x.types.pfx_syms)
      p ← arg msg 5
      names_loop (suc (length p)) syms c p
  ]
