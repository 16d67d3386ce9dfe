-- ===== src/Ucbase/Members.antt =====
-- The operations of libsrsirc/ucbase.c on the members of a channel.
pub mod Rounds
pub mod Drop
pub mod Add
use libsrsirc.Base.{
  ℕ, Bool, true, false, ◌&&◌, Option, none, some, Bytes, ◌==◌, if◌then◌else◌, get_or,
}
use libsrsirc.Base.Mem.{Mem, ok, fault}
use libsrsirc.Logon.{stracpy}
use libsrsirc.Skmap
use libsrsirc.Skmap.{Allocs}
use libsrsirc.Ucbase
use libsrsirc.Ucbase.Store.{
  Member, St, ◌>>=◌, ◌>>◌, done, lift, read, grant, malloc, user, set_user, free_user, chan,
  set_chan, free_chan, del_user, del_chan, up, down,
}
use libsrsirc.Ucbase.Channels.{get_memb, first_memb, next_memb, each, each_chan}

-- `none` is NULL.
unfoldable pub alloc_memb : ℕ → Bytes → St (Option Member)
alloc_memb u mpfxstr = malloc >>= λ b. elim b [
  | none ↦ done none
  | some a ↦ done (some (record { user = u; modepfx = stracpy 8 mpfxstr }))
]

-- `lsi_skmap_put` and `lsi_skmap_del` on the members of the channel `c`.
unfoldable pub put_memb : ℕ → Bytes → Member → St Bool
put_memb c key m = do
  g ← grant
  k ← chan c
  set_chan c (record k { memb = (Skmap.put g.put k.memb (some key) (some m)).0 })
  done (Skmap.put g.put k.memb (some key) (some m)).1

unfoldable pub del_memb : ℕ → Bytes → St (Option Member)
del_memb c key = do
  k ← chan c
  set_chan c (record k { memb = (Skmap.del k.memb key).0 })
  done (Skmap.del k.memb key).1

unfoldable pub add_memb : ℕ → ℕ → Bytes → St Bool
unfolding alloc_memb put_memb
add_memb c u mpfxstr = alloc_memb u mpfxstr >>= λ o. elim o [
  | none ↦ done false
  | some m ↦ do
    v ← user u
    stored ← put_memb c v.nick m
    if stored
        then (user u >>= λ w. set_user u (record w { nchans = up w.nchans }) >> done true)
        else done false
]

-- `if (--m->u->nchans == 0 && purge)` and what is done then, with the user of a member.
unfoldable pub leave : ℕ → Bool → St (Unit {0})
leave u purge = do
  v ← user u
  set_user u (record v { nchans = down v.nchans })
  if down v.nchans == 0 && purge then (del_user v.nick >> free_user u) else done tt

-- The result says whether there was a member.
unfoldable pub drop_memb : ℕ → ℕ → Bool → St Bool
unfolding del_memb leave
drop_memb c u purge = do
  v ← user u
  o ← del_memb c v.nick
  elim o [ none ↦ done false | some m ↦ leave m.user purge >> done true ]

release : Member → St Bool
unfolding leave
release m = leave m.user true >> done true

-- `if (lsi_skmap_first(...)) { do ... while (lsi_skmap_next(...)); lsi_skmap_clear(...); }`
unfoldable pub clear_memb : ℕ → St (Unit {0})
unfolding release first_memb next_memb each
clear_memb c = do
  k ← chan c
  o ← first_memb c
  elim o [
    | none ↦ done tt
    | some m ↦ do
      all ← each k.memb.count (next_memb c) release m
      k' ← chan c
      set_chan c (record k' { memb = Skmap.clear k'.memb })
  ]

unfoldable pub drop_chan : ℕ → St Bool
unfolding clear_memb
drop_chan c = do
  k ← chan c
  gone ← del_chan k.name
  elim gone [ none ↦ done false | some e ↦ clear_memb c >> free_chan c >> done true ]

-- The loop's body of `lsi_ucb_drop_user`.
pub drop_from : ℕ → ℕ → St Bool
unfolding drop_memb
drop_from u c = drop_memb c u false >> done true

unfoldable pub drop_user : ℕ → St Bool
unfolding drop_from each_chan
drop_user u = do
  v ← user u
  gone ← del_user v.nick
  elim gone [ none ↦ done false | some e ↦ each_chan (drop_from u) >> free_user u >> done true ]

-- The write through the pointer `m`, which stays in the map.
still : Allocs
still = record { list = false; left = none; dup = false; node = none }

write_memb : ℕ → Bytes → Member → St (Unit {0})
unfolding still
write_memb c nick m =
    chan c >>= λ k. set_chan c (record k { memb = (Skmap.put still k.memb (some nick) (some m)).0 })

-- `lsi_ucb_update_modepfx` with the server's symbols.
unfoldable pub update_memb_modepfx : ℕ → Bytes → ℕ → Bool → St Bool
unfolding get_memb write_memb
update_memb_modepfx c nick mpfxsym enab = get_memb c nick >>= λ o. elim o [
  | none ↦ done false
  | some m ↦ do
    syms ← read (λ x. x.types.pfx_syms)
    r ← lift (Ucbase.update_modepfx syms m.modepfx mpfxsym enab)
    write_memb c nick (record m { modepfx = r.0 })
    done r.1
]
