-- ===== src/Ucbase/Channels.antt =====
-- The channels and their members of libsrsirc/ucbase.c, and the loops over the maps. A loop has as
-- many rounds as the map has entries.
pub mod Loops
use libsrsirc.Base.{
  ℕ, zero, suc, ◌-◌, Bool, true, false, not, ◌&&◌, Option, none, some, Bytes, ◌==◌, if◌then◌else◌,
  is_some, replicate, length,
}
use libsrsirc.Base.Mem.{Mem, ok, fault}
use libsrsirc.Casecmp.{istrcmp}
use libsrsirc.Logon.{stracpy, same_nick}
use libsrsirc.Skmap
use libsrsirc.Skmap.{Skmap, Allocs}
use libsrsirc.Ucbase
use libsrsirc.Ucbase.Store.{
  User, Member, Chan, Grant, Ctx, St, ◌>>=◌, ◌>>◌, done, lift, read, grant, malloc, strdup, user,
  set_user, free_user, chan, set_chan, free_chan, put_user, put_chan, del_user, del_chan, up, down,
}
use libsrsirc.Ucbase.Users.{get_user, nick_of}

unfoldable pub get_chan : Bytes → St (Option ℕ)
get_chan name = read (λ x. Skmap.get x.chans name)

unfoldable pub num_chans : St ℕ
num_chans = read (λ x. x.chans.count)

unfoldable pub get_memb : ℕ → Bytes → St (Option Member)
get_memb c nick = chan c >>= λ k. done (Skmap.get k.memb nick)

unfoldable pub num_memb : ℕ → St ℕ
num_memb c = chan c >>= λ k. done k.memb.count

abbrev value : Option (Bytes × ℕ) → Option ℕ
value none = none
value (some e) = some e.1

abbrev member : Option (Bytes × Member) → Option Member
member none = none
member (some e) = some e.1

unfoldable pub first_chan : St (Option ℕ)
first_chan x = (lift (Skmap.first x.chans) >>= λ r y. ok (value r.1, record y { chans = r.0 })) x

unfoldable pub next_chan : St (Option ℕ)
next_chan x = (lift (Skmap.next x.chans) >>= λ r y. ok (value r.1, record y { chans = r.0 })) x

unfoldable pub first_user : St (Option ℕ)
first_user x = (lift (Skmap.first x.users) >>= λ r y. ok (value r.1, record y { users = r.0 })) x

unfoldable pub next_user : St (Option ℕ)
next_user x = (lift (Skmap.next x.users) >>= λ r y. ok (value r.1, record y { users = r.0 })) x

unfoldable pub first_memb : ℕ → St (Option Member)
first_memb c = do
  k ← chan c
  r ← lift (Skmap.first k.memb)
  set_chan c (record k { memb = r.0 })
  done (member r.1)

unfoldable pub next_memb : ℕ → St (Option Member)
next_memb c = do
  k ← chan c
  r ← lift (Skmap.next k.memb)
  set_chan c (record k { memb = r.0 })
  done (member r.1)

-- `do body(e); while (next(&e));`, which the body ends by `false`. Where the rounds are too few, the
-- loop is a fault.
unfoldable pub each : {E : Type 0} → ℕ → St (Option E) → (E → St Bool) → E → St Bool
each zero step body e = λ x. fault
each (suc n) step body e = body e >>= λ more. elim more [
  | false ↦ done false
  | true ↦ step >>= λ o. elim o [ none ↦ done true | some e' ↦ each n step body e' ]
]

-- `if (first(&e)) do body(e); while (next(&e));`
unfoldable pub walk : {E : Type 0} → ℕ → St (Option E) → St (Option E) → (E → St Bool) → St Bool
unfolding each
walk n start step body = start >>= λ o. elim o [ none ↦ done true | some e ↦ each n step body e ]

unfoldable pub each_chan : (ℕ → St Bool) → St Bool
unfolding walk
each_chan body = read (λ x. x.chans.count) >>= λ n. walk n first_chan next_chan body
