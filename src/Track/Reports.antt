-- ===== src/Track/Reports.antt =====
-- What the user is told of channels, users and members: the functions at the end of
-- libsrsirc/irc_track.c. A result in an array of the caller is the list of what is written.
use libsrsirc.Base.{ℕ, zero, suc, Bool, true, false, Option, none, some, List, [], ◌∷◌, Bytes}
use libsrsirc.Ucbase.Store.{User, Member, Chan, St, ◌>>=◌, ◌>>◌, done, user, chan}
use libsrsirc.Ucbase.Users.{get_user, tag_user}
use libsrsirc.Ucbase.Channels.{
  get_chan, get_memb, num_memb, first_chan, next_chan, first_user, next_user, first_memb, next_memb,
}
use libsrsirc.Ucbase.Rename.{tag_chan}

-- `chanrep` and `userrep`
pub record ChanRep : Type 0 where
  pub name : Bytes
  pub topic : Option Bytes
  pub topicnick : Option Bytes
  pub tscreate : ℕ
  pub tstopic : ℕ
  pub tag : Option ℕ

pub record UserRep : Type 0 where
  pub modepfx : Option Bytes
  pub nick : Bytes
  pub uname : Option Bytes
  pub host : Option Bytes
  pub fname : Option Bytes
  pub tag : Option ℕ
  pub nchans : ℕ

unfoldable pub mkchanrep : Chan → ChanRep
mkchanrep c = record {
  name = c.name;
  topic = c.topic;
  topicnick = c.topicnick;
  tscreate = c.tscreate;
  tstopic = c.tstopic;
  tag = c.tag;
}

unfoldable pub mkuserrep : User → Option Bytes → UserRep
mkuserrep u modepfx = record {
  modepfx = modepfx;
  nick = u.nick;
  uname = u.uname;
  host = u.host;
  fname = u.fname;
  tag = u.tag;
  nchans = u.nchans;
}

-- The loop of the three functions below, with room for `n` behind the element for `e`.
unfoldable pub fill : {E R : Type 0} → St (Option E) → (E → St R) → ℕ → E → St (List R)
fill step report zero e = report e >>= λ r. done (r ∷ [])
fill step report (suc n) e = do
  r ← report e
  o ← step
  elim o [ none ↦ done (r ∷ []) | some e' ↦ fill step report n e' >>= λ rs. done (r ∷ rs) ]

-- The array has `n` elements.
unfoldable pub fill_array :
    {E R : Type 0} → St (Option E) → St (Option E) → (E → St R) → ℕ → St (List R)
unfolding fill
fill_array start step report zero = done []
fill_array start step report (suc n) =
    start >>= λ o. elim o [ none ↦ done [] | some e ↦ fill step report n e ]

chan_report : ℕ → St ChanRep
unfolding mkchanrep
chan_report c = chan c >>= λ k. done (mkchanrep k)

user_report : ℕ → St UserRep
unfolding mkuserrep
user_report u = user u >>= λ v. done (mkuserrep v none)

member_report : Member → St UserRep
unfolding mkuserrep
member_report m = user m.user >>= λ v. done (mkuserrep v (some m.modepfx))

unfoldable pub all_chans : ℕ → St (List ChanRep)
unfolding fill_array chan_report
all_chans n = fill_array first_chan next_chan chan_report n

unfoldable pub all_users : ℕ → St (List UserRep)
unfolding fill_array user_report
all_users n = fill_array first_user next_user user_report n

unfoldable pub all_members : Bytes → ℕ → St (List UserRep)
unfolding fill_array member_report
all_members chname zero = done []
all_members chname (suc n) = get_chan chname >>= λ o. elim o [
  | none ↦ done []
  | some c ↦ fill_array (first_memb c) (next_memb c) member_report (suc n)
]

unfoldable pub chan_named : Bytes → St (Option ChanRep)
unfolding chan_report
chan_named name = get_chan name >>= λ o. elim o [
  | none ↦ done none
  | some c ↦ chan_report c >>= λ r. done (some r)
]

unfoldable pub user_named : Bytes → St (Option UserRep)
unfolding user_report
user_named ident = get_user ident >>= λ o. elim o [
  | none ↦ done none
  | some u ↦ user_report u >>= λ r. done (some r)
]

unfoldable pub num_members : Bytes → St ℕ
num_members chname = get_chan chname >>= λ o. elim o [ none ↦ done 0 | some c ↦ num_memb c ]

-- `irc_member`, which leaves the tag and the number of channels of `dest` as they are.
unfoldable pub member_named : UserRep → Bytes → Bytes → St (Option UserRep)
member_named dest chname ident = get_chan chname >>= λ o. elim o [
  | none ↦ done none
  | some c ↦ get_memb c ident >>= λ p. elim p [
    | none ↦ done none
    | some m ↦ user m.user >>= λ u. done (
        some (record dest {
          modepfx = some m.modepfx;
          nick = u.nick;
          uname = u.uname;
          host = u.host;
          fname = u.fname;
        }))
  ]
]

unfoldable pub tag_chan_named : Bytes → Option ℕ → Bool → St Bool
tag_chan_named chname tag autofree = get_chan chname >>= λ o. elim o [
  | none ↦ done false
  | some c ↦ tag_chan c tag autofree >> done true
]

unfoldable pub tag_user_named : Bytes → Option ℕ → Bool → St Bool
tag_user_named ident tag autofree = get_user ident >>= λ o. elim o [
  | none ↦ done false
  | some u ↦ tag_user u tag autofree >> done true
]
