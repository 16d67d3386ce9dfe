-- ===== src/Ucbase/Rename.antt =====
-- `lsi_ucb_rename_user`, `lsi_ucb_add_chan`, `lsi_ucb_clear` and `lsi_ucb_init` of
-- libsrsirc/ucbase.c.
pub mod Rounds
pub mod Moved
pub mod Outcomes
use libsrsirc.Base.{
  ℕ, ◌+◌, Bool, true, false, Option, none, some, Bytes, if◌then◌else◌, is_some, replicate, length,
}
use libsrsirc.Base.Mem.{ok}
use libsrsirc.Cmap.{Casemap}
use libsrsirc.Logon.{stracpy, same_nick}
use libsrsirc.Skmap
use libsrsirc.Skmap.{Skmap}
use libsrsirc.Ucbase.Store.{
  Member, Chan, St, ◌>>=◌, ◌>>◌, done, read, grant, malloc, strdup, user, set_user, free_user, chan,
  set_chan, free_chan, put_user, put_chan, del_user,
}
use libsrsirc.Ucbase.Users.{get_user, nick_of}
use libsrsirc.Ucbase.Channels.{
  get_memb, first_chan, next_chan, first_user, next_user, each, each_chan,
}
use libsrsirc.Ucbase.Members.{put_memb, del_memb, clear_memb}

-- The two maps, with what the allocations of each give.
pub init : Casemap → ℕ → Bool → Bool → ℕ → Bool → Bool → Option (Skmap ℕ × Skmap ℕ)
init m left map1 buckets1 left2 map2 buckets2 = elim (Skmap.init {V = ℕ} 256 m left map1 buckets1) [
  | none ↦ none
  | some chans ↦ elim (Skmap.init {V = ℕ} 4096 m left2 map2 buckets2) [
    | none ↦ none
    | some users ↦ some (chans, users)
  ]
]

-- `lsi_skmap_init(256, ctx->casemap)`
new_members : St (Option (Skmap Member))
new_members = do
  m ← read (λ x. x.casemap)
  g ← grant
  b ← malloc
  done (Skmap.init 256 m g.left (is_some g.block) (is_some b))

-- A channel as `lsi_ucb_add_chan` makes it.
abbrev pub new_chan : Bytes → Skmap Member → Chan
new_chan name memb = record {
  name = stracpy 256 name;
  topic = none;
  topicnick = none;
  tscreate = 0;
  tstopic = 0;
  memb = memb;
  desync = false;
  modes = replicate 16 none;
  tag = none;
  freetag = false;
}

add_chan_at : ℕ → Bytes → Skmap Member → St (Option ℕ)
add_chan_at a name memb = malloc >>= λ b. elim b [
  | none ↦ done none
  | some modes ↦ do
    set_chan a (new_chan name memb)
    stored ← put_chan name a
    if stored then done (some a) else (free_chan a >> done none)
]

-- `none` is NULL.
unfoldable pub add_chan : Bytes → St (Option ℕ)
unfolding new_members add_chan_at
add_chan name = malloc >>= λ b. elim b [
  | none ↦ done none
  | some a ↦ new_members >>= λ o. elim o [ none ↦ done none | some memb ↦ add_chan_at a name memb ]
]

-- The loop's body of the rename: a member moves to its new key, or the loop ends.
unfoldable pub rename_memb : Bytes → Bytes → ℕ → St Bool
unfolding get_memb put_memb del_memb
rename_memb ident newnick c = get_memb c ident >>= λ o. elim o [
  | none ↦ done true
  | some m ↦ do
    stored ← put_memb c newnick m
    if stored then (del_memb c ident >> done true) else done false
]

-- The result and `*allocerr`.
rename_to : ℕ → Bytes → Bytes → St (Bool × Bool)
unfolding rename_memb each_chan
rename_to u ident newnick = strdup newnick >>= λ o. elim o [
  | none ↦ done (false, false)
  | some nn ↦ do
    v ← user u
    set_user u (record v { nick = nn })
    stored ← put_user newnick u
    if stored
        then (do
          del_user ident
          all ← each_chan (rename_memb ident newnick)
          done (all, if all then false else true))
        else done (false, true)
]

-- `signed` says whether `char` is signed.
unfoldable pub rename_user : Bool → Bytes → Bytes → St (Bool × Bool)
unfolding get_user rename_to
rename_user signed ident newnick = get_user ident >>= λ o. elim o [
  | none ↦ done (false, false)
  | some u ↦ do
    m ← read (λ x. x.casemap)
    v ← user u
    if same_nick signed (nick_of ident) newnick m
        then (set_user u (record v { nick = stracpy (length v.nick + 1) newnick })
            >> done (true, false))
        else rename_to u ident newnick
]

dispose_chan : ℕ → St Bool
unfolding clear_memb
dispose_chan c = clear_memb c >> free_chan c >> done true

clear_users : St (Unit {0})
unfolding first_user next_user each
clear_users = do
  n ← read (λ x. x.users.count)
  o ← first_user
  elim o [
    | none ↦ done tt
    | some u ↦ do
      all ← each n next_user (λ a. free_user a >> done true) u
      λ x. ok (tt, record x { users = Skmap.clear x.users })
  ]

-- The maps are there. Without a channel the function returns before the users.
unfoldable pub clear : St (Unit {0})
unfolding first_chan next_chan each dispose_chan clear_users
clear = do
  n ← read (λ x. x.chans.count)
  o ← first_chan
  elim o [
    | none ↦ done tt
    | some c ↦ do
      all ← each n next_chan dispose_chan c
      λ x. ok (tt, record x { chans = Skmap.clear x.chans })
      clear_users
  ]

unfoldable pub tag_chan : ℕ → Option ℕ → Bool → St (Unit {0})
tag_chan c tag autofree = chan c >>= λ k. set_chan c (record k { tag = tag; freetag = autofree })
