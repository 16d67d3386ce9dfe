-- ===== src/Ucbase/Store.antt =====
-- The store of users and channels of libsrsirc/ucbase.h, and the steps on it. Users and channels are
-- pointers: an address leads to a record, or to nothing once it is freed, and a read through such an
-- address is a `fault`. A member stands in one map only, as a value. What the allocations give is the
-- sequence `grants`, of which each step takes the next.
use libsrsirc.Base.{
  ℕ, ◌+◌, ◌-◌, ◌%◌, ◌^◌, Bool, Option, none, some, List, Bytes, ◌==◌, if◌then◌else◌, is_some,
}
use libsrsirc.Base.Mem.{Mem, ok, fault}
use libsrsirc.Cmap.{Casemap}
use libsrsirc.Modes.{ModeTypes}
use libsrsirc.Skmap
use libsrsirc.Skmap.{Skmap, Allocs}

-- `struct user`, without the flag for dumps. A tag is an address, or NULL.
pub record User : Type 0 where
  pub nick : Bytes
  pub uname : Option Bytes
  pub host : Option Bytes
  pub fname : Option Bytes
  pub nchans : ℕ
  pub tag : Option ℕ
  pub freetag : Bool

-- `struct member`; `user` is the address of the user.
pub record Member : Type 0 where
  pub user : ℕ
  pub modepfx : Bytes

-- `struct chan`; `modes_sz` is the length of `modes`.
pub record Chan : Type 0 where
  pub name : Bytes
  pub topic : Option Bytes
  pub topicnick : Option Bytes
  pub tscreate : ℕ
  pub tstopic : ℕ
  pub memb : Skmap Member
  pub desync : Bool
  pub modes : List (Option Bytes)
  pub tag : Option ℕ
  pub freetag : Bool

-- What an allocation gives: the address of a block, the garbage in it, and for a put what the
-- allocations of the map give.
pub record Grant : Type 0 where
  pub block : Option ℕ
  pub left : ℕ
  pub put : Allocs

-- The fields of `struct irc_s` that tracking uses, with the memory behind its pointers.
pub record Ctx : Type 0 where
  pub mynick : Bytes
  pub casemap : Casemap
  pub types : ModeTypes
  pub m005chantypes : Bytes
  pub endofnames : Bool
  pub chans : Skmap ℕ
  pub users : Skmap ℕ
  pub chan_at : ℕ → Option Chan
  pub user_at : ℕ → Option User
  pub grants : ℕ → Grant
  pub clock : ℕ

-- A step on the context with a result.
abbrev pub St : Type 0 → Type 0
St A = Ctx → Mem (A × Ctx)

infixl 5 ◌>>=◌ ◌>>◌
abbrev pub ◌>>=◌ : {A B : Type 0} → St A → (A → St B) → St B
◌>>=◌ m f x = elim (m x) [ fault ↦ fault | ok r ↦ f r.0 r.1 ]

abbrev pub ◌>>◌ : {A B : Type 0} → St A → St B → St B
◌>>◌ m k x = elim (m x) [ fault ↦ fault | ok r ↦ k r.1 ]

abbrev pub done : {A : Type 0} → A → St A
done a x = ok (a, x)

abbrev pub lift : {A : Type 0} → Mem A → St A
lift fault x = fault
lift (ok a) x = ok (a, x)

abbrev pub read : {A : Type 0} → (Ctx → A) → St A
read f x = ok (f x, x)

-- `none` is a pointer that leads nowhere.
abbrev pub deref : {A : Type 0} → Option A → St A
deref none x = fault
deref (some a) x = ok (a, x)

-- The memory after a write at the address `a`.
abbrev pub update : {A : Type 0} → (ℕ → Option A) → ℕ → Option A → ℕ → Option A
update f a v b = if b == a then v else f b

abbrev pub grant : St Grant
grant x = ok (x.grants x.clock, record x { clock = x.clock + 1 })

abbrev pub malloc : St (Option ℕ)
malloc x = ok ((x.grants x.clock).block, record x { clock = x.clock + 1 })

-- `STRDUP`
abbrev pub strdup : Bytes → St (Option Bytes)
strdup s x =
    ok (if is_some (x.grants x.clock).block then some s else none, record x { clock = x.clock + 1 })

abbrev pub user : ℕ → St User
user a x = deref (x.user_at a) x

abbrev pub set_user : ℕ → User → St (Unit {0})
set_user a u x = ok (tt, record x { user_at = update x.user_at a (some u) })

abbrev pub free_user : ℕ → St (Unit {0})
free_user a x = ok (tt, record x { user_at = update x.user_at a none })

abbrev pub chan : ℕ → St Chan
chan a x = deref (x.chan_at a) x

abbrev pub set_chan : ℕ → Chan → St (Unit {0})
set_chan a c x = ok (tt, record x { chan_at = update x.chan_at a (some c) })

abbrev pub free_chan : ℕ → St (Unit {0})
free_chan a x = ok (tt, record x { chan_at = update x.chan_at a none })

-- `lsi_skmap_put` and `lsi_skmap_del` on the map of the users and on that of the channels.
abbrev pub put_user : Bytes → ℕ → St Bool
put_user key a x =
    let r = Skmap.put (x.grants x.clock).put x.users (some key) (some a) in
    ok (r.1, record x { users = r.0; clock = x.clock + 1 })

abbrev pub put_chan : Bytes → ℕ → St Bool
put_chan key a x =
    let r = Skmap.put (x.grants x.clock).put x.chans (some key) (some a) in
    ok (r.1, record x { chans = r.0; clock = x.clock + 1 })

abbrev pub del_user : Bytes → St (Option ℕ)
del_user key x = let r = Skmap.del x.users key in ok (r.1, record x { users = r.0 })

abbrev pub del_chan : Bytes → St (Option ℕ)
del_chan key x = let r = Skmap.del x.chans key in ok (r.1, record x { chans = r.0 })

-- `size_t` of 64 bits, which wraps.
abbrev pub up : ℕ → ℕ
up n = (n + 1) % 2 ^ 64

abbrev pub down : ℕ → ℕ
down n = (n + 2 ^ 64 - 1) % 2 ^ 64
