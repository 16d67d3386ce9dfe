-- ===== src/Ucbase/Users.antt =====
-- The users of libsrsirc/ucbase.c.
pub mod Touch
pub mod Add
use libsrsirc.Base.{
  ℕ, Bool, false, not, ◌&&◌, Option, none, some, Bytes, if◌then◌else◌, is_some, replicate,
}
use libsrsirc.Text.{cstr}
use libsrsirc.Text.Ident.{ident2nick, ident2uname, ident2host}
use libsrsirc.Proto.{has_byte}
use libsrsirc.Skmap
use libsrsirc.Ucbase.Store.{
  User, St, ◌>>=◌, ◌>>◌, done, read, malloc, strdup, user, set_user, free_user, put_user,
}

-- A piece of `nick!user@host`, in an array of `size` bytes.
abbrev pub piece : (Bytes → ℕ → Bytes → Bytes) → ℕ → Bytes → Bytes
piece cut size ident = cstr (cut (replicate size 0) size ident)

abbrev pub nick_of : Bytes → Bytes
nick_of ident = piece ident2nick 64 ident

unfoldable pub get_user : Bytes → St (Option ℕ)
get_user ident = read (λ x. Skmap.get x.users ident)

unfoldable pub num_users : St ℕ
num_users = read (λ x. x.users.count)

-- A failed `STRDUP` leaves NULL.
touch_uname : ℕ → Bytes → St (Unit {0})
touch_uname a ident = do
  u ← user a
  if not (is_some u.uname) && has_byte ident b'!'
      then (strdup (piece ident2uname 64 ident) >>= λ n. set_user a (record u { uname = n }))
      else done tt

touch_host : ℕ → Bytes → St (Unit {0})
touch_host a ident = do
  u ← user a
  if not (is_some u.host) && has_byte ident b'@'
      then (strdup (piece ident2host 128 ident) >>= λ n. set_user a (record u { host = n }))
      else done tt

unfoldable pub touch_user_int : ℕ → Bytes → St (Unit {0})
unfolding touch_uname touch_host
touch_user_int a ident = touch_uname a ident >> touch_host a ident

unfoldable pub touch_user : Bytes → St (Option ℕ)
unfolding get_user touch_user_int
touch_user ident = get_user ident >>= λ o. elim o [
  | none ↦ done none
  | some a ↦ touch_user_int a ident >> done (some a)
]

-- A user as `lsi_ucb_add_user` makes it.
abbrev pub new_user : Bytes → User
new_user nick = record {
  nick = nick;
  uname = none;
  host = none;
  fname = none;
  nchans = 0;
  tag = none;
  freetag = false;
}

-- The part with the block and the copy of the nick.
add_user_at : ℕ → Bytes → Bytes → St (Option ℕ)
unfolding touch_user_int
add_user_at a nick ident = do
  set_user a (new_user nick)
  stored ← put_user nick a
  if stored then (touch_user_int a ident >> done (some a)) else (free_user a >> done none)

-- `none` is NULL.
unfoldable pub add_user : Bytes → St (Option ℕ)
unfolding add_user_at
add_user ident = malloc >>= λ b. elim b [
  | none ↦ done none
  | some a ↦ strdup (nick_of ident) >>= λ n. elim n [
    | none ↦ done none
    | some nick ↦ add_user_at a nick ident
  ]
]

unfoldable pub tag_user : ℕ → Option ℕ → Bool → St (Unit {0})
tag_user a tag autofree = user a >>= λ u. set_user a (record u { tag = tag; freetag = autofree })
