-- ===== src/Track/Topic.antt =====
-- 332, 333 and TOPIC of libsrsirc/irc_track.c.
use libsrsirc.Base.{
  ℕ, ◌+◌, ◌-◌, ◌*◌, ◌%◌, ◌^◌, Bool, ◌&&◌, ◌||◌, none, some, [], ◌∷◌, Bytes, ◌==◌, if◌then◌else◌,
  ltb, leb, is_some,
}
use libsrsirc.Ucbase.Store.{◌>>=◌, ◌>>◌, done, strdup, chan, set_chan}
use libsrsirc.Ucbase.Users.{nick_of, touch_user}
use libsrsirc.Ucbase.Channels.{get_chan}
use libsrsirc.Track.{Handler, alloc_err, needs, arg}

unfoldable pub handle_332 : Handler
handle_332 msg nargs logon = needs 5 msg nargs λ pfx. do
  name ← arg msg 3
  o ← get_chan name
  elim o [
    | none ↦ done 0
    | some c ↦ do
      k ← chan c
      text ← arg msg 4
      topic ← strdup text
      set_chan c (record k { topic = topic })
      done (if is_some topic then 0 else alloc_err)
  ]

abbrev is_decimal : ℕ → Bool
is_decimal c = leb b'0' c && leb c b'9'

-- The C library's `strtoull` in base 10, of 64 bits: the digits, which stop at the greatest value.
digits_from : ℕ → Bytes → ℕ
digits_from n [] = n
digits_from n (c ∷ s) =
    let rest = digits_from (n * 10 + (c - b'0')) s in if is_decimal c then rest else n

clamped : ℕ → ℕ
clamped n = if ltb n (2 ^ 64) then n else 2 ^ 64 - 1

unfoldable pub strtoull : Bytes → ℕ
unfolding digits_from clamped
strtoull [] = 0
strtoull (c ∷ s) =
    let rest = strtoull s in
    if c == b' ' || (leb 9 c && leb c 13)
    then rest
    else if c == b'+'
    then clamped (digits_from 0 s)
    else if c == b'-'
    then (let n = digits_from 0 s in if ltb n (2 ^ 64) then (2 ^ 64 - n) % 2 ^ 64 else 2 ^ 64 - 1)
    else clamped (digits_from 0 (c ∷ s))

unfoldable pub handle_333 : Handler
unfolding strtoull
handle_333 msg nargs logon = needs 6 msg nargs λ pfx. do
  name ← arg msg 3
  o ← get_chan name
  elim o [
    | none ↦ done 0
    | some c ↦ do
      k ← chan c
      who ← arg msg 4
      topicnick ← strdup who
      set_chan c (record k { topicnick = topicnick })
      if is_some topicnick
          then (do
            k' ← chan c
            time ← arg msg 5
            set_chan c (record k' { tstopic = strtoull time })
            done 0)
          else done alloc_err
  ]

-- The new topic, and then, unless there was no memory for it, who set it.
unfoldable pub handle_topic : Handler
handle_topic msg nargs logon = needs 4 msg nargs λ pfx. do
  touch_user pfx
  name ← arg msg 2
  o ← get_chan name
  elim o [
    | none ↦ done 0
    | some c ↦ do
      k ← chan c
      text ← arg msg 3
      topic ← strdup text
      set_chan c (record k { topic = topic; topicnick = none })
      if is_some topic
          then (do
            k' ← chan c
            topicnick ← strdup (nick_of pfx)
            set_chan c (record k' { topicnick = topicnick })
            done (if is_some topicnick then 0 else alloc_err))
          else done alloc_err
  ]
