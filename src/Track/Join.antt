-- ===== src/Track/Join.antt =====
-- What JOIN of libsrsirc/irc_track.c does for another user.
use libsrsirc.Base.{
  [], ◌≤◌, get_or, ℕ, ◌≡◌, subst, ◌∙◌, ◌⊎◌, Bool, true, false, inl, inr, none, some, Bytes, arith,
}
use libsrsirc.Base.Mem.{ok}
use libsrsirc.Key.{pfxeq}
use libsrsirc.Skmap.View.{view, get-view}
use libsrsirc.Skmap.Walk.{entries}
use libsrsirc.Skmap.Entries.{Holds-All, view-Holds}
use libsrsirc.Ucbase.Store.{Chan, Ctx}
use libsrsirc.Ucbase.Sound.{IsSound, IsWhole, ChanIsThere}
use libsrsirc.Ucbase.Users.{nick_of}
use libsrsirc.Ucbase.Users.Add.{IsFresh}
use libsrsirc.Track.{enter_chan, handle_join, alloc_err}
use libsrsirc.Proto.{Tokarr}
use libsrsirc.Logon.{same_nick}
use libsrsirc.Ucbase.Channels.{get_chan}
use libsrsirc.Track.Enter.{Enters, Refuses}
use libsrsirc.Track.Enter.Added.{enter_chan-Entry}

get_chan-found :
    (name : Bytes) (c : ℕ) (x : Ctx)
    → IsSound x
    → view x.chans name ≡ some c
    → get_chan name x ≡ ok (some c, x)
unfolding get_chan
get_chan-found name c x sound found = ground (arith, get-view x.chans name sound.chans_valid)

-- Another user's JOIN of a channel that a sound store has either makes the user a member, under its
-- nick in the users' map and in the channel, and changes no other lookup and no other channel; or it is
-- refused for lack of memory, with what nicks and channel names lead to, and the members of that
-- channel, as they were. The store stays sound, and nothing outside of it is changed. The blocks that
-- are allocated are no users yet, and the nick in the prefix is not cut.
pub handle_join-Enters :
    (signed : Bool) (msg : Tokarr) (nargs : ℕ) (logon : Bool) (pfx name : Bytes) (c : ℕ) (k : Chan)
    (x : Ctx)
    → get_or msg 0 none ≡ some pfx
    → get_or msg 2 none ≡ some name
    → 3 ≤ nargs
    → same_nick signed (nick_of pfx) x.mynick x.casemap ≡ false
    → IsSound x
    → view x.chans name ≡ some c
    → x.chan_at c ≡ some k
    → IsFresh x
    → pfxeq (nick_of pfx) pfx x.users.cmap ≡ true
    → (y : Ctx) × (((handle_join signed msg nargs logon x ≡ ok (0, y)) × Enters pfx [] c k x y)
        ⊎ ((handle_join signed msg nargs logon x ≡ ok (alloc_err, y)) × Refuses c k x y))
unfolding handle_join
handle_join-Enters signed msg nargs logon pfx name c k x has_pfx has_name enough_args other sound
      found is fresh fits =
    let runs : handle_join signed msg nargs logon x ≡ enter_chan c pfx [] x =
      ground (arith, get_chan-found name c x sound found) in
    let listed = view-Holds x.chans name c sound.chans_valid found in
    let (j, j_is, w) = Holds-All (ChanIsThere x) c (entries x.chans.buck) listed sound.chan_of in
    let whole : IsWhole x.users k = subst (IsWhole x.users) (ground arith) w in
    let (y, ends) = enter_chan-Entry pfx [] c k x sound is whole fresh fits listed in
    elim ends [
      | inl (ran, enters) ↦ (y, inl (runs ∙ ran, enters))
      | inr (ran, refuses) ↦ (y, inr (runs ∙ ran, refuses))
    ]
