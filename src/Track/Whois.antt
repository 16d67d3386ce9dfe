-- ===== src/Track/Whois.antt =====
-- 311 and 352 of libsrsirc/irc_track.c, which say more of a user. `signed` says whether `char` is signed.
use libsrsirc.Base.{ℕ, Bool, false, Option, none, some, [], ◌∷◌, Bytes, ◌==◌, if◌then◌else◌}
use libsrsirc.Logon.{same_nick}
use libsrsirc.Msg.Res.{proto_err}
use libsrsirc.Ucbase.Store.{St, ◌>>=◌, ◌>>◌, done, read, strdup, user, set_user}
use libsrsirc.Ucbase.Users.{get_user}
use libsrsirc.Track.{Handler, needs, arg}

module _ (signed : Bool) where
  -- `if (!f || istrcmp(f, val) != 0) update_strprop(&f, val);`, where a failed copy changes nothing.
  new_prop : Option Bytes → Bytes → St (Option Bytes)
  new_prop old val = do
    m ← read (λ x. x.casemap)
    if (elim old [ none ↦ false | some t ↦ same_nick signed t val m ])
        then done old
        else (strdup val >>= λ n. done (elim n [ none ↦ old | some t ↦ some t ]))

  set_uname : ℕ → Bytes → St (Unit {0})
  unfolding new_prop
  set_uname u val = do v ← user u; n ← new_prop v.uname val; set_user u (record v { uname = n })

  set_host : ℕ → Bytes → St (Unit {0})
  unfolding new_prop
  set_host u val = do v ← user u; n ← new_prop v.host val; set_user u (record v { host = n })

  set_fname : ℕ → Bytes → St (Unit {0})
  unfolding new_prop
  set_fname u val = do v ← user u; n ← new_prop v.fname val; set_user u (record v { fname = n })

  -- `strchr(s, ' ')`, and what stands behind it.
  behind_space : Bytes → Option Bytes
  behind_space [] = none
  behind_space (c ∷ s) = if c == b' ' then some s else behind_space s

  unfoldable pub handle_352 : Handler
  unfolding set_uname set_host set_fname behind_space
  handle_352 msg nargs logon = needs 10 msg nargs λ pfx. do
    nick ← arg msg 7
    o ← get_user nick
    elim o [
      | none ↦ done 0
      | some u ↦ do
        uname ← arg msg 4
        set_uname u uname
        host ← arg msg 5
        set_host u host
        last ← arg msg 9
        elim (behind_space last) [
          | none ↦ done proto_err
          | some fname ↦ set_fname u fname >> done 0
        ]
    ]

  unfoldable pub handle_311 : Handler
  unfolding set_uname set_host set_fname
  handle_311 msg nargs logon = needs 8 msg nargs λ pfx. do
    nick ← arg msg 3
    o ← get_user nick
    elim o [
      | none ↦ done 0
      | some u ↦ do
        uname ← arg msg 4
        set_uname u uname
        host ← arg msg 5
        set_host u host
        fname ← arg msg 7
        set_fname u fname
        done 0
    ]
