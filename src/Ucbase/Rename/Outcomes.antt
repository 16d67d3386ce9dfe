-- ===== src/Ucbase/Rename/Outcomes.antt =====
-- What `lsi_ucb_rename_user` does on each of its branches but for those without memory.
use libsrsirc.Base.{
  ℕ, ◌+◌, ◌-◌, ◌≡◌, ap, ◌∙◌, ◌⊎◌, Bool, true, false, Bool-cases, Option-cases, inl, inr, none, some,
  Bytes, take, length, arith,
}
use libsrsirc.Base.Mem.{ok}
use libsrsirc.Logon.{same_nick}
use libsrsirc.Skmap.View.{view, get-view}
use libsrsirc.Ucbase.Store.{User, Grant, Ctx, update}
use libsrsirc.Ucbase.Sound.{IsSound}
use libsrsirc.Ucbase.Users.{get_user, nick_of}
use libsrsirc.Ucbase.Users.Add.{Memory}
use libsrsirc.Ucbase.Rename.{rename_user}
use libsrsirc.Ucbase.Rename.Rounds.{Plenty}
use libsrsirc.Ucbase.Rename.Moved.{Moves, rename_user-Moves, Moves-IsSound}

Memory-Plenty : (g : ℕ → Grant) → Memory g → Plenty g
Memory-Plenty g m n = ground (arith, m n)

-- The user of `ident` is only spelled anew, in as many bytes as before, where `istrcmp` takes the two
-- nicks for the same; else it moves.
abbrev pub Renames : Bool → Bytes → Bytes → ℕ → User → Ctx → Type 0
Renames signed ident newnick u v x =
    ((same_nick signed (nick_of ident) newnick x.casemap ≡ true)
      × (rename_user signed ident newnick x
          ≡ ok (
            (true, false),
            record x {
              user_at =
                  update x.user_at u (some (record v { nick = take (length v.nick) newnick }));
            },
          )))
    ⊎ ((same_nick signed (nick_of ident) newnick x.casemap ≡ false)
        × ((y : Ctx) × (rename_user signed ident newnick x ≡ ok ((true, false), y))
            × Moves ident newnick u v x y))

module _ (signed : Bool) (ident newnick : Bytes) (x : Ctx) (sound : IsSound x)
    (memory : Memory x.grants) where
  -- The memory that `strdup` gets.
  copy_there : (b : ℕ) × ((x.grants x.clock).block ≡ some b)
  copy_there = elim (Option-cases (x.grants x.clock).block) [
    | inr (b, e) ↦ (b, e)
    | inl e ↦ absurd (ground (arith, memory x.clock))
  ]

  found-Renames :
      (u : ℕ) (v : User)
      → view x.users ident ≡ some u
      → x.user_at u ≡ some v
      → Renames signed ident newnick u v x
  unfolding rename_user get_user
  found-Renames u v found here =
      elim (Bool-cases (same_nick signed (nick_of ident) newnick x.casemap)) [
        | inl same ↦ inl (
          same,
          ground (arith, get-view x.users ident sound.users_valid)
              ∙ ap
                  (λ n. ok (
                    (true, false),
                    record x {
                      user_at = update x.user_at u (some (record v { nick = take n newnick }));
                    },
                  ))
                  {x = length v.nick + 1 - 1} (omega arith),
        )
        | inr other ↦ inr (
          other,
          rename_user-Moves signed ident newnick u copy_there.0 v x sound found here other
              (Memory-Plenty x.grants memory) copy_there.1,
        )
      ]

  -- A rename in a sound store, with memory, comes to an end on every branch. A user that the store does
  -- not know is not renamed, and nothing changes. A new nick that is, for `istrcmp`, a spelling of the
  -- old one is written over it, in as many bytes, and nothing else changes. Any other new nick moves
  -- the user: it is under that nick in the users' map and in every channel that had it as a member,
  -- and then the old nick leads nowhere, in any spelling, so that where the two are one for the
  -- maps both lead nowhere; what other nicks lead to, the other users and all else stay.
  pub rename_user-Renames :
      ((view x.users ident ≡ none) × (rename_user signed ident newnick x ≡ ok ((false, false), x)))
      ⊎ ((u : ℕ) × (v : User) × (view x.users ident ≡ some u)
          × (x.user_at u ≡ some v)
          × Renames signed ident newnick u v x)
  unfolding rename_user get_user
  rename_user-Renames = elim (Option-cases (view x.users ident)) [
    | inl e ↦ inl (e, ground (arith, get-view x.users ident sound.users_valid))
    | inr (u, e) ↦
        let (v, here, fits) = sound.user_of ident u e in
        inr (u, v, e, here, found-Renames u v e here)
  ]

  -- A rename to a nick that no user has, and that is for `istrcmp` no spelling of the old one, succeeds
  -- in a sound store with memory, and the store stays sound.
  pub rename_user-IsSound :
      (u : ℕ) (v : User)
      → view x.users ident ≡ some u
      → x.user_at u ≡ some v
      → same_nick signed (nick_of ident) newnick x.casemap ≡ false
      → view x.users newnick ≡ none
      → (y : Ctx) × (rename_user signed ident newnick x ≡ ok ((true, false), y)) × IsSound y
  rename_user-IsSound u v found here other free =
      let (y, ran, mv) =
        rename_user-Moves signed ident newnick u copy_there.0 v x sound found here other
          (Memory-Plenty x.grants memory) copy_there.1 in
      (y, ran, Moves-IsSound ident newnick u v x y sound found here free mv)
