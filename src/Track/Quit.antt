-- ===== src/Track/Quit.antt =====
-- What a QUIT does to the store.
use libsrsirc.Base.{
  ℕ, ◌≡◌, ◌≢◌, refl, sym, ap, subst, ◌∙◌, Bool, Bool-cases, Option-cases, inl, inr, none, some,
  Bytes, if◌then◌else◌, get_or, arith,
}
use libsrsirc.Base.Mem.{ok}
use libsrsirc.Proto.{Tokarr}
use libsrsirc.Key.{pfxeq}
use libsrsirc.Key.Laws.{pfxeq_congr}
use libsrsirc.Skmap.{Skmap}
use libsrsirc.Skmap.View.{view, get-view}
use libsrsirc.Skmap.Walk.{entries}
use libsrsirc.Skmap.Cursors.{Same, Same-refl}
use libsrsirc.Skmap.Entries.{Holds, Holds-All, view_congr}
use libsrsirc.Ucbase.Store.{Chan, Ctx, St, ◌>>=◌, ◌>>◌, done}
use libsrsirc.Ucbase.Sound.{IsSound, ChanIsThere, Renews-IsSound}
use libsrsirc.Ucbase.Users.{get_user}
use libsrsirc.Ucbase.Users.Touch.{touch_user-Renews}
use libsrsirc.Ucbase.Members.{drop_user}
use libsrsirc.Ucbase.Members.Drop.{drop_user-Drops}
use libsrsirc.Track.{handle_quit}

-- The store `y` is `x` without the user of a nick: that user is freed, and nothing else is changed but
-- the cursors of the maps and the count of the steps.
pub record Quits (nick : Bytes) (x y : Ctx) : Type 0 where
  pub sound : IsSound y
  pub looks :
      (r : Bytes) → view y.users r ≡ (if pfxeq nick r x.users.cmap then none else view x.users r)
  pub same_chans : Same x.chans y.chans
  pub members :
      (a : ℕ)
      → Holds a (entries x.chans.buck)
      → (before : Chan) × (after : Chan) × (x.chan_at a ≡ some before)
        × (y.chan_at a ≡ some after)
        × (record after { memb = before.memb } ≡ before)
        × ((r : Bytes)
            → view after.memb r ≡ (if pfxeq nick r x.users.cmap then none else view before.memb r))
  pub no_others : (a : ℕ) → ¬ Holds a (entries x.chans.buck) → y.chan_at a ≡ x.chan_at a
  pub freed : (b : ℕ) → view x.users nick ≡ some b → y.user_at b ≡ none
  pub other_users : (b : ℕ) → view x.users nick ≢ some b → y.user_at b ≡ x.user_at b
  pub rest :
      record y {
        chans = x.chans;
        users = x.users;
        chan_at = x.chan_at;
        user_at = x.user_at;
        clock = x.clock;
      }
      ≡ x

module _ (pfx : Bytes) where
  -- What `handle_QUIT` does once the user is touched.
  abbrev quit_part : St ℕ
  quit_part = get_user pfx >>= λ o. elim o [ none ↦ done 0 | some u ↦ drop_user u >> done 0 ]

  unknown-Quits : (x : Ctx) → IsSound x → view x.users pfx ≡ none → Quits pfx x x
  unknown-Quits x s e = record {
    sound = s;
    looks = λ r. elim (Bool-cases (pfxeq pfx r x.users.cmap)) [
      | inl p ↦ rw p (sym (view_congr x.users pfx r p) ∙ e)
      | inr p ↦ rw p
    ];
    same_chans = Same-refl x.chans;
    members = λ a h.
        let (k, is, w) = Holds-All (ChanIsThere x) a (entries x.chans.buck) h s.chan_of in
        (
          k,
          k,
          is,
          is,
          refl,
          λ r. elim (Bool-cases (pfxeq pfx r x.users.cmap)) [
            | inr p ↦ rw p
            | inl p ↦
                let absent = sym (view_congr x.users pfx r p) ∙ e in
                rw p (elim (Option-cases (view k.memb r)) [
                  | inl f ↦ f
                  | inr (n, f) ↦ absurd (cc (sym absent ∙ w.memb_user r n f))
                ])
          ],
        );
    no_others = λ a out. refl;
    freed = λ b f. cc (f, e);
    other_users = λ b ne. refl;
    rest = refl;
  }

  quit_part-Quits : (x : Ctx) → IsSound x → (y : Ctx) × (quit_part x ≡ ok (0, y)) × Quits pfx x y
  unfolding get_user
  quit_part-Quits x s =
      let found = get-view x.users pfx s.users_valid in
      elim (Option-cases (view x.users pfx)) [
        | inl e ↦ (x, ground arith, unknown-Quits x s e)
        | inr (u, e) ↦
            let (v, is, eq) = s.user_of pfx u e in
            let here : view x.users v.nick ≡ some u = view_congr x.users v.nick pfx eq ∙ e in
            let (z, ran, d) = drop_user-Drops u v x s is here in
            let same = λ (r : Bytes). pfxeq_congr x.users.cmap v.nick pfx r eq in
            (
              z,
              ground arith,
              record {
                sound = d.sound;
                looks = λ r. d.looks r ∙ ap (λ b. if b then none else view x.users r) (same r);
                same_chans = d.moved;
                members = λ a h.
                    let (k, k', was, is', else_same, reads) = d.left a h in
                    (
                      k,
                      k',
                      was,
                      is',
                      else_same,
                      λ r. reads r ∙ ap (λ b. if b then none else view k.memb r) (same r),
                    );
                no_others = d.no_others;
                freed = λ b f. subst (λ i. z.user_at i ≡ none) (cc (f, e)) d.freed;
                other_users = λ b ne. d.others b (λ h. ne (e ∙ ap some (sym h)));
                rest = ap (λ (c : Ctx). record c { clock = x.clock }) d.rest;
              },
            )
      ]

-- A QUIT of a sound store is handled, and the store stays sound: afterwards the nick of the prefix
-- leads to no user, in any spelling, the user it led to is freed, and no channel has a member of that
-- nick. Nothing else is changed: not what other nicks lead to, not the other users and members, not
-- the channels in anything but their members, and no other field.
pub handle_quit-Quits :
    (signed : Bool) (msg : Tokarr) (nargs : ℕ) (logon : Bool) (pfx : Bytes) (x : Ctx)
    → get_or msg 0 none ≡ some pfx
    → IsSound x
    → (y : Ctx) × (handle_quit signed msg nargs logon x ≡ ok (0, y)) × Quits pfx x y
unfolding handle_quit
handle_quit-Quits signed msg nargs logon pfx x e s =
    let (y, touched, r, o) = touch_user-Renews pfx x s in
    let (z, ran, q) = quit_part-Quits pfx y (Renews-IsSound r s) in
    let users_is : y.users ≡ x.users = ap (λ (c : Ctx). c.users) r.rest in
    let back : Quits pfx (record y { user_at = x.user_at; clock = x.clock }) z = record {
      sound = q.sound;
      looks = q.looks;
      same_chans = q.same_chans;
      members = q.members;
      no_others = q.no_others;
      freed = q.freed;
      other_users = λ b ne.
          q.other_users b ne ∙ o b (λ f. ne (ap (λ (h : Skmap ℕ). view h pfx) users_is ∙ f));
      rest = ap (λ (c : Ctx). record c { user_at = x.user_at; clock = x.clock }) q.rest;
    } in
    (z, ground arith, subst (λ (c : Ctx). Quits pfx c z) r.rest back)
