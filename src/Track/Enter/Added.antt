-- ===== src/Track/Enter/Added.antt =====
-- A user comes into a channel who is not in the store yet: the user is added for it, and dropped
-- again where there is no memory for the member.
use libsrsirc.Base.{
  ℕ, ◌+◌, ◌≡◌, refl, sym, ap, subst, ◌∙◌, Bool, true, false, ◌&&◌, Bool-cases, Option-cases, inl,
  inr, none, some, Bytes, if◌then◌else◌, is_some, arith,
}
use libsrsirc.Base.Mem.{ok}
use libsrsirc.Key.{pfxeq}
use libsrsirc.Key.Laws.{pfxeq_congr, pfxeq_refl}
use libsrsirc.Skmap.{Skmap}
use libsrsirc.Skmap.Cursors.{Same, Same-refl}
use libsrsirc.Skmap.View.{view, get-view}
use libsrsirc.Skmap.Walk.{entries}
use libsrsirc.Skmap.Entries.{Holds, Holds-All, view_congr}
use libsrsirc.Skmap.Put.{enough}
use libsrsirc.Ucbase.Store.{User, Chan, Grant, Ctx}
use libsrsirc.Ucbase.Sound.{IsSound, IsWhole, ChanIsThere}
use libsrsirc.Ucbase.Users.{get_user, add_user, nick_of}
use libsrsirc.Ucbase.Users.Add.{
  IsFresh, Memory, Memory-enough, KeepsStore, IsNew, add_user-UserAdded,
}
use libsrsirc.Ucbase.Members.Add.{Adds, add_memb-Adds}
use libsrsirc.Ucbase.Members.Drop.{Drops, drop_user-Drops}
use libsrsirc.Track.{enter_chan, find_or_add}
use libsrsirc.Track.Enter.{Enters, Refuses, Entry, known-Entry}

module _ (ident mpfx : Bytes) (c : ℕ) (k : Chan) (x : Ctx) (sound : IsSound x)
    (is : x.chan_at c ≡ some k) (whole : IsWhole x.users k) where
  module _ (fresh : IsFresh x) (fits : pfxeq (nick_of ident) ident x.users.cmap ≡ true)
      (listed : Holds c (entries x.chans.buck)) (absent : view x.users ident ≡ none) where
    no_user : view x.users (nick_of ident) ≡ none
    no_user = view_congr x.users (nick_of ident) ident fits ∙ absent

    -- A nick that no user has is no member's.
    no_member : (r : Bytes) → pfxeq ident r x.users.cmap ≡ true → view k.memb r ≡ none
    no_member r p = elim (Option-cases (view k.memb r)) [
      | inl e ↦ e
      | inr (n, e) ↦
          absurd (cc (sym (view_congr x.users ident r p) ∙ absent, whole.memb_user r n e))
    ]

    looked : get_user ident x ≡ ok (none, x)
    unfolding get_user
    looked = ground (arith, get-view x.users ident sound.users_valid)

    same_key : (r : Bytes) → pfxeq (nick_of ident) r x.users.cmap ≡ pfxeq ident r x.users.cmap
    same_key r = pfxeq_congr x.users.cmap (nick_of ident) ident r fits

    refused-Entry :
        (y : Ctx)
        → add_user ident x ≡ ok (none, y)
        → KeepsStore x y
        → ((r : Bytes) → view y.users r ≡ view x.users r)
        → ¬ Memory x.grants
        → Entry ident mpfx c k x
    unfolding enter_chan find_or_add
    refused-Entry y ran kept same lacks = (
      y,
      inr (
        ground (arith, looked),
        record {
          sound = kept.sound;
          lacks = lacks;
          looks = same;
          after = k;
          is = ap (λ (d : Ctx). d.chan_at c) kept.rest ∙ is;
          else_same = refl;
          reads = λ r. refl;
          same_chans =
              subst (λ h. Same x.chans h) (sym (ap (λ (d : Ctx). d.chans) kept.rest))
                (Same-refl x.chans);
          rest = ap (λ (d : Ctx). record d { chans = x.chans; chan_at = x.chan_at }) kept.rest;
        },
      ),
    )

    module _ (u : ℕ) (y : Ctx) (ran : add_user ident x ≡ ok (some u, y)) (kept : KeepsStore x y)
        (new : IsNew (nick_of ident) x u y) where
      abbrev added : User
      added = new.user_is.0

      at_y : y.chan_at c ≡ some k
      at_y = ap (λ (d : Ctx). d.chan_at c) kept.rest ∙ is

      IsWhole-y : IsWhole y.users k
      IsWhole-y =
          let chans_is : y.chans ≡ x.chans = ap (λ (d : Ctx). d.chans) kept.rest in
          let (j, j_is, w) =
            Holds-All (ChanIsThere y) c (entries y.chans.buck)
              (subst (λ h. Holds c (entries {V = ℕ} h.buck)) (sym chans_is) listed)
              kept.sound.chan_of in
          subst (IsWhole y.users) (ground (arith, at_y)) w

      found_y : view y.users added.nick ≡ some u
      found_y =
          ap (view y.users) new.user_is.2
          ∙ new.looks (nick_of ident)
          ∙ rw (pfxeq_refl x.users.cmap (nick_of ident))

      grants_y : y.grants ≡ x.grants
      grants_y = ap (λ (d : Ctx). d.grants) kept.rest

      abbrev room_y : Bool
      room_y =
          is_some (y.grants y.clock).block && enough (y.grants (y.clock + 1)).put k.memb added.nick

      -- A key that is compared with the nick of the new user.
      nick_key : (r : Bytes) → pfxeq added.nick r y.users.cmap ≡ pfxeq ident r x.users.cmap
      nick_key r =
          ap (λ m. pfxeq added.nick r m) kept.cmap_is
          ∙ ap (λ n. pfxeq n r x.users.cmap) new.user_is.2
          ∙ same_key r

      -- The context with the users, the channels' contents and the count of the steps that `x` has.
      abbrev without_store : Ctx → Ctx
      without_store d = record d {
        users = x.users;
        chan_at = x.chan_at;
        user_at = x.user_at;
        clock = x.clock;
      }

      module _ (z : Ctx) (adds : Adds u added c k mpfx y room_y z) where
        users_z : z.users ≡ y.users
        users_z = ap (λ (d : Ctx). d.users) adds.rest

        entered-Enters : room_y ≡ true → Enters ident mpfx c k x z
        entered-Enters p = record {
          sound = adds.sound;
          who = u;
          looks = λ r.
              ap (λ (h : Skmap ℕ). view h r) users_z
              ∙ new.looks r
              ∙ ap (λ b. if b then some u else view x.users r) (same_key r);
          after = adds.after;
          is = adds.is;
          else_same = adds.else_same;
          reads = λ r. ground (arith, adds.reads r, nick_key r);
          other_chans = λ b ne. adds.other_chans b ne ∙ ap (λ (d : Ctx). d.chan_at b) kept.rest;
          rest =
              ap without_store adds.rest
              ∙ ap (λ (d : Ctx). record d { chan_at = x.chan_at }) kept.rest;
        }

        -- The user that was added is dropped again.
        dropped-Refuses : (w : Ctx) → room_y ≡ false → Drops u adds.user_after z w → Refuses c k x w
        dropped-Refuses w p d =
            let nick_is : adds.user_after.nick ≡ added.nick =
              ap (λ (s : User). s.nick) adds.counts in
            let key = λ (r : Bytes).
              ap (λ n. pfxeq n r z.users.cmap) nick_is
              ∙ ap (λ (h : Skmap ℕ). pfxeq added.nick r h.cmap) users_z
              ∙ nick_key r in
            let chans_z : z.chans ≡ x.chans =
              ap (λ (d' : Ctx). d'.chans) adds.rest ∙ ap (λ (d' : Ctx). d'.chans) kept.rest in
            let (before, after, was, is', else_same, reads) =
              d.left c (subst (λ h. Holds c (entries {V = ℕ} h.buck)) (sym chans_z) listed) in
            let b_is : before ≡ adds.after = ground (arith, adds.is) in
            record {
              sound = d.sound;
              lacks = λ all. ground (
                arith,
                subst (λ (g : ℕ → Grant). is_some (g y.clock).block ≡ true) (sym grants_y)
                    (all y.clock).0,
                subst (λ (g : ℕ → Grant). enough (g (y.clock + 1)).put k.memb added.nick ≡ true)
                    (sym grants_y) (Memory-enough x.grants (y.clock + 1) k.memb added.nick all),
              );
              looks = λ r. elim (Bool-cases (pfxeq ident r x.users.cmap)) [
                | inl f ↦
                    d.looks r
                    ∙ ap (λ b. if b then none else view z.users r) (key r)
                    ∙ rw f (sym (sym (view_congr x.users ident r f) ∙ absent))
                | inr f ↦
                    d.looks r
                    ∙ ap (λ b. if b then none else view z.users r) (key r)
                    ∙ rw f (
                        ap (λ (h : Skmap ℕ). view h r) users_z
                        ∙ new.looks r
                        ∙ ap (λ b. if b then some u else view x.users r) (same_key r ∙ f))
              ];
              same_chans = subst (λ h. Same h w.chans) chans_z d.moved;
              rest =
                  ap (λ c'. record (without_store c') { chans = x.chans }) d.rest
                  ∙ ap (λ c'. record (without_store c') { chans = x.chans }) adds.rest
                  ∙ ap (λ (c' : Ctx). record c' { chans = x.chans; chan_at = x.chan_at }) kept.rest;
              after = after;
              is = is';
              else_same =
                  ap (λ (j : Chan). record j { memb = k.memb }) (else_same ∙ b_is) ∙ adds.else_same;
              reads = λ r. elim (Bool-cases (pfxeq ident r x.users.cmap)) [
                | inl f ↦
                    reads r
                    ∙ ap (λ b. if b then none else view before.memb r) (key r ∙ f)
                    ∙ sym (no_member r f)
                | inr f ↦
                    reads r
                    ∙ ap (λ b. if b then none else view before.memb r) (key r ∙ f)
                    ∙ ap (λ (j : Chan). view j.memb r) b_is
                    ∙ ground (arith, adds.reads r)
              ];
            }

      added-Entry : Entry ident mpfx c k x
      unfolding enter_chan find_or_add
      added-Entry =
          let (z, put_ran, adds) =
            add_memb-Adds u added c k mpfx y kept.sound new.user_is.1 found_y at_y IsWhole-y in
          elim (Bool-cases room_y) [
            | inl p ↦ (z, inl (ground (arith, looked, ran, put_ran), entered-Enters z adds p))
            | inr p ↦
                let nick_is : adds.user_after.nick ≡ added.nick =
                  ap (λ (s : User). s.nick) adds.counts in
                let found_z : view z.users adds.user_after.nick ≡ some u =
                  ap (view z.users) nick_is
                  ∙ ap (λ (h : Skmap ℕ). view h added.nick) (users_z z adds)
                  ∙ found_y in
                let (w, drop_ran, drops) =
                  drop_user-Drops u adds.user_after z adds.sound adds.user_is found_z in
                (
                  w,
                  inr (
                    ground (arith, looked, ran, put_ran, drop_ran),
                    dropped-Refuses z adds w p drops,
                  ),
                )
          ]

  -- A user comes into a channel of a sound store, unless there is no memory. Then the nick leads to
  -- the user, who is a member of the channel with the given symbols, and nobody else and no other
  -- channel is touched. Else every lookup gives what it gave: a user that was added for it is dropped
  -- again. The blocks that are allocated are no users yet, and the nick is not cut.
  pub enter_chan-Entry :
      IsFresh x
      → pfxeq (nick_of ident) ident x.users.cmap ≡ true
      → Holds c (entries x.chans.buck)
      → Entry ident mpfx c k x
  enter_chan-Entry fresh fits listed = elim (Option-cases (view x.users ident)) [
    | inr (u, e) ↦ known-Entry ident mpfx c k x sound is whole u e
    | inl e ↦ elim (add_user-UserAdded ident x sound fresh (no_user fresh fits listed e)) [
      | inl (y, ran, kept, same, lacks) ↦ refused-Entry fresh fits listed e y ran kept same lacks
      | inr (u, y, ran, kept, new) ↦ added-Entry fresh fits listed e u y ran kept new
    ]
  ]
