-- ===== src/Track/Enter.antt =====
-- How a user comes into a channel: the part that JOIN and 353 share.
pub mod Added
use libsrsirc.Base.{
  [], ◌≤◌, get_or, ℕ, ◌+◌, ◌≡◌, ◌≢◌, refl, sym, ap, subst, ◌∙◌, ◌⊎◌, Bool, true, false, ◌&&◌,
  Bool-cases, Option-cases, inl, inr, none, some, Bytes, if◌then◌else◌, is_some, arith,
}
use libsrsirc.Base.Mem.{ok}
use libsrsirc.Key.{pfxeq}
use libsrsirc.Key.Laws.{pfxeq_congr, pfxeq_refl}
use libsrsirc.Skmap.{Skmap}
use libsrsirc.Skmap.Cursors.{Same, Same-refl}
use libsrsirc.Skmap.View.{view, get-view}
use libsrsirc.Skmap.Walk.{entries}
use libsrsirc.Skmap.Entries.{Holds, Holds-All, view_congr, view-Holds}
use libsrsirc.Skmap.Put.{enough}
use libsrsirc.Ucbase.Store.{User, Chan, Grant, Ctx}
use libsrsirc.Ucbase.Sound.{IsSound, IsWhole, ChanIsThere}
use libsrsirc.Ucbase.Users.{get_user, add_user, nick_of}
use libsrsirc.Ucbase.Users.Add.{
  IsFresh, Memory, Memory-enough, KeepsStore, IsNew, add_user-UserAdded,
}
use libsrsirc.Ucbase.Members.Add.{Adds, member_of, add_memb-Adds}
use libsrsirc.Ucbase.Members.Drop.{Drops, drop_user-Drops}
use libsrsirc.Track.{enter_chan, find_or_add, handle_join, alloc_err}
use libsrsirc.Proto.{Tokarr}
use libsrsirc.Logon.{same_nick}
use libsrsirc.Ucbase.Channels.{get_chan}

-- The user of `ident` is a member of the channel `c`, which was `k`; nobody else is touched.
pub record Enters (ident mpfx : Bytes) (c : ℕ) (k : Chan) (x y : Ctx) : Type 0 where
  pub sound : IsSound y
  pub who : ℕ
  pub looks :
      (r : Bytes)
      → view y.users r ≡ (if pfxeq ident r x.users.cmap then some who else view x.users r)
  pub after : Chan
  pub is : y.chan_at c ≡ some after
  pub else_same : record after { memb = k.memb } ≡ k
  pub reads :
      (r : Bytes)
      → view after.memb r
        ≡ (if pfxeq ident r x.users.cmap then some (member_of who mpfx) else view k.memb r)
  pub other_chans : (b : ℕ) → b ≢ c → y.chan_at b ≡ x.chan_at b
  pub rest :
      record y { users = x.users; chan_at = x.chan_at; user_at = x.user_at; clock = x.clock } ≡ x

-- There is not enough memory: what nicks lead to, the map of the channels but for its cursors, and the
-- members of the channel `c` are as they were.
pub record Refuses (c : ℕ) (k : Chan) (x y : Ctx) : Type 0 where
  pub sound : IsSound y
  pub lacks : ¬ Memory x.grants
  pub looks : (r : Bytes) → view y.users r ≡ view x.users r
  pub after : Chan
  pub is : y.chan_at c ≡ some after
  pub else_same : record after { memb = k.memb } ≡ k
  pub reads : (r : Bytes) → view after.memb r ≡ view k.memb r
  pub same_chans : Same x.chans y.chans
  pub rest :
      record y {
        chans = x.chans;
        users = x.users;
        chan_at = x.chan_at;
        user_at = x.user_at;
        clock = x.clock;
      }
      ≡ x

abbrev pub Entry : Bytes → Bytes → ℕ → Chan → Ctx → Type 0
Entry ident mpfx c k x =
    (y : Ctx) × (((enter_chan c ident mpfx x ≡ ok (0, y)) × Enters ident mpfx c k x y)
      ⊎ ((enter_chan c ident mpfx x ≡ ok (33, y)) × Refuses c k x y))

module _ (ident mpfx : Bytes) (c : ℕ) (k : Chan) (x : Ctx) (sound : IsSound x)
    (is : x.chan_at c ≡ some k) (whole : IsWhole x.users k) where
  -- A user that the store knows.
  pub known-Entry : (u : ℕ) → view x.users ident ≡ some u → Entry ident mpfx c k x
  unfolding enter_chan find_or_add get_user
  known-Entry u e =
      let (v, here, eq) = sound.user_of ident u e in
      let found : view x.users v.nick ≡ some u = view_congr x.users v.nick ident eq ∙ e in
      let (y, ran, adds) = add_memb-Adds u v c k mpfx x sound here found is whole in
      let looked = get-view x.users ident sound.users_valid in
      let users_is : y.users ≡ x.users = ap (λ (d : Ctx). d.users) adds.rest in
      let same = λ (r : Bytes). pfxeq_congr x.users.cmap v.nick ident r eq in
      let old = λ (r : Bytes). ap (λ h. view {V = ℕ} h r) users_is in
      elim (Bool-cases
        (is_some (x.grants x.clock).block && enough (x.grants (x.clock + 1)).put k.memb v.nick)) [
          | inl p ↦ (
            y,
            inl (
              ground arith,
              record {
                sound = adds.sound;
                who = u;
                looks = λ r. elim (Bool-cases (pfxeq ident r x.users.cmap)) [
                  | inl f ↦ old r ∙ sym (view_congr x.users ident r f) ∙ e ∙ rw f
                  | inr f ↦ old r ∙ rw f
                ];
                after = adds.after;
                is = adds.is;
                else_same = adds.else_same;
                reads = λ r. ground (arith, adds.reads r, same r);
                other_chans = adds.other_chans;
                rest = ap (λ (d : Ctx). record d { users = x.users }) adds.rest;
              },
            ),
          )
          | inr p ↦ (
            y,
            inr (
              ground arith,
              record {
                sound = adds.sound;
                lacks = λ all.
                    ground
                      (arith, all x.clock, Memory-enough x.grants (x.clock + 1) k.memb v.nick all);
                looks = old;
                after = adds.after;
                is = adds.is;
                else_same = adds.else_same;
                reads = λ r. ground (arith, adds.reads r);
                same_chans =
                    subst (λ h. Same x.chans h) (sym (ap (λ (d : Ctx). d.chans) adds.rest))
                      (Same-refl x.chans);
                rest = ap (λ (d : Ctx). record d { chans = x.chans; users = x.users }) adds.rest;
              },
            ),
          )
        ]
