-- ===== src/Ucbase/Members/Drop.antt =====
-- What `lsi_ucb_drop_user` does to the store.
use libsrsirc.Base.{
  ℕ, ◌≡◌, ◌≢◌, refl, sym, ap, subst, ◌∙◌, inl, inr, true, Bool-cases, none, some, List, [], All,
  Bytes, ◌==◌, if◌then◌else◌, ==_refl, ==_iff, arith,
}
use libsrsirc.Base.Mem.{ok}
use libsrsirc.Key.{pfxeq}
use libsrsirc.Skmap
use libsrsirc.Skmap.View.{IsValid, view}
use libsrsirc.Skmap.Walk.{entries}
use libsrsirc.Skmap.Del.{Dels, del-Dels, cmap-del}
use libsrsirc.Skmap.Cursors.{Same, Same-refl, IsValid-Same, Walkable-Same, entries-Same}
use libsrsirc.Skmap.Entries.{Holds-within, Holds, Holds-All}
use libsrsirc.Skmap.{Skmap}
use libsrsirc.Cmap.{Casemap}
use libsrsirc.Ucbase.Store.{User, Member, Chan, Ctx, update}
use libsrsirc.Ucbase.Sound.{All-imp, IsSound, ChanIsThere}
use libsrsirc.Ucbase.Channels.Loops.{each_chan-rule}
use libsrsirc.Ucbase.Members.{drop_from, drop_user}
use libsrsirc.Ucbase.Members.Rounds.{Trim, Dropping, moves-Dropping, run-Dropping}

-- What dropping the user `u`, who is `v`, does to the store: the nick leads nowhere any more, nobody
-- else is touched, and every channel has all its members but the user.
pub record Drops (u : ℕ) (v : User) (x y : Ctx) : Type 0 where
  pub sound : IsSound y
  pub looks :
      (r : Bytes) → view y.users r ≡ (if pfxeq v.nick r x.users.cmap then none else view x.users r)
  pub freed : y.user_at u ≡ none
  pub others : (b : ℕ) → b ≢ u → y.user_at b ≡ x.user_at b
  pub moved : Same x.chans y.chans
  pub left :
      (a : ℕ)
      → Holds a (entries x.chans.buck)
      → (before : Chan) × (after : Chan) × (x.chan_at a ≡ some before)
        × (y.chan_at a ≡ some after)
        × (record after { memb = before.memb } ≡ before)
        × ((r : Bytes)
            → view after.memb r
              ≡ (if pfxeq v.nick r x.users.cmap then none else view before.memb r))
  pub no_others : (a : ℕ) → ¬ Holds a (entries x.chans.buck) → y.chan_at a ≡ x.chan_at a
  pub rest :
      record y { chans = x.chans; users = x.users; chan_at = x.chan_at; user_at = x.user_at } ≡ x

module _ (u : ℕ) (v : User) (x : Ctx) (sound : IsSound x) (here : x.user_at u ≡ some v)
    (found : view x.users v.nick ≡ some u) where
  abbrev nick_dels : Dels x.users v.nick (Skmap.del x.users v.nick)
  nick_dels = del-Dels x.users sound.users_valid v.nick

  -- The store when the loop starts.
  abbrev taken : Ctx
  taken = record x { users = (Skmap.del x.users v.nick).0 }

  abbrev fold : Casemap
  fold = x.users.cmap

  trim-start : (a : ℕ) → ChanIsThere x a → Trim u v fold taken x.chan_at a
  trim-start a (k, is, whole) = record {
    before = k;
    after = k;
    was = is;
    is = is;
    else_same = refl;
    valid = whole.memb_valid;
    maps = whole.memb_cmap;
    owner = λ n h. ground (arith, whole.memb_user v.nick n h);
    reads = λ r. inl refl;
  }

  start-Dropping : Dropping u v fold taken (entries x.chans.buck) taken
  start-Dropping = record {
    within = Holds-within (entries x.chans.buck);
    trims = All-imp (λ e. trim-start e.1) (entries x.chans.buck) sound.chan_of;
    gone = λ a h. inl h;
    others = λ a out. refl;
    users = ((v, here, refl), λ b ne. refl);
    moved = Same-refl x.chans;
    rest = refl;
  }

  module _ (z : Ctx) (d : Dropping u v fold taken [] z) where
    abbrev freed_store : Ctx
    freed_store = record z { user_at = update z.user_at u none }

    trimmed : (a : ℕ) → Holds a (entries x.chans.buck) → Trim u v fold taken z.chan_at a
    trimmed a h = Holds-All (Trim u v fold taken z.chan_at) a (entries x.chans.buck) h d.trims

    trimmed-reads :
        (a : ℕ) (h : Holds a (entries x.chans.buck)) (r : Bytes)
        → view (trimmed a h).after.memb r
          ≡ (if pfxeq v.nick r fold then none else view (trimmed a h).before.memb r)
    trimmed-reads a h r = elim (d.gone a h) [
      | inl none_left ↦ absurd none_left
      | inr g ↦
          let t = trimmed a h in
          elim (Bool-cases (pfxeq v.nick r fold)) [
            | inl e ↦ rw e (g t.after t.is r e)
            | inr e ↦ ground (arith, t.reads r)
          ]
    ]

    looks-lem :
        (r : Bytes) → view z.users r ≡ (if pfxeq v.nick r fold then none else view x.users r)
    looks-lem r = ap (λ (c : Ctx). view c.users r) d.rest ∙ nick_dels.reads r

    users_is : z.users ≡ taken.users
    users_is = ap (λ (c : Ctx). c.users) d.rest

    cmap_is : z.users.cmap ≡ fold
    cmap_is = ap (λ (h : Skmap ℕ). h.cmap) users_is ∙ cmap-del x.users v.nick

    memb_user-after :
        (a : ℕ) (h : Holds a (entries x.chans.buck)) (q : Bytes) (n : Member)
        → view (trimmed a h).after.memb q ≡ some n
        → view z.users q ≡ some n.user
    memb_user-after a h q n e =
        let t = trimmed a h in
        let (k, is, whole) = Holds-All (ChanIsThere x) a (entries x.chans.buck) h sound.chan_of in
        let same : k ≡ t.before = ground (arith, t.was) in
        let owner = λ (f : view t.before.memb q ≡ some n).
          whole.memb_user q n (subst (λ (j : Chan). view j.memb q ≡ some n) (sym same) f) in
        elim (Bool-cases (pfxeq v.nick q fold)) [
          | inl p ↦ absurd (ground (arith, trimmed-reads a h q))
          | inr p ↦ looks-lem q ∙ rw p (owner (ground (arith, trimmed-reads a h q)))
        ]

    whole-after : (a : ℕ) → Holds a (entries x.chans.buck) → ChanIsThere freed_store a
    whole-after a h =
        let t = trimmed a h in
        (
          t.after,
          t.is,
          record {
            memb_valid = t.valid;
            memb_cmap = t.maps ∙ sym cmap_is;
            memb_user = memb_user-after a h;
          },
        )

    user-after :
        (q : Bytes) (a : ℕ)
        → view z.users q ≡ some a
        → (w : User) × (freed_store.user_at a ≡ some w) × (pfxeq w.nick q z.users.cmap ≡ true)
    user-after q a e = elim (Bool-cases (pfxeq v.nick q fold)) [
      | inl p ↦ absurd (ground (arith, looks-lem q))
      | inr p ↦
          let (w, is, eq) = sound.user_of q a (ground (arith, looks-lem q)) in
          elim (Bool-cases (a == u)) [
            | inl f ↦
                let at_u : x.user_at u ≡ some w =
                  subst (λ c. x.user_at c ≡ some w) ((==_iff a u).0 f) is in
                let w_is : w ≡ v = ground arith in
                absurd (ground (arith, ap (λ (s : User). pfxeq s.nick q fold) w_is))
            | inr f ↦ (w, ground (arith, d.users.1 a, ==_iff a u), ap (pfxeq w.nick q) cmap_is ∙ eq)
          ]
    ]

    All-Holds :
        (es : List (Bytes × ℕ))
        → All (λ (e : Bytes × ℕ). Holds e.1 (entries x.chans.buck)) es
        → All (λ (e : Bytes × ℕ). ChanIsThere freed_store e.1) es
    All-Holds es h = All-imp (λ e. whole-after e.1) es h

    freed-IsSound : IsSound freed_store
    freed-IsSound = record {
      users_valid = subst IsValid (sym users_is) nick_dels.valid;
      chans_valid = IsValid-Same d.moved sound.chans_valid;
      chans_walkable = Walkable-Same d.moved sound.chans_walkable;
      user_of = user-after;
      chan_of =
          subst (All (λ (e : Bytes × ℕ). ChanIsThere freed_store e.1)) (sym (entries-Same d.moved))
            (All-Holds (entries x.chans.buck) (Holds-within (entries x.chans.buck)));
    }

    freed-Drops : Drops u v x freed_store
    freed-Drops = record {
      sound = freed-IsSound;
      looks = looks-lem;
      freed = ground (arith, ==_refl u);
      others = λ b ne. ground (arith, d.users.1 b, ==_iff b u);
      moved = d.moved;
      left = λ a h.
          let t = trimmed a h in (t.before, t.after, t.was, t.is, t.else_same, trimmed-reads a h);
      no_others = d.others;
      rest = ap (λ (c : Ctx). record c { users = x.users }) d.rest;
    }

  -- A user that the users' map has under its nick is dropped from the store and from every channel.
  -- The store is sound, and it stays so.
  pub drop_user-Drops : (y : Ctx) × (drop_user u x ≡ ok (true, y)) × Drops u v x y
  unfolding drop_user
  drop_user-Drops =
      let (z, ran, d) =
        each_chan-rule (Dropping u v fold taken) (drop_from u) (moves-Dropping u v fold taken)
          (run-Dropping u v fold taken) taken sound.chans_valid sound.chans_walkable
          start-Dropping in
      let gone : (Skmap.del x.users v.nick).1 ≡ some u = nick_dels.returns ∙ found in
      (freed_store z d, ground (arith, ran), freed-Drops z d)
