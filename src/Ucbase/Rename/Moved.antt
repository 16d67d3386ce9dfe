-- ===== src/Ucbase/Rename/Moved.antt =====
-- What `lsi_ucb_rename_user` does to the store.
use libsrsirc.Base.{
  ℕ, ◌+◌, ◌≡◌, ◌≢◌, refl, sym, ap, subst, ◌∙◌, Bool, true, false, ◌&&◌, Bool-cases, Option-cases,
  inl, inr, Option, none, some, [], All, Bytes, ◌==◌, if◌then◌else◌, ==_refl, ==_iff, arith,
}
use libsrsirc.Base.Mem.{ok}
use libsrsirc.Cmap.{Casemap}
use libsrsirc.Key.{pfxeq}
use libsrsirc.Key.Laws.{pfxeq_congr, pfxeq_symm}
use libsrsirc.Logon.{same_nick}
use libsrsirc.Skmap
use libsrsirc.Skmap.{Skmap}
use libsrsirc.Skmap.View.{IsValid, view, get-view}
use libsrsirc.Skmap.Walk.{entries}
use libsrsirc.Skmap.Put.{Puts, put-Puts, cmap-put}
use libsrsirc.Skmap.Del.{Dels, del-Dels, cmap-del}
use libsrsirc.Skmap.Cursors.{Same, Same-refl, IsValid-Same, Walkable-Same, entries-Same}
use libsrsirc.Skmap.Entries.{Holds-within, Holds, Holds-All, view_congr}
use libsrsirc.Ucbase.Store.{User, Member, Chan, Ctx, update}
use libsrsirc.Ucbase.Sound.{IsSound, ChanIsThere, All-imp}
use libsrsirc.Ucbase.Users.{get_user, nick_of}
use libsrsirc.Ucbase.Channels.Loops.{each_chan-rule}
use libsrsirc.Ucbase.Rename.{rename_user, rename_to, rename_memb}
use libsrsirc.Ucbase.Rename.Rounds.{
  Plenty, Plenty-enough, renamed, Renamed, Renaming, moves-Renaming, run-Renaming,
}

-- The store `y` is `x` with the user `u`, who is `v`, under the nick `newnick` in place of `ident`.
pub record Moves (ident newnick : Bytes) (u : ℕ) (v : User) (x y : Ctx) : Type 0 where
  pub users_valid : IsValid y.users
  pub users_cmap : y.users.cmap ≡ x.users.cmap
  pub looks :
      (r : Bytes) → view y.users r ≡ renamed x.users.cmap ident newnick (some u) r (view x.users r)
  pub user_is : y.user_at u ≡ some (record v { nick = newnick })
  pub other_users : (b : ℕ) → b ≢ u → y.user_at b ≡ x.user_at b
  pub moved : Same x.chans y.chans
  pub members :
      (a : ℕ) → Holds a (entries x.chans.buck) → Renamed ident newnick x.users.cmap x y.chan_at a
  pub no_others : (a : ℕ) → ¬ Holds a (entries x.chans.buck) → y.chan_at a ≡ x.chan_at a
  pub rest :
      record y {
        chans = x.chans;
        users = x.users;
        chan_at = x.chan_at;
        user_at = x.user_at;
        clock = x.clock;
      }
      ≡ x

module _ (signed : Bool) (ident newnick : Bytes) (u b : ℕ) (v : User) (x : Ctx) (sound : IsSound x)
    (found : view x.users ident ≡ some u) (here : x.user_at u ≡ some v)
    (other : same_nick signed (nick_of ident) newnick x.casemap ≡ false) (memory : Plenty x.grants)
    (copied : (x.grants x.clock).block ≡ some b) where
  abbrev fold : Casemap
  fold = x.users.cmap

  abbrev put_users : Skmap ℕ × Bool
  put_users = Skmap.put (x.grants (x.clock + 1)).put x.users (some newnick) (some u)

  puts : Puts (x.grants (x.clock + 1)).put x.users newnick u put_users
  puts = put-Puts (x.grants (x.clock + 1)).put x.users sound.users_valid newnick u

  put_true : put_users.1 ≡ true
  put_true = puts.returns ∙ Plenty-enough x.grants (x.clock + 1) x.users newnick memory

  dels : Dels put_users.0 ident (Skmap.del put_users.0 ident)
  dels = del-Dels put_users.0 puts.valid ident

  -- The store when the loop starts.
  abbrev started : Ctx
  started = record x {
    users = (Skmap.del put_users.0 ident).0;
    user_at = update x.user_at u (some (record v { nick = newnick }));
    clock = x.clock + 1 + 1;
  }

  looks-lem :
      (r : Bytes) → view started.users r ≡ renamed fold ident newnick (some u) r (view x.users r)
  looks-lem r =
      dels.reads r
      ∙ ap (λ c. if pfxeq ident r c then none else view put_users.0 r)
          (cmap-put (x.grants (x.clock + 1)).put x.users newnick u)
      ∙ ap (λ o. if pfxeq ident r fold then none else o)
          (puts.reads r
            ∙ ap (λ t. if t && pfxeq newnick r fold then some u else view x.users r) put_true)

  start-Renaming : Renaming ident newnick fold started (entries x.chans.buck) started
  start-Renaming = record {
    within = Holds-within (entries x.chans.buck);
    opens =
        All-imp
          (λ (e : Bytes × ℕ) (t : ChanIsThere x e.1). (t.0, t.1, t.2.memb_valid, t.2.memb_cmap))
          (entries x.chans.buck) sound.chan_of;
    states = λ a h. inl (h, refl);
    others = λ a out. refl;
    moved = Same-refl x.chans;
    rest = refl;
  }

  Renamed-from :
      (at : ℕ → Option Chan) (a : ℕ)
      → Renamed ident newnick fold started at a
      → Renamed ident newnick fold x at a
  Renamed-from at a t = record {
    before = t.before;
    after = t.after;
    was = t.was;
    is = t.is;
    else_same = t.else_same;
    valid = t.valid;
    maps = t.maps;
    reads = t.reads;
  }

  renamed-Moves : (z : Ctx) → Renaming ident newnick fold started [] z → Moves ident newnick u v x z
  renamed-Moves z d =
      let users_is : z.users ≡ started.users = ap (λ (c : Ctx). c.users) d.rest in
      record {
        users_valid = subst IsValid (sym users_is) dels.valid;
        users_cmap =
            ap (λ (h : Skmap ℕ). h.cmap) users_is
            ∙ cmap-del put_users.0 ident
            ∙ cmap-put (x.grants (x.clock + 1)).put x.users newnick u;
        looks = λ r. ap (λ (h : Skmap ℕ). view h r) users_is ∙ looks-lem r;
        user_is = ap (λ (c : Ctx). c.user_at u) d.rest ∙ ground (arith, ==_refl u);
        other_users = λ c ne. ap (λ (k : Ctx). k.user_at c) d.rest ∙ ground (arith, ==_iff c u);
        moved = d.moved;
        members = λ a h. elim (d.states a h) [
          | inl (none_left, _) ↦ absurd none_left
          | inr t ↦ Renamed-from z.chan_at a t
        ];
        no_others = d.others;
        rest =
            ap (λ (c : Ctx). record c { users = x.users; user_at = x.user_at; clock = x.clock })
              d.rest;
      }

  -- A user of a sound store is renamed where there is memory and the new nick is not, for `istrcmp`,
  -- a spelling of the old one: the user is under the new nick in the users' map and in every channel
  -- that had it as a member, and the old nick leads nowhere, in any spelling. So both lead nowhere
  -- where they are one for the maps. Other nicks lead where they led.
  pub rename_user-Moves :
      (y : Ctx) × (rename_user signed ident newnick x ≡ ok ((true, false), y))
      × Moves ident newnick u v x y
  unfolding rename_user rename_to get_user
  rename_user-Moves =
      let (z, ran, d) =
        each_chan-rule (Renaming ident newnick fold started) (rename_memb ident newnick)
          (moves-Renaming ident newnick fold started)
          (run-Renaming ident newnick fold started memory) started sound.chans_valid
          sound.chans_walkable start-Renaming in
      (
        z,
        ground (arith, ran, get-view x.users ident sound.users_valid, put_true),
        renamed-Moves z d,
      )

-- The renamed store is sound where the new nick was free.
module _ (ident newnick : Bytes) (u : ℕ) (v : User) (x y : Ctx) (sound : IsSound x)
    (found : view x.users ident ≡ some u) (here : x.user_at u ≡ some v)
    (free : view x.users newnick ≡ none) (mv : Moves ident newnick u v x y) where
  apart : pfxeq ident newnick x.users.cmap ≡ false
  apart = elim (Bool-cases (pfxeq ident newnick x.users.cmap)) [
    | inr p ↦ p
    | inl p ↦ absurd (cc (sym (view_congr x.users ident newnick p) ∙ found, free))
  ]

  -- What another nick leads to is kept.
  kept-look :
      (q : Bytes) (a : ℕ)
      → pfxeq ident q x.users.cmap ≡ false
      → view x.users q ≡ some a
      → view y.users q ≡ some a
  kept-look q a p e = elim (Bool-cases (pfxeq newnick q x.users.cmap)) [
    | inl f ↦ absurd (cc (sym (view_congr x.users newnick q f) ∙ free, e))
    | inr f ↦ ground (arith, mv.looks q)
  ]

  new-look : (q : Bytes) → pfxeq newnick q x.users.cmap ≡ true → view y.users q ≡ some u
  new-look q p =
      let away : pfxeq ident q x.users.cmap ≡ false = ground (
        arith,
        apart,
        pfxeq_symm x.users.cmap ident newnick,
        pfxeq_symm x.users.cmap ident q,
        pfxeq_congr x.users.cmap newnick q ident p,
      ) in
      ground (arith, mv.looks q)

  user-after :
      (q : Bytes) (a : ℕ)
      → view y.users q ≡ some a
      → (w : User) × (y.user_at a ≡ some w) × (pfxeq w.nick q y.users.cmap ≡ true)
  user-after q a e = elim (Bool-cases (pfxeq ident q x.users.cmap)) [
    | inl p ↦ absurd (ground (arith, mv.looks q))
    | inr p ↦ elim (Bool-cases (pfxeq newnick q x.users.cmap)) [
      | inl f ↦
          let a_is : u ≡ a = ground (arith, mv.looks q) in
          (
            record v { nick = newnick },
            subst (λ i. y.user_at i ≡ some (record v { nick = newnick })) a_is mv.user_is,
            ap (pfxeq newnick q) mv.users_cmap ∙ f,
          )
      | inr f ↦
          let (w, is, eq) = sound.user_of q a (ground (arith, mv.looks q)) in
          elim (Bool-cases (a == u)) [
            | inr ne ↦ (
              w,
              ground (arith, mv.other_users a, ==_iff a u),
              ap (pfxeq w.nick q) mv.users_cmap ∙ eq,
            )
            | inl same ↦
                let a_is : a ≡ u = (==_iff a u).0 same in
                let w_is : w ≡ v = ground (arith, ap x.user_at a_is) in
                let (v', is', eq') = sound.user_of ident u found in
                let v_is : v' ≡ w = ground (arith, ap x.user_at a_is) in
                let fits : pfxeq w.nick ident x.users.cmap ≡ true =
                  subst (λ (s : User). pfxeq s.nick ident x.users.cmap ≡ true) v_is eq' in
                absurd (ground (arith, pfxeq_congr x.users.cmap w.nick ident q fits))
          ]
    ]
  ]

  chan-after : (a : ℕ) → Holds a (entries x.chans.buck) → ChanIsThere y a
  chan-after a h =
      let t = mv.members a h in
      let (k, is, whole) = Holds-All (ChanIsThere x) a (entries x.chans.buck) h sound.chan_of in
      let same : k ≡ t.before = ground (arith, t.was) in
      let owner = λ (q : Bytes) (n : Member) (f : view t.before.memb q ≡ some n).
        whole.memb_user q n (subst (λ (j : Chan). view j.memb q ≡ some n) (sym same) f) in
      (
        t.after,
        t.is,
        record {
          memb_valid = t.valid;
          memb_cmap = t.maps ∙ sym mv.users_cmap;
          memb_user = λ q n e. elim (Option-cases (view t.before.memb ident)) [
            | inl no_member ↦
                let was : view t.before.memb q ≡ some n = ground (arith, t.reads q) in
                elim (Bool-cases (pfxeq ident q x.users.cmap)) [
                  | inr p ↦ kept-look q n.user p (owner q n was)
                  | inl p ↦
                      let m_cmap : t.before.memb.cmap ≡ x.users.cmap =
                        ap (λ (j : Chan). j.memb.cmap) (sym same) ∙ whole.memb_cmap in
                      absurd (
                        cc (
                          sym (view_congr t.before.memb ident q (ap (pfxeq ident q) m_cmap ∙ p))
                              ∙ no_member,
                          was,
                        ))
                ]
            | inr (n0, had) ↦ elim (Bool-cases (pfxeq ident q x.users.cmap)) [
              | inl p ↦ absurd (ground (arith, t.reads q))
              | inr p ↦ elim (Bool-cases (pfxeq newnick q x.users.cmap)) [
                | inr f ↦ kept-look q n.user p (owner q n (ground (arith, t.reads q)))
                | inl f ↦
                    let n_is : n0 ≡ n = ground (arith, t.reads q) in
                    let u_is : n0.user ≡ u = ground (arith, owner ident n0 had) in
                    new-look q f ∙ ap some (sym u_is ∙ ap (λ (j : Member). j.user) n_is)
              ]
            ]
          ];
        },
      )

  -- A store whose user was renamed to a nick that was free is sound.
  pub Moves-IsSound : IsSound y
  Moves-IsSound = record {
    users_valid = mv.users_valid;
    chans_valid = IsValid-Same mv.moved sound.chans_valid;
    chans_walkable = Walkable-Same mv.moved sound.chans_walkable;
    user_of = user-after;
    chan_of = subst (All (λ (e : Bytes × ℕ). ChanIsThere y e.1)) (sym (entries-Same mv.moved)) (
        All-imp (λ e. chan-after e.1) (entries x.chans.buck) (Holds-within (entries x.chans.buck)));
  }
