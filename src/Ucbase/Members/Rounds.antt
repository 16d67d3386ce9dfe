-- ===== src/Ucbase/Members/Rounds.antt =====
-- The rounds of the loop of `lsi_ucb_drop_user` over the channels.
use libsrsirc.Base.{
  ℕ, ◌≡◌, ◌≢◌, refl, sym, ap, subst, ◌∙◌, ◌⊎◌, inl, inr, true, false, Bool-cases, Option-cases,
  Option, none, some, List, ◌∷◌, All, Bytes, ◌==◌, if◌then◌else◌, ==_refl, ==_iff, arith,
}
use libsrsirc.Base.Mem.{ok}
use libsrsirc.Key.{pfxeq}
use libsrsirc.Skmap
use libsrsirc.Skmap.View.{IsValid, view}
use libsrsirc.Skmap.Walk.{entries}
use libsrsirc.Skmap.Del.{del-Dels, cmap-del}
use libsrsirc.Skmap.Cursors.{Same, Same-trans}
use libsrsirc.Skmap.Entries.{Holds, Holds-All}
use libsrsirc.Skmap.{Skmap}
use libsrsirc.Cmap.{Casemap}
use libsrsirc.Ucbase.Store.{User, Member, Chan, Ctx, update, down}
use libsrsirc.Ucbase.Sound.{All-imp}
use libsrsirc.Ucbase.Members.{leave, del_memb, drop_memb, drop_from}

-- The users after a step: the user `u` is there under its nick, and no other user is changed.
abbrev pub KeepsUsers : ℕ → User → (ℕ → Option User) → (ℕ → Option User) → Type 0
KeepsUsers u v before after =
    ((w : User) × (after u ≡ some w) × (w.nick ≡ v.nick)) × ((b : ℕ) → b ≢ u → after b ≡ before b)

-- The channel without the member of the nick.
abbrev pub without : Chan → Bytes → Chan
without k nick = record k { memb = (Skmap.del k.memb nick).0 }

leave-lem :
    (u : ℕ) (v : User) (x : Ctx)
    → x.user_at u ≡ some v
    → leave u false x
      ≡ ok (
        tt,
        record x { user_at = update x.user_at u (some (record v { nchans = down v.nchans })) },
      )
unfolding leave
leave-lem u v x e = ground arith

drop_from-lem :
    (u c : ℕ) (v : User) (k : Chan) (x : Ctx)
    → x.user_at u ≡ some v
    → x.chan_at c ≡ some k
    → IsValid k.memb
    → ((m : Member) → view k.memb v.nick ≡ some m → m.user ≡ u)
    → (f : ℕ → Option User) × (drop_from u c x
        ≡ ok (
          true,
          record x { chan_at = update x.chan_at c (some (without k v.nick)); user_at = f },
        ))
      × KeepsUsers u v x.user_at f
unfolding drop_from drop_memb del_memb
drop_from-lem u c v k x hu hc valid owner =
    let d = del-Dels k.memb valid v.nick in
    elim (Option-cases (Skmap.del k.memb v.nick).1) [
      | inl e ↦ (x.user_at, ground arith, ((v, hu, refl), λ b ne. refl))
      | inr (m, e) ↦
          let same : m.user ≡ u = owner m (sym d.returns ∙ e) in
          (
            update x.user_at u (some (record v { nchans = down v.nchans })),
            ground (
              arith,
              leave-lem u v (record x { chan_at = update x.chan_at c (some (without k v.nick)) })
                  hu,
            ),
            ((record v { nchans = down v.nchans }, ground arith, refl), λ b ne. ground arith),
          )
    ]

-- The user `u`, who is `v`, leaves every channel of the store `x`, from which it was taken already.
module _ (u : ℕ) (v : User) (m : Casemap) (x : Ctx) where
  abbrev all : List (Bytes × ℕ)
  all = entries x.chans.buck

  -- A channel of the store that has all its members but, maybe, those of the nick.
  pub record Trim (at : ℕ → Option Chan) (a : ℕ) : Type 0 where
    pub before : Chan
    pub after : Chan
    pub was : x.chan_at a ≡ some before
    pub is : at a ≡ some after
    pub else_same : record after { memb = before.memb } ≡ before
    pub valid : IsValid after.memb
    pub maps : after.memb.cmap ≡ m
    pub owner : (n : Member) → view before.memb v.nick ≡ some n → n.user ≡ u
    pub reads :
        (r : Bytes)
        → (view after.memb r ≡ view before.memb r)
          ⊎ ((pfxeq v.nick r m ≡ true) × (view after.memb r ≡ none))

  -- The channel has no member of the nick.
  abbrev pub Gone : (ℕ → Option Chan) → ℕ → Type 0
  Gone at a =
      (k : Chan) → at a ≡ some k → (r : Bytes) → pfxeq v.nick r m ≡ true → view k.memb r ≡ none

  -- Between two rounds, with the entries that are left.
  pub record Dropping (left : List (Bytes × ℕ)) (y : Ctx) : Type 0 where
    pub within : All (λ (e : Bytes × ℕ). Holds e.1 all) left
    pub trims : All (λ (e : Bytes × ℕ). Trim y.chan_at e.1) all
    pub gone : (a : ℕ) → Holds a all → Holds a left ⊎ Gone y.chan_at a
    pub others : (a : ℕ) → ¬ Holds a all → y.chan_at a ≡ x.chan_at a
    pub users : KeepsUsers u v x.user_at y.user_at
    pub moved : Same x.chans y.chans
    pub rest : record y { chans = x.chans; chan_at = x.chan_at; user_at = x.user_at } ≡ x

  pub moves-Dropping :
      (es : List (Bytes × ℕ)) (y : Ctx) (h : Skmap ℕ)
      → Same y.chans h
      → Dropping es y
      → Dropping es (record y { chans = h })
  moves-Dropping es y h s d = record {
    within = d.within;
    trims = d.trims;
    gone = d.gone;
    others = d.others;
    users = d.users;
    moved = Same-trans d.moved s;
    rest = d.rest;
  }

  module _ (a : ℕ) (at : ℕ → Option Chan) (w : User) (same_nick : w.nick ≡ v.nick) where
    abbrev after_drop : Chan → ℕ → Option Chan
    after_drop k = update at a (some (without k w.nick))

    reads-without :
        (k : Chan)
        → IsValid k.memb
        → k.memb.cmap ≡ m
        → (r : Bytes)
        → view (without k w.nick).memb r ≡ (if pfxeq v.nick r m then none else view k.memb r)
    reads-without k valid maps r =
        (del-Dels k.memb valid w.nick).reads r
        ∙ ap (λ q. if pfxeq q r k.memb.cmap then none else view k.memb r) same_nick
        ∙ ap (λ c. if pfxeq v.nick r c then none else view k.memb r) maps

    trim-step : (k : Chan) → at a ≡ some k → (b : ℕ) → Trim at b → Trim (after_drop k) b
    trim-step k is b t = elim (Bool-cases (b == a)) [
      | inr ne ↦ record {
        before = t.before;
        after = t.after;
        was = t.was;
        is = ground arith;
        else_same = t.else_same;
        valid = t.valid;
        maps = t.maps;
        owner = t.owner;
        reads = t.reads;
      }
      | inl e ↦
          let k_is : t.after ≡ k = ground (arith, t.is) in
          record {
            before = t.before;
            after = without t.after w.nick;
            was = t.was;
            is = ground (arith, t.is);
            else_same = t.else_same;
            valid = (del-Dels t.after.memb t.valid w.nick).valid;
            maps = cmap-del t.after.memb w.nick ∙ t.maps;
            owner = t.owner;
            reads = λ r. ground (arith, t.reads r, reads-without t.after t.valid t.maps r);
          }
    ]

    Gone-here : (k : Chan) → IsValid k.memb → k.memb.cmap ≡ m → Gone (after_drop k) a
    Gone-here k valid maps k' is r e =
        let same : without k w.nick ≡ k' = ground (arith, ==_refl a) in
        subst (λ (j : Chan). view j.memb r ≡ none) same
          (ground (arith, reads-without k valid maps r))

    Gone-step :
        (k : Chan) → IsValid k.memb → k.memb.cmap ≡ m → (b : ℕ) → Gone at b → Gone (after_drop k) b
    Gone-step k valid maps b g k' is r e = elim (Bool-cases (b == a)) [
      | inr ne ↦ g k' (ground arith) r e
      | inl eq ↦
          subst (λ c. Gone (after_drop k) c) (sym ((==_iff b a).0 eq)) (Gone-here k valid maps) k'
            is r e
    ]

  -- A round of the loop.
  pub run-Dropping :
      (e : Bytes × ℕ) (es : List (Bytes × ℕ)) (y : Ctx)
      → Dropping (e ∷ es) y
      → (z : Ctx) × (drop_from u e.1 y ≡ ok (true, z)) × Dropping es z × (z.chans ≡ y.chans)
  run-Dropping e es y d =
      let ((w, here, same), kept) = d.users in
      let t : Trim y.chan_at e.1 = Holds-All (Trim y.chan_at) e.1 all d.within.0 d.trims in
      let owns = λ (n : Member) (h : view t.after.memb w.nick ≡ some n). owner-after t w same n h in
      let (f, ran, ((w', here', same'), kept')) =
        drop_from-lem u e.1 w t.after y here t.is t.valid owns in
      let at = update y.chan_at e.1 (some (without t.after w.nick)) in
      (
        record y { chan_at = at; user_at = f },
        ran,
        record {
          within = d.within.1;
          trims = All-imp (λ b. trim-step e.1 y.chan_at w same t.after t.is b.1) all d.trims;
          gone = λ b h. elim (d.gone b h) [
            | inl (inl eq) ↦
                inr (subst (Gone at) eq (Gone-here e.1 y.chan_at w same t.after t.valid t.maps))
            | inl (inr h') ↦ inl h'
            | inr g ↦ inr (Gone-step e.1 y.chan_at w same t.after t.valid t.maps b g)
          ];
          others = λ b out. elim (Bool-cases (b == e.1)) [
            | inl eq ↦
                absurd (out (subst (λ c. Holds c all) (sym ((==_iff b e.1).0 eq)) d.within.0))
            | inr ne ↦ ground (arith, d.others b out)
          ];
          users = ((w', here', same' ∙ same), λ b ne. kept' b ne ∙ kept b ne);
          moved = d.moved;
          rest = d.rest;
        },
        refl,
      )
    where
      owner-after :
          (t : Trim y.chan_at e.1) (w : User)
          → w.nick ≡ v.nick
          → (n : Member) → view t.after.memb w.nick ≡ some n
          → n.user ≡ u
      owner-after t w same n h =
          ground (arith, t.owner n, t.reads v.nick, ap (view t.after.memb) same)
