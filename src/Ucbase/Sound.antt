-- ===== src/Ucbase/Sound.antt =====
-- When the store of users and channels is sound.
use libsrsirc.Base.{
  Bool-cases, inl, inr, ◌==◌, ==_iff, arith, refl, ap, sym, subst, ◌∙◌, List, [], ◌∷◌, ◌≡◌, true,
  some, All, Bytes, ℕ,
}
use libsrsirc.Key.{pfxeq}
use libsrsirc.Skmap.{Skmap}
use libsrsirc.Skmap.View.{IsValid, view}
use libsrsirc.Skmap.Walk.{entries}
use libsrsirc.Skmap.Cursors.{Walkable}
use libsrsirc.Ucbase.Store.{update, Member, Chan, User, Ctx}

pub All-imp :
    {A : Type 0} {P Q : A → Type 0} → ((a : A) → P a → Q a) → (as' : List A) → All P as' → All Q as'
All-imp f [] h = h
All-imp f (a ∷ as') (p, ps) = (f a p, All-imp f as' ps)

-- A channel that is there: its members stand under the nicks of users of the store.
pub record IsWhole (users : Skmap ℕ) (k : Chan) : Type 0 where
  pub memb_valid : IsValid k.memb
  pub memb_cmap : k.memb.cmap ≡ users.cmap
  pub memb_user : (q : Bytes) (m : Member) → view k.memb q ≡ some m → view users q ≡ some m.user

abbrev pub ChanIsThere : Ctx → ℕ → Type 0
ChanIsThere x a = (k : Chan) × (x.chan_at a ≡ some k) × IsWhole x.users k

-- The maps are well formed; a nick of the users' map leads to a user that is there and has this nick;
-- the entries of the channels' map are channels that are there.
pub record IsSound (x : Ctx) : Type 0 where
  pub users_valid : IsValid x.users
  pub chans_valid : IsValid x.chans
  pub chans_walkable : Walkable x.chans
  pub user_of :
      (q : Bytes) (a : ℕ)
      → view x.users q ≡ some a
      → (v : User) × (x.user_at a ≡ some v) × (pfxeq v.nick q x.users.cmap ≡ true)
  pub chan_of : All (λ (e : Bytes × ℕ). ChanIsThere x e.1) (entries x.chans.buck)

-- A step that changes users only, and neither their nicks nor their numbers of channels.
pub record Renews (x y : Ctx) : Type 0 where
  pub kept :
      (b : ℕ) (v : User)
      → x.user_at b ≡ some v
      → (w : User) × (y.user_at b ≡ some w) × (w.nick ≡ v.nick) × (w.nchans ≡ v.nchans)
  pub rest : record y { user_at = x.user_at; clock = x.clock } ≡ x

pub Renews-refl : (x : Ctx) → Renews x x
Renews-refl x = record { kept = λ b v e. (v, e, refl, refl); rest = refl }

pub Renews-trans : {x y z : Ctx} → Renews x y → Renews y z → Renews x z
Renews-trans {x} r s = record {
  kept = λ b v e.
      let (w, f, n, c) = r.kept b v e in
      let (w', f', n', c') = s.kept b w f in (w', f', n' ∙ n, c' ∙ c);
  rest = ap (λ (c : Ctx). record c { user_at = x.user_at; clock = x.clock }) s.rest ∙ r.rest;
}

pub Renews-IsSound : {x y : Ctx} → Renews x y → IsSound x → IsSound y
Renews-IsSound {x} {y} r s =
    subst (λ (c : Ctx). IsSound (record c { user_at = y.user_at; clock = y.clock })) (sym r.rest)
      (record {
        users_valid = s.users_valid;
        chans_valid = s.chans_valid;
        chans_walkable = s.chans_walkable;
        user_of = λ q a e.
            let (v, is, eq) = s.user_of q a e in
            let (w, is', n, c) = r.kept a v is in (w, is', ap (λ k. pfxeq k q x.users.cmap) n ∙ eq);
        chan_of = s.chan_of;
      })

-- A channel is written.
pub write_chan-IsSound :
    (x : Ctx) (c : ℕ) (k : Chan)
    → IsSound x
    → IsWhole x.users k
    → IsSound (record x { chan_at = update x.chan_at c (some k) })
write_chan-IsSound x c k s whole = record {
  users_valid = s.users_valid;
  chans_valid = s.chans_valid;
  chans_walkable = s.chans_walkable;
  user_of = s.user_of;
  chan_of =
      All-imp
        (λ (e : Bytes × ℕ) (there : ChanIsThere x e.1). elim (Bool-cases (e.1 == c)) [
          | inl p ↦ (k, ground arith, whole)
          | inr p ↦ (there.0, ground (arith, there.1), there.2)
        ])
        (entries x.chans.buck) s.chan_of;
}

-- A user that stays under its nick is written.
pub write_user-IsSound :
    (x : Ctx) (u : ℕ) (v w : User)
    → IsSound x
    → x.user_at u ≡ some v
    → w.nick ≡ v.nick
    → IsSound (record x { user_at = update x.user_at u (some w) })
write_user-IsSound x u v w s is same = record {
  users_valid = s.users_valid;
  chans_valid = s.chans_valid;
  chans_walkable = s.chans_walkable;
  user_of = λ q a e.
      let (v', is', eq) = s.user_of q a e in
      elim (Bool-cases (a == u)) [
        | inr p ↦ (v', ground arith, eq)
        | inl p ↦
            let is_v : x.user_at u ≡ some v' =
              subst (λ i. x.user_at i ≡ some v') ((==_iff a u).0 p) is' in
            let is_nick : v'.nick ≡ w.nick = ground arith in
            (w, ground arith, ap (λ n. pfxeq n q x.users.cmap) (sym is_nick) ∙ eq)
      ];
  chan_of = s.chan_of;
}
