-- ===== src/Ucbase/Users/Add.antt =====
-- What `lsi_ucb_add_user` does to the store.
use mathlib.Core.Path.{fun_ext}
use libsrsirc.Base.{
  ℕ, ◌+◌, ◌≡◌, refl, sym, ap, subst, ◌∙◌, ◌⊎◌, Bool, true, false, Bool-cases, Option-cases, inl,
  inr, Option, none, some, Bytes, ◌==◌, if◌then◌else◌, ==_iff, ==_refl, is_some, arith,
}
use libsrsirc.Base.Mem.{ok}
use libsrsirc.Key.{pfxeq}
use libsrsirc.Skmap
use libsrsirc.Skmap.{Skmap, Allocs}
use libsrsirc.Skmap.View.{view}
use libsrsirc.Skmap.Put.{Puts, put-Puts, cmap-put, enough}
use libsrsirc.Skmap.Walk.{entries}
use libsrsirc.Skmap.Entries.{view_congr}
use libsrsirc.Ucbase.Store.{User, Grant, Ctx, update}
use libsrsirc.Ucbase.Sound.{IsSound, ChanIsThere, Renews, Renews-IsSound, All-imp}
use libsrsirc.Ucbase.Users.{add_user, add_user_at, new_user, nick_of}
use libsrsirc.Ucbase.Users.Touch.{touch_user_int-Renews}

-- The blocks that an allocation gives are no users yet.
abbrev pub IsFresh : Ctx → Type 0
IsFresh x = (n a : ℕ) → (x.grants n).block ≡ some a → x.user_at a ≡ none

-- Every allocation succeeds.
abbrev pub Memory : (ℕ → Grant) → Type 0
Memory g =
    (n : ℕ)
    → (is_some (g n).block ≡ true)
      × ((g n).put.list ≡ true)
      × ((g n).put.dup ≡ true)
      × (is_some (g n).put.node ≡ true)

pub Memory-enough :
    {V : Type 0} (g : ℕ → Grant) (n : ℕ) (h : Skmap V) (k : Bytes)
    → Memory g
    → enough (g n).put h k ≡ true
unfolding enough
Memory-enough g n h k all = ground (arith, all n)

-- What stays when a user is looked for or added.
pub record KeepsStore (x y : Ctx) : Type 0 where
  pub sound : IsSound y
  pub cmap_is : y.users.cmap ≡ x.users.cmap
  pub nchans_kept :
      (b : ℕ) (v : User)
      → x.user_at b ≡ some v
      → (w : User) × (y.user_at b ≡ some w) × (w.nick ≡ v.nick) × (w.nchans ≡ v.nchans)
  pub rest : record y { users = x.users; user_at = x.user_at; clock = x.clock } ≡ x

-- A user is new under its nick.
pub record IsNew (nick : Bytes) (x : Ctx) (u : ℕ) (y : Ctx) : Type 0 where
  pub user_is : (w : User) × (y.user_at u ≡ some w) × (w.nick ≡ nick) × (w.nchans ≡ 0)
  pub looks :
      (r : Bytes) → view y.users r ≡ (if pfxeq nick r x.users.cmap then some u else view x.users r)

module _ (ident : Bytes) (x : Ctx) (sound : IsSound x) (fresh : IsFresh x)
    (absent : view x.users (nick_of ident) ≡ none) where
  abbrev nick : Bytes
  nick = nick_of ident

  at-IsSound : (n : ℕ) → IsSound (record x { clock = n })
  at-IsSound n = record {
    users_valid = sound.users_valid;
    chans_valid = sound.chans_valid;
    chans_walkable = sound.chans_walkable;
    user_of = sound.user_of;
    chan_of = sound.chan_of;
  }

  at-KeepsStore : (n : ℕ) → KeepsStore x (record x { clock = n })
  at-KeepsStore n = record {
    sound = at-IsSound n;
    cmap_is = refl;
    nchans_kept = λ b v e. (v, e, refl, refl);
    rest = refl;
  }

  module _ (a : ℕ) (al : Allocs) (n : ℕ) (unused : x.user_at a ≡ none) where
    abbrev put_done : Skmap ℕ × Bool
    put_done = Skmap.put al x.users (some nick) (some a)

    puts : Puts al x.users nick a put_done
    puts = put-Puts al x.users sound.users_valid nick a

    put_cmap : put_done.0.cmap ≡ x.users.cmap
    put_cmap = cmap-put al x.users nick a

    -- The store with the user, and without it where there was no memory.
    abbrev with_user : Option User → Ctx
    with_user o = record x { users = put_done.0; user_at = update x.user_at a o; clock = n }

    kept-user :
        (o : Option User) (b : ℕ) (v : User)
        → x.user_at b ≡ some v
        → update x.user_at a o b ≡ some v
    kept-user o b v e = elim (Bool-cases (b == a)) [
      | inr p ↦ ground arith
      | inl p ↦ absurd (cc (sym unused ∙ ap x.user_at (sym ((==_iff b a).0 p)), e))
    ]

    -- An old lookup leads where it led, since nobody had the nick.
    old-look : (q : Bytes) (c : ℕ) → view x.users q ≡ some c → view put_done.0 q ≡ some c
    old-look q c e = elim (Bool-cases (pfxeq nick q x.users.cmap)) [
      | inr p ↦ ground (arith, puts.reads q)
      | inl p ↦ absurd (cc (sym (view_congr x.users nick q p) ∙ absent, e))
    ]

    with_user-IsSound :
        (o : Option User)
        → ((q : Bytes) (c : ℕ)
            → view put_done.0 q ≡ some c
            → (v : User) × (update x.user_at a o c ≡ some v)
              × (pfxeq v.nick q put_done.0.cmap ≡ true))
        → IsSound (with_user o)
    with_user-IsSound o of = record {
      users_valid = puts.valid;
      chans_valid = sound.chans_valid;
      chans_walkable = sound.chans_walkable;
      user_of = of;
      chan_of =
          All-imp
            (λ (e : Bytes × ℕ) (t : ChanIsThere x e.1). (
              t.0,
              t.1,
              record {
                memb_valid = t.2.memb_valid;
                memb_cmap = t.2.memb_cmap ∙ sym put_cmap;
                memb_user = λ q m f. old-look q m.user (t.2.memb_user q m f);
              },
            ))
            (entries x.chans.buck) sound.chan_of;
    }

    with_user-KeepsStore : (o : Option User) → IsSound (with_user o) → KeepsStore x (with_user o)
    with_user-KeepsStore o s = record {
      sound = s;
      cmap_is = put_cmap;
      nchans_kept = λ b v e. (v, kept-user o b v e, refl, refl);
      rest = refl;
    }

    stored-user :
        put_done.1 ≡ true
        → (q : Bytes) (c : ℕ) → view put_done.0 q ≡ some c
        → (v : User) × (update x.user_at a (some (new_user nick)) c ≡ some v)
          × (pfxeq v.nick q put_done.0.cmap ≡ true)
    stored-user p q c e = elim (Bool-cases (pfxeq nick q x.users.cmap)) [
      | inl f ↦
          let c_is : a ≡ c = ground (arith, puts.reads q) in
          (
            new_user nick,
            subst (λ i. update x.user_at a (some (new_user nick)) i ≡ some (new_user nick)) c_is
                (ground (arith, ==_refl a)),
            ap (pfxeq nick q) put_cmap ∙ f,
          )
      | inr f ↦
          let (v, is, eq) = sound.user_of q c (ground (arith, puts.reads q)) in
          (v, kept-user (some (new_user nick)) c v is, ap (pfxeq v.nick q) put_cmap ∙ eq)
    ]

    unstored-user :
        put_done.1 ≡ false
        → (q : Bytes) (c : ℕ) → view put_done.0 q ≡ some c
        → (v : User) × (update x.user_at a none c ≡ some v)
          × (pfxeq v.nick q put_done.0.cmap ≡ true)
    unstored-user p q c e =
        let (v, is, eq) = sound.user_of q c (ground (arith, puts.reads q)) in
        (v, kept-user none c v is, ap (pfxeq v.nick q) put_cmap ∙ eq)

    freed-again : (w : User) → update (update x.user_at a (some w)) a none ≡ update x.user_at a none
    freed-again w = fun_ext λ b. ground arith

  KeepsStore-Renews : {y z : Ctx} → KeepsStore x y → Renews y z → KeepsStore x z
  KeepsStore-Renews {y} {z} k r = record {
    sound = Renews-IsSound r k.sound;
    cmap_is = ap (λ (c : Ctx). c.users.cmap) r.rest ∙ k.cmap_is;
    nchans_kept = λ b v e.
        let (w, f, n, c) = k.nchans_kept b v e in
        let (w', f', n', c') = r.kept b w f in (w', f', n' ∙ n, c' ∙ c);
    rest =
        ap (λ (c : Ctx). record c { users = x.users; user_at = x.user_at; clock = x.clock }) r.rest
        ∙ k.rest;
  }

  -- What `lsi_ucb_add_user` gives: nothing, with every lookup as it was, or a new user.
  abbrev pub UserAdded : Type 0
  UserAdded =
      ((y : Ctx) × (add_user ident x ≡ ok (none, y))
        × KeepsStore x y
        × ((r : Bytes) → view y.users r ≡ view x.users r)
        × ¬ Memory x.grants)
      ⊎ ((u : ℕ) × (y : Ctx) × (add_user ident x ≡ ok (some u, y))
          × KeepsStore x y
          × IsNew nick x u y)

  pub add_user-UserAdded : UserAdded
  unfolding add_user add_user_at
  add_user-UserAdded = elim (Option-cases (x.grants x.clock).block) [
    | inl e ↦ inl (
      record x { clock = x.clock + 1 },
      ground arith,
      at-KeepsStore (x.clock + 1),
      λ r. refl,
      λ all. ground (arith, all x.clock),
    )
    | inr (a, e) ↦ elim (Option-cases (x.grants (x.clock + 1)).block) [
      | inl f ↦ inl (
        record x { clock = x.clock + 1 + 1 },
        ground arith,
        at-KeepsStore (x.clock + 1 + 1),
        λ r. refl,
        λ all. ground (arith, all (x.clock + 1)),
      )
      | inr (b, f) ↦
          let n = x.clock + 1 + 1 + 1 in
          let al = (x.grants (x.clock + 1 + 1)).put in
          let unused = fresh x.clock a e in
          elim (Bool-cases (put_done a al n unused).1) [
            | inl p ↦
                let w = with_user a al n unused (some (new_user nick)) in
                let k = with_user-KeepsStore a al n unused (some (new_user nick)) (
                  with_user-IsSound a al n unused (some (new_user nick))
                    (stored-user a al n unused p)) in
                let (z, ran, r, touched_others) =
                  touch_user_int-Renews a ident w (new_user nick) (ground (arith, ==_refl a)) in
                let (v, is, nick_is, count) =
                  r.kept a (new_user nick) (ground (arith, ==_refl a)) in
                inr (
                  a,
                  z,
                  ground (arith, ran),
                  KeepsStore-Renews k r,
                  record {
                    user_is = (v, is, nick_is, count);
                    looks = λ q.
                        ap (λ (c : Ctx). view c.users q) r.rest
                        ∙ ground (arith, (puts a al n unused).reads q);
                  },
                )
            | inr p ↦
                let y = with_user a al n unused none in
                inl (
                  y,
                  ground (arith, freed-again a al n unused (new_user nick)),
                  with_user-KeepsStore a al n unused none
                      (with_user-IsSound a al n unused none (unstored-user a al n unused p)),
                  λ r. ground (arith, (puts a al n unused).reads r),
                  λ all. ground (
                    arith,
                    (puts a al n unused).returns,
                    Memory-enough x.grants (x.clock + 1 + 1) x.users nick all,
                  ),
                )
          ]
    ]
  ]
