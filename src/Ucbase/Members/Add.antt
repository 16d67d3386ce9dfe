-- ===== src/Ucbase/Members/Add.antt =====
-- What `lsi_ucb_add_memb` does to the store.
use libsrsirc.Base.{
  ℕ, ◌+◌, ◌≡◌, ◌≢◌, refl, sym, ap, subst, ◌∙◌, Bool, true, false, ◌&&◌, Bool-cases, Option-cases,
  inl, inr, some, Bytes, if◌then◌else◌, ==_iff, ==_refl, take, is_some, arith,
}
use libsrsirc.Base.Mem.{ok}
use libsrsirc.Key.{pfxeq}
use libsrsirc.Skmap
use libsrsirc.Skmap.{Skmap, Allocs}
use libsrsirc.Skmap.View.{view}
use libsrsirc.Skmap.Entries.{view_congr}
use libsrsirc.Skmap.Put.{Puts, put-Puts, cmap-put, enough}
use libsrsirc.Ucbase.Store.{User, Member, Chan, Ctx, update, up}
use libsrsirc.Ucbase.Sound.{IsSound, IsWhole, write_chan-IsSound, write_user-IsSound}
use libsrsirc.Ucbase.Members.{add_memb, alloc_memb, put_memb}

-- The member that is made.
abbrev pub member_of : ℕ → Bytes → Member
member_of u mpfx = record { user = u; modepfx = take 7 mpfx }

-- What adding the user `u`, who is `v`, to the channel `c`, which is `k`, does; `done` is the result.
pub record Adds (u : ℕ) (v : User) (c : ℕ) (k : Chan) (mpfx : Bytes) (x : Ctx) (done : Bool)
    (y : Ctx) : Type 0 where
  pub sound : IsSound y
  pub after : Chan
  pub is : y.chan_at c ≡ some after
  pub else_same : record after { memb = k.memb } ≡ k
  pub reads :
      (r : Bytes)
      → view after.memb r
        ≡ (if done && pfxeq v.nick r x.users.cmap then some (member_of u mpfx) else view k.memb r)
  pub user_after : User
  pub user_is : y.user_at u ≡ some user_after
  pub counts : user_after ≡ record v { nchans = if done then up v.nchans else v.nchans }
  pub other_users : (b : ℕ) → b ≢ u → y.user_at b ≡ x.user_at b
  pub other_chans : (b : ℕ) → b ≢ c → y.chan_at b ≡ x.chan_at b
  pub rest : record y { chan_at = x.chan_at; user_at = x.user_at; clock = x.clock } ≡ x

module _ (u : ℕ) (v : User) (c : ℕ) (k : Chan) (mpfx : Bytes) (x : Ctx) (sound : IsSound x)
    (here : x.user_at u ≡ some v) (found : view x.users v.nick ≡ some u) (is : x.chan_at c ≡ some k)
    (whole : IsWhole x.users k) where
  abbrev at : ℕ → Ctx
  at n = record x { clock = n }

  at-IsSound : (n : ℕ) → IsSound (at n)
  at-IsSound n = record {
    users_valid = sound.users_valid;
    chans_valid = sound.chans_valid;
    chans_walkable = sound.chans_walkable;
    user_of = sound.user_of;
    chan_of = sound.chan_of;
  }

  module _ (al : Allocs) where
    abbrev put_done : Skmap Member × Bool
    put_done = Skmap.put al k.memb (some v.nick) (some (member_of u mpfx))

    abbrev written : Chan
    written = record k { memb = put_done.0 }

    puts : Puts al k.memb v.nick (member_of u mpfx) put_done
    puts = put-Puts al k.memb whole.memb_valid v.nick (member_of u mpfx)

    put_reads :
        (r : Bytes)
        → view put_done.0 r ≡ (
            if put_done.1 && pfxeq v.nick r x.users.cmap
            then some (member_of u mpfx)
            else view k.memb r)
    put_reads r =
        puts.reads r
        ∙ ap
            (λ m. if put_done.1 && pfxeq v.nick r m then some (member_of u mpfx) else view k.memb r)
            whole.memb_cmap

    written-IsWhole : IsWhole x.users written
    written-IsWhole = record {
      memb_valid = puts.valid;
      memb_cmap = cmap-put al k.memb v.nick (member_of u mpfx) ∙ whole.memb_cmap;
      memb_user = λ q n e. elim (Bool-cases (put_done.1 && pfxeq v.nick q x.users.cmap)) [
        | inr p ↦ whole.memb_user q n (ground (arith, put_reads q))
        | inl p ↦
            let same : member_of u mpfx ≡ n = ground (arith, put_reads q) in
            let fits : pfxeq v.nick q x.users.cmap ≡ true = ground arith in
            sym (view_congr x.users v.nick q fits) ∙ found ∙ ap (λ (j : Member). some j.user) same
      ];
    }

  abbrev room : Bool
  room = is_some (x.grants x.clock).block && enough (x.grants (x.clock + 1)).put k.memb v.nick

  add_memb-cases :
      (d : Bool) × (y : Ctx) × (add_memb c u mpfx x ≡ ok (d, y))
      × Adds u v c k mpfx x d y
      × (d ≡ room)
  unfolding add_memb alloc_memb put_memb
  add_memb-cases = elim (Option-cases (x.grants x.clock).block) [
    | inl e ↦ (
      false,
      at (x.clock + 1),
      ground arith,
      record {
        sound = at-IsSound (x.clock + 1);
        after = k;
        is = is;
        else_same = refl;
        reads = λ r. refl;
        user_after = v;
        user_is = here;
        counts = refl;
        other_users = λ b ne. refl;
        other_chans = λ b ne. refl;
        rest = refl;
      },
      ground arith,
    )
    | inr (b, e) ↦
        let al = (x.grants (x.clock + 1)).put in
        let n = x.clock + 1 + 1 in
        let returns = (puts al).returns in
        let stored = write_chan-IsSound (at n) c (written al) (at-IsSound n) (written-IsWhole al) in
        let x1 : Ctx = record x { chan_at = update x.chan_at c (some (written al)); clock = n } in
        elim (Bool-cases (put_done al).1) [
          | inl p ↦
              let w : User = record v { nchans = up v.nchans } in
              (
                true,
                record x1 { user_at = update x.user_at u (some w) },
                ground arith,
                record {
                  sound = write_user-IsSound x1 u v w stored here refl;
                  after = written al;
                  is = ground (arith, ==_refl c);
                  else_same = refl;
                  reads = λ r. ground (arith, put_reads al r);
                  user_after = w;
                  user_is = ground (arith, ==_refl u);
                  counts = refl;
                  other_users = λ b ne. ground (arith, ==_iff b u);
                  other_chans = λ b ne. ground (arith, ==_iff b c);
                  rest = refl;
                },
                ground arith,
              )
          | inr p ↦ (
            false,
            x1,
            ground arith,
            record {
              sound = stored;
              after = written al;
              is = ground (arith, ==_refl c);
              else_same = refl;
              reads = λ r. ground (arith, put_reads al r);
              user_after = v;
              user_is = here;
              counts = refl;
              other_users = λ b ne. refl;
              other_chans = λ b ne. ground (arith, ==_iff b c);
              rest = refl;
            },
            ground arith,
          )
        ]
  ]

  -- Adding a member to a channel of a sound store succeeds exactly where there is memory for it. Then
  -- the user is the only member that changes, and is counted in one more channel.
  pub add_memb-Adds : (y : Ctx) × (add_memb c u mpfx x ≡ ok (room, y)) × Adds u v c k mpfx x room y
  add_memb-Adds =
      let (d, y, ran, adds, e) = add_memb-cases in
      subst (λ b. (z : Ctx) × (add_memb c u mpfx x ≡ ok (b, z)) × Adds u v c k mpfx x b z) e
        (y, ran, adds)
