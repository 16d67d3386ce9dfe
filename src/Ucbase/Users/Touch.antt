-- ===== src/Ucbase/Users/Touch.antt =====
-- Touching a user keeps the store sound.
use libsrsirc.Base.{
  ℕ, ◌+◌, ◌≡◌, ◌≢◌, refl, sym, ap, ◌∙◌, subst, not, ◌&&◌, Bool-cases, Option-cases, inl, inr,
  Option, none, some, Bytes, ◌==◌, if◌then◌else◌, ==_iff, is_some, arith,
}
use libsrsirc.Proto.{has_byte}
use libsrsirc.Text.Ident.{ident2uname, ident2host}
use libsrsirc.Base.Mem.{ok}
use libsrsirc.Skmap.View.{view, get-view}
use libsrsirc.Ucbase.Store.{User, Ctx, update}
use libsrsirc.Ucbase.Sound.{IsSound, Renews, Renews-refl, Renews-trans}
use libsrsirc.Ucbase.Users.{touch_uname, touch_host, touch_user_int, touch_user, get_user, piece}

-- A write of a user's name or host.
write-Renews :
    (a c : ℕ) (x : Ctx) (v w : User)
    → x.user_at a ≡ some v
    → w.nick ≡ v.nick
    → w.nchans ≡ v.nchans
    → Renews x (record x { user_at = update x.user_at a (some w); clock = c })
write-Renews a c x v w e same count = record {
  kept = λ b s f. elim (Bool-cases (b == a)) [
    | inl p ↦
        let f' : x.user_at a ≡ some s = subst (λ i. x.user_at i ≡ some s) ((==_iff b a).0 p) f in
        (w, ground arith, ground arith, ground arith)
    | inr p ↦ (s, ground arith, refl, refl)
  ];
  rest = refl;
}

-- No user but `a` is changed.
abbrev Others : ℕ → Ctx → Ctx → Type 0
Others a x y = (b : ℕ) → b ≢ a → y.user_at b ≡ x.user_at b

write-Others :
    (a c : ℕ) (x : Ctx) (w : User)
    → Others a x (record x { user_at = update x.user_at a (some w); clock = c })
write-Others a c x w b ne = ground (arith, ==_iff b a)

-- What a `STRDUP` gives.
abbrev copy : Ctx → Bytes → Option Bytes
copy x s = if is_some (x.grants x.clock).block then some s else none

touch_uname-Renews :
    (a : ℕ) (ident : Bytes) (x : Ctx) (v : User)
    → x.user_at a ≡ some v
    → (y : Ctx) × (touch_uname a ident x ≡ ok (tt, y)) × Renews x y × Others a x y
unfolding touch_uname
touch_uname-Renews a ident x v e =
    elim (Bool-cases (not (is_some v.uname) && has_byte ident b'!')) [
      | inr p ↦ (x, ground arith, Renews-refl x, λ b ne. refl)
      | inl p ↦
          let w = record v { uname = copy x (piece ident2uname 64 ident) } in
          (
            record x { user_at = update x.user_at a (some w); clock = x.clock + 1 },
            ground arith,
            write-Renews a (x.clock + 1) x v w e refl refl,
            write-Others a (x.clock + 1) x w,
          )
    ]

touch_host-Renews :
    (a : ℕ) (ident : Bytes) (x : Ctx) (v : User)
    → x.user_at a ≡ some v
    → (y : Ctx) × (touch_host a ident x ≡ ok (tt, y)) × Renews x y × Others a x y
unfolding touch_host
touch_host-Renews a ident x v e = elim (Bool-cases (not (is_some v.host) && has_byte ident b'@')) [
  | inr p ↦ (x, ground arith, Renews-refl x, λ b ne. refl)
  | inl p ↦
      let w = record v { host = copy x (piece ident2host 128 ident) } in
      (
        record x { user_at = update x.user_at a (some w); clock = x.clock + 1 },
        ground arith,
        write-Renews a (x.clock + 1) x v w e refl refl,
        write-Others a (x.clock + 1) x w,
      )
]

pub touch_user_int-Renews :
    (a : ℕ) (ident : Bytes) (x : Ctx) (v : User)
    → x.user_at a ≡ some v
    → (y : Ctx) × (touch_user_int a ident x ≡ ok (tt, y)) × Renews x y × Others a x y
unfolding touch_user_int
touch_user_int-Renews a ident x v e =
    let (y, p, r, o) = touch_uname-Renews a ident x v e in
    let (w, e', _, _) = r.kept a v e in
    let (z, q, s, o') = touch_host-Renews a ident y w e' in
    (z, ground (arith, p, q), Renews-trans r s, λ b ne. o' b ne ∙ o b ne)

-- The user is looked up, and the store stays sound: only the name and the host of that user change.
pub touch_user-Renews :
    (ident : Bytes) (x : Ctx)
    → IsSound x
    → (y : Ctx) × (touch_user ident x ≡ ok (view x.users ident, y))
      × Renews x y
      × ((b : ℕ) → view x.users ident ≢ some b → y.user_at b ≡ x.user_at b)
unfolding touch_user get_user
touch_user-Renews ident x s =
    let found = get-view x.users ident s.users_valid in
    elim (Option-cases (view x.users ident)) [
      | inl e ↦ (x, ground arith, Renews-refl x, λ b ne. refl)
      | inr (a, e) ↦
          let (v, is, _) = s.user_of ident a e in
          let (y, p, r, o) = touch_user_int-Renews a ident x v is in
          (y, ground arith, r, λ b ne. o b (λ h. ne (e ∙ ap some (sym h))))
    ]
