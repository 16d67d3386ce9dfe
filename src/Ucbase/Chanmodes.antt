-- ===== src/Ucbase/Chanmodes.antt =====
-- What adding and dropping a mode do to the modes of a channel.
use libsrsirc.Base.{
  ℕ, zero, suc, ◌-◌, ◌≤◌, ◌<◌, ◌≡◌, ◌≢◌, refl, sym, ap, subst, ◌∙◌, ◌⊎◌, Bool, true, false, not,
  ◌&&◌, ◌||◌, Option, none, some, List, [], ◌∷◌, ◌++◌, Bytes, ◌==◌, if◌then◌else◌, length, get_or,
  set, replicate, Bool-cases, Option-cases, inl, inr, All, ==_iff, ==_refl, ltb, length-append,
  length-replicate, length-set, get_or-set_ne, set-set, arith,
}
use mathlib.Core.List.{Perm}
use mathlib.Core.List.Perm
use libsrsirc.Text.{first_byte}
use libsrsirc.Modes.{ModeTypes, ModeClass, class_a, class_b, class_c, class_d, classify_chanmode}
use libsrsirc.Modes.Classes.{class_of, classify_chanmode-class_of}
use libsrsirc.Msg.{same}
use libsrsirc.V3.Caps.Want.{same_eq, same_refl}
use libsrsirc.Ucbase.{
  first_null, with_room, add_chanmode, is_mode, find_mode, last_used, drop_at, drop_found,
  drop_chanmode,
}

-- The modes of a channel, in the order of their slots.
pub present : List (Option Bytes) → List Bytes
present [] = []
present (none ∷ ms) = present ms
present (some m ∷ ms) = m ∷ present ms

present-set :
    (ms : List (Option Bytes)) (i : ℕ) (m : Bytes)
    → i < length ms
    → get_or ms i none ≡ none
    → Perm (present (set ms i (some m))) (m ∷ present ms)
unfolding present
present-set [] i m lt e = absurd (omega arith)
present-set (none ∷ ms) zero m lt e = Perm.refl _
present-set (some x ∷ ms) zero m lt e = absurd (cc e)
present-set (none ∷ ms) (suc i) m lt e = present-set ms i m (omega arith) e
present-set (some x ∷ ms) (suc i) m lt e =
    Perm.trans (Perm.cons x (present-set ms i m (omega arith) e)) (Perm.swap m x (present ms))

get_or-set_here : (ms : List (Option Bytes)) (i : ℕ) → get_or (set ms i none) i none ≡ none
get_or-set_here [] i = refl
get_or-set_here (x ∷ ms) zero = refl
get_or-set_here (x ∷ ms) (suc i) = get_or-set_here ms i

get_or-beyond :
    (ms : List (Option Bytes)) (i : ℕ) (m : Bytes) → get_or ms i none ≡ some m → i < length ms
get_or-beyond [] i m e = absurd (cc e)
get_or-beyond (x ∷ ms) zero m e = omega arith
get_or-beyond (x ∷ ms) (suc i) m e = omega (arith, get_or-beyond ms i m e)

set-same :
    (ms : List (Option Bytes)) (i : ℕ) (m : Option Bytes) → get_or ms i none ≡ m → set ms i m ≡ ms
set-same [] i m e = refl
set-same (x ∷ ms) zero m e = ap (λ t. t ∷ ms) (sym e)
set-same (x ∷ ms) (suc i) m e = ap (λ t. x ∷ t) (set-same ms i m e)

set_comm :
    (ms : List (Option Bytes)) (i j : ℕ) (a b : Option Bytes)
    → i ≢ j
    → set (set ms i a) j b ≡ set (set ms j b) i a
set_comm [] i j a b ne = refl
set_comm (x ∷ ms) zero zero a b ne = absurd (ne refl)
set_comm (x ∷ ms) zero (suc j) a b ne = refl
set_comm (x ∷ ms) (suc i) zero a b ne = refl
set_comm (x ∷ ms) (suc i) (suc j) a b ne =
    ap (λ t. x ∷ t) (set_comm ms i j a b (λ e. ne (ap suc e)))

-- Taking a mode out of its slot.
present-take :
    (ms : List (Option Bytes)) (i : ℕ) (m : Bytes)
    → get_or ms i none ≡ some m
    → Perm (present ms) (m ∷ present (set ms i none))
present-take ms i m e =
    subst (λ t. Perm (present t) (m ∷ present (set ms i none)))
      (set-set ms i none (some m) ∙ set-same ms i (some m) e)
      (present-set (set ms i none) i m (omega (arith, get_or-beyond ms i m e, length-set ms i none))
        (get_or-set_here ms i))

-- The last mode is moved to the slot of the one that is dropped.
drop_at-perm :
    (ms : List (Option Bytes)) (i last : ℕ) (m l : Bytes)
    → get_or ms i none ≡ some m
    → get_or ms last none ≡ some l
    → Perm (present ms) (m ∷ present (drop_at ms i last))
unfolding drop_at
drop_at-perm ms i last m l e f = elim (Bool-cases (last == i)) [
  | inl g ↦ rw (g, drop_at) (present-take ms i m e)
  | inr g ↦
      let ne : i ≢ last = λ h. absurd (ground (arith, h)) in
      let ne' : last ≢ i = λ h. absurd (ground (arith, h)) in
      let m1 = set ms last none in
      let at1 : get_or m1 i none ≡ some m = get_or-set_ne ms last i none none ne' ∙ e in
      let x = present (set m1 i none) in
      let moved : Perm (present (set (set ms i (some l)) last none)) (l ∷ x) =
        subst (λ t. Perm (present t) (l ∷ x))
          (set-set m1 i none (some l) ∙ sym (set_comm ms i last (some l) none ne))
          (present-set (set m1 i none) i l
            (omega (arith, get_or-beyond m1 i m at1, length-set m1 i none))
            (get_or-set_here m1 i)) in
      rw (g, f, drop_at)
        (Perm.trans (present-take ms last l f) (
          Perm.trans (Perm.cons l (present-take m1 i m at1))
            (Perm.trans (Perm.swap m l x) (Perm.cons m (Perm.symm moved)))))
]

last_used-some :
    (ms : List (Option Bytes)) (n i : ℕ) (m : Bytes)
    → i ≤ n
    → get_or ms i none ≡ some m
    → (l : Bytes) × (get_or ms (last_used ms n) none ≡ some l)
unfolding last_used
last_used-some ms zero i m le e = (m, ap (λ j. get_or ms j none) (omega arith) ∙ e)
last_used-some ms (suc n) i m le e = elim (Option-cases (get_or ms (suc n) none)) [
  | inr (l, f) ↦ (l, rw (f, last_used) f)
  | inl f ↦ elim (Bool-cases (i == suc n)) [
    | inl g ↦ absurd (cc (sym f ∙ ap (λ j. get_or ms j none) (sym ((==_iff i (suc n)).0 g)) ∙ e))
    | inr g ↦ let (l, h) = last_used-some ms n i m (ground arith) e in (l, rw (f, last_used) h)
  ]
]

-- Some mode of the list passes.
pub any_mode : (Bytes → Bool) → List Bytes → Bool
any_mode test [] = false
any_mode test (m ∷ ms) = test m || any_mode test ms

-- The search for a mode.
find_mode-cases :
    (test : Bytes → Bool) (ms : List (Option Bytes))
    → ((find_mode test ms ≡ length ms) × (any_mode test (present ms) ≡ false))
      ⊎ ((m : Bytes) × (get_or ms (find_mode test ms) none ≡ some m)
          × (test m ≡ true)
          × (any_mode test (present ms) ≡ true))
unfolding find_mode any_mode present
find_mode-cases test [] = inl (refl, refl)
find_mode-cases test (none ∷ ms) = elim (find_mode-cases test ms) [
  | inl (e, f) ↦ inl (ap suc e, f)
  | inr (m, e, f, g) ↦ inr (m, e, f, g)
]
find_mode-cases test (some x ∷ ms) = elim (Bool-cases (test x)) [
  | inl h ↦ inr (x, rw (h, find_mode) refl, h, rw h refl)
  | inr h ↦ elim (find_mode-cases test ms) [
    | inl (e, f) ↦ inl (rw (h, find_mode) (ap suc e), rw h f)
    | inr (m, e, f, g) ↦ inr (m, rw (h, find_mode) e, f, rw h g)
  ]
]

drop_found-perm :
    (t : ModeTypes) (ms : List (Option Bytes)) (modestr : Bytes) (cls : ModeClass)
    → classify_chanmode t (first_byte modestr) ≡ some cls
    → (let r = drop_chanmode t ms modestr in
        ((r.1 ≡ false) × (r.0 ≡ ms) × (any_mode (is_mode cls modestr) (present ms) ≡ false))
        ⊎ ((r.1 ≡ true)
            × ((m : Bytes) × (is_mode cls modestr m ≡ true) × Perm (present ms) (m ∷ present r.0))))
unfolding drop_chanmode drop_found
drop_found-perm t ms modestr cls e = elim (find_mode-cases (is_mode cls modestr) ms) [
  | inl (f, g) ↦ rw (e, f, drop_chanmode) (simp (==_refl (length ms)) (inl (refl, refl, g)))
  | inr (m, f, passes, g) ↦
      let i = find_mode (is_mode cls modestr) ms in
      let under : i < length ms = get_or-beyond ms i m f in
      let ne : (i == length ms) ≡ false = ground arith in
      let (l, h) = last_used-some ms (length ms - 1) i m (omega arith) f in
      rw (e, ne, drop_chanmode)
        (inr (refl, (m, passes, drop_at-perm ms i (last_used ms (length ms - 1)) m l f h)))
]

-- What a mode of the channel has in common with the one that is dropped: all of it in class A, and the
-- letter in the others.
abbrev pub IsLike : ModeClass → Bytes → Bytes → Type 0
IsLike class_a modestr m = m ≡ modestr
IsLike class_b modestr m = first_byte m ≡ first_byte modestr
IsLike class_c modestr m = first_byte m ≡ first_byte modestr
IsLike class_d modestr m = first_byte m ≡ first_byte modestr

is_mode_iff :
    (cls : ModeClass) (modestr m : Bytes)
    → (is_mode cls modestr m ≡ true → IsLike cls modestr m)
      × (IsLike cls modestr m → is_mode cls modestr m ≡ true)
unfolding is_mode
is_mode_iff class_a s m = (same_eq m s, λ e. ap (λ t. same m t) (sym e) ∙ same_refl m)
is_mode_iff class_b s m = ==_iff (first_byte m) (first_byte s)
is_mode_iff class_c s m = ==_iff (first_byte m) (first_byte s)
is_mode_iff class_d s m = ==_iff (first_byte m) (first_byte s)

no_mode :
    (cls : ModeClass) (modestr : Bytes) (ms : List Bytes)
    → any_mode (is_mode cls modestr) ms ≡ false
    → All (λ m. ¬ IsLike cls modestr m) ms
unfolding any_mode
no_mode cls s [] e = tt
no_mode cls s (m ∷ ms) e =
    (λ like. absurd (ground (arith, (is_mode_iff cls s m).1 like)), no_mode cls s ms (ground arith))

-- Dropping a mode whose letter has a class succeeds exactly where the channel has a mode like it: the
-- same one with its argument in class A, one of the same letter in the others. Then one such mode is
-- gone and the others are kept. Else, and where the letter has no class, it fails and the modes stay
-- as they are. The letter is not 0.
pub drop_chanmode-perm :
    (t : ModeTypes) (ms : List (Option Bytes)) (modestr : Bytes)
    → first_byte modestr ≢ 0
    → (let r = drop_chanmode t ms modestr in
        ((r.1 ≡ false)
          × (r.0 ≡ ms)
          × ((class_of t (first_byte modestr) ≡ none)
              ⊎ ((cls : ModeClass) × (class_of t (first_byte modestr) ≡ some cls)
                  × All (λ m. ¬ IsLike cls modestr m) (present ms))))
        ⊎ ((r.1 ≡ true)
            × ((cls : ModeClass) × (class_of t (first_byte modestr) ≡ some cls)
                × ((m : Bytes) × IsLike cls modestr m × Perm (present ms) (m ∷ present r.0)))))
unfolding drop_chanmode
drop_chanmode-perm t ms s letter =
    let same_class = classify_chanmode-class_of t (first_byte s) letter in
    elim (Option-cases (classify_chanmode t (first_byte s))) [
      | inl e ↦ rw (e, drop_chanmode) (inl (refl, refl, inl (sym same_class ∙ e)))
      | inr (cls, e) ↦
          let c = sym same_class ∙ e in
          elim (drop_found-perm t ms s cls e) [
            | inl (f, kept, out) ↦ inl (f, kept, inr (cls, c, no_mode cls s (present ms) out))
            | inr (f, (m, like, q)) ↦ inr (f, (cls, c, (m, (is_mode_iff cls s m).0 like, q)))
          ]
    ]

first_null-free : (ms : List (Option Bytes)) → get_or ms (first_null ms) none ≡ none
unfolding first_null
first_null-free [] = refl
first_null-free (none ∷ ms) = refl
first_null-free (some m ∷ ms) = first_null-free ms

first_null-full :
    (ms : List (Option Bytes))
    → (first_null ms ≤ length ms)
      × (length (present ms) ≤ length ms)
      × ((first_null ms == length ms) ≡ not (ltb (length (present ms)) (length ms)))
unfolding first_null present
first_null-full [] = (omega arith, omega arith, refl)
first_null-full (none ∷ ms) =
    let (a, b, e) = first_null-full ms in (omega arith, omega arith, ground arith)
first_null-full (some m ∷ ms) =
    let (a, b, e) = first_null-full ms in (omega arith, omega arith, ground (arith, e))

get_or-append :
    (ms : List (Option Bytes)) (n : ℕ) → get_or (ms ++ replicate n none) (length ms) none ≡ none
get_or-append [] zero = refl
get_or-append [] (suc n) = refl
get_or-append (x ∷ ms) n = get_or-append ms n

present-append : (ms : List (Option Bytes)) (n : ℕ) → present (ms ++ replicate n none) ≡ present ms
unfolding present
present-append [] zero = refl
present-append [] (suc n) = present-append [] n
present-append (none ∷ ms) n = present-append ms n
present-append (some m ∷ ms) n = ap (λ t. m ∷ t) (present-append ms n)

with_room-cases :
    (memory : Bool) (ms : List (Option Bytes))
    → 0 < length ms
    → let room = ltb (length (present ms)) (length ms) || memory in
      ((with_room memory ms (first_null ms) ≡ none) × (room ≡ false))
      ⊎ ((ms' : List (Option Bytes)) × (with_room memory ms (first_null ms) ≡ some ms')
          × (room ≡ true)
          × (present ms' ≡ present ms)
          × (first_null ms < length ms')
          × (get_or ms' (first_null ms) none ≡ none))
unfolding with_room
with_room-cases memory ms pos =
    let (le, small, full) = first_null-full ms in
    elim (Bool-cases (first_null ms == length ms)) [
      | inr e ↦
          inr (ms, rw (e, with_room) refl, ground arith, refl, ground arith, first_null-free ms)
      | inl e ↦ elim (Bool-cases memory) [
        | inr m ↦ inl (rw (e, m, with_room) refl, ground arith)
        | inl m ↦
            let more = replicate {A = Option Bytes} (length ms) none in
            inr (
              ms ++ more,
              rw (e, m, with_room) refl,
              rw m (ground arith),
              present-append ms (length ms),
              ground (
                arith,
                length-append ms more,
                length-replicate {A = Option Bytes} (length ms) none,
              ),
              ap (λ j. get_or (ms ++ more) j none) ((==_iff _ _).0 e)
                  ∙ get_or-append ms (length ms),
            )
      ]
    ]

-- Adding a mode fails exactly where there is no memory for its copy, or every slot is taken and
-- there is none for a larger array. Else the channel has the modes that it had and the new one.
-- A failure loses no mode.
pub add_chanmode-perm :
    (memory dup : Bool) (ms : List (Option Bytes)) (m : Bytes)
    → 0 < length ms
    → (let r = add_chanmode memory dup ms m in
        (r.1 ≡ ((ltb (length (present ms)) (length ms) || memory) && dup))
        × Perm (present r.0) (if r.1 then m ∷ present ms else present ms))
unfolding add_chanmode
add_chanmode-perm memory dup ms m pos = elim (with_room-cases memory ms pos) [
  | inl (e, full) ↦ rw (e, full, add_chanmode) (refl, Perm.refl _)
  | inr (ms', e, room, kept, lt, free) ↦ elim (Bool-cases dup) [
    | inl d ↦
        rw (e, room, d, add_chanmode)
          (
            refl,
            subst (λ p. Perm (present (set ms' (first_null ms) (some m))) (m ∷ p)) kept
                (present-set ms' (first_null ms) m lt free),
          )
    | inr d ↦
        rw (e, room, d, add_chanmode)
          (refl, rw (set-same ms' (first_null ms) none free, kept) (Perm.refl _))
  ]
]
