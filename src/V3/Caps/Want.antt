-- ===== src/V3/Caps/Want.antt =====
-- What `lsi_v3_want_cap` and `lsi_v3_check_caps` of libsrsirc/v3.c mean for what `find_cap` finds.
use libsrsirc.Base.{
  ◌≡◌, refl, sym, Bool, true, false, not, Option, none, some, [], ◌∷◌, Bytes, if◌then◌else◌, length,
  take-all, ◌≤◌, Bool-cases, inl, inr, arith,
}
use libsrsirc.Msg.{same}
use libsrsirc.V3.Caps.{Cap, Caps, find_cap, lacks_cap, check_caps, wanted, want_cap, want_caps}

pub same_eq : (s t : Bytes) → same s t ≡ true → s ≡ t
unfolding same
same_eq [] [] h = refl
same_eq [] (b ∷ t) h = cc
same_eq (a ∷ s) [] h = cc
same_eq (a ∷ s) (b ∷ t) h = grind (arith, same_eq s t)

pub same_refl : (s : Bytes) → same s s ≡ true
unfolding same
same_refl [] = refl
same_refl (a ∷ s) = ground (arith, same_refl s)

pub same_other : (s t u : Bytes) → same s t ≡ false → same s u ≡ true → same t u ≡ false
same_other s t u h e = elim (Bool-cases (same t u)) [ inl f ↦ cc (h, same_eq t u f) | inr f ↦ f ]

-- What is found once the capability `new`, named `cap`, is wanted.
abbrev pub find_or : Caps → Bytes → Cap → Bytes → Option Cap
find_or caps cap new name = if same cap name then some new else find_cap caps name

replaced :
    (c : Cap) (cs : Caps) (cap : Bytes) (new : Cap) (name : Bytes)
    → new.name ≡ cap
    → same c.name cap ≡ true
    → find_cap (some new ∷ cs) name ≡ find_or (some c ∷ cs) cap new name
unfolding find_cap
replaced c cs cap new name e h = elim (Bool-cases (same cap name)) [
  | inl f ↦ rw (e, f)
  | inr f ↦ rw (e, f, same_eq c.name cap h, f)
]

skipped :
    (c : Cap) (cs ds : Caps) (cap : Bytes) (new : Cap) (name : Bytes)
    → same c.name cap ≡ false
    → find_cap ds name ≡ find_or cs cap new name
    → find_cap (some c ∷ ds) name ≡ find_or (some c ∷ cs) cap new name
unfolding find_cap
skipped c cs ds cap new name h ih = elim (Bool-cases (same c.name name)) [
  | inl f ↦ rw (f, same_other c.name cap name h f)
  | inr f ↦ rw (f, ih)
]

-- Where it succeeds, the capability is found with its flags reset, and every other one is found
-- as before.
pub find_cap-want_cap :
    (memory : Bool) (caps : Caps) (cap : Bytes) (musthave : Bool) (name : Bytes)
    → length cap ≤ 127
    → (want_cap memory caps cap musthave).1 ≡ true
    → find_cap (want_cap memory caps cap musthave).0 name
      ≡ find_or caps cap (wanted cap musthave) name
unfolding want_cap find_cap
find_cap-want_cap memory [] cap m name fits h = cc
find_cap-want_cap true (none ∷ cs) cap m name fits h = rw (take-all 127 cap fits)
find_cap-want_cap false (none ∷ cs) cap m name fits h = cc
find_cap-want_cap memory (some c ∷ cs) cap m name fits h = elim (Bool-cases (same c.name cap)) [
  | inl e ↦ rw e (replaced c cs cap (wanted cap m) name (take-all 127 cap fits) e)
  | inr e ↦ rw e (
      skipped c cs (want_cap memory cs cap m).0 cap (wanted cap m) name e
        (find_cap-want_cap memory cs cap m name fits (rw (e, want_cap) at h)))
]

-- NULLs stand only behind the last capability.
unfoldable pub is_compact : Caps → Bool
is_compact [] = true
is_compact (none ∷ cs) = not (want_caps cs)
is_compact (some c ∷ cs) = is_compact cs

not-true : (b : Bool) → not b ≡ true → b ≡ false
not-true true h = sym h
not-true false h = refl

find_cap-none : (cs : Caps) (name : Bytes) → want_caps cs ≡ false → find_cap cs name ≡ none
unfolding find_cap want_caps
find_cap-none [] name h = refl
find_cap-none (none ∷ cs) name h = find_cap-none cs name h
find_cap-none (some c ∷ cs) name h = cc

-- A check that passes is sound for every lookup: no capability that is found is lacking.
pub check_caps-find_cap :
    (caps : Caps) (offered : Bool) (name : Bytes) (c : Cap)
    → is_compact caps ≡ true
    → check_caps caps offered ≡ true
    → find_cap caps name ≡ some c
    → lacks_cap offered c ≡ false
unfolding check_caps find_cap is_compact
check_caps-find_cap [] o name c k h f = cc
check_caps-find_cap (none ∷ cs) o name c k h f =
    cc (find_cap-none cs name (not-true (want_caps cs) k), f)
check_caps-find_cap (some d ∷ cs) o name c k h f = elim (Bool-cases (lacks_cap o d)) [
  | inl l ↦ ground arith
  | inr l ↦ elim (Bool-cases (same d.name name)) [
    | inl e ↦ cc (l, rw (e, find_cap) at f)
    | inr e ↦ check_caps-find_cap cs o name c k (rw (l, check_caps) at h) (rw (e, find_cap) at f)
  ]
]
