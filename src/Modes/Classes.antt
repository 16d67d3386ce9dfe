-- ===== src/Modes/Classes.antt =====
-- Which class of channel modes a letter is in, read off the four classes one by one.
use libsrsirc.Base.{
  ℕ, suc, ◌≡◌, ◌≢◌, refl, Option, none, some, List, [], ◌∷◌, Bytes, if◌then◌else◌, get_or, arith,
}
use libsrsirc.Proto.{has_byte}
use libsrsirc.Modes.{
  ModeTypes, ModeClass, class_a, class_b, class_c, class_d, nth_class, class_from,
  classify_chanmode,
}

-- The first of the four classes that has the letter.
unfoldable pub class_of : ModeTypes → ℕ → Option ModeClass
class_of t c =
    if has_byte (get_or t.chanmodes 0 []) c
    then some class_a
    else if has_byte (get_or t.chanmodes 1 []) c
    then some class_b
    else if has_byte (get_or t.chanmodes 2 []) c
    then some class_c
    else if has_byte (get_or t.chanmodes 3 []) c
    then some class_d
    else none

class_from-beyond :
    (n : ℕ) (ms : List Bytes) (c : ℕ) → class_from (suc (suc (suc (suc n)))) ms c ≡ none
unfolding class_from nth_class
class_from-beyond n [] c = refl
class_from-beyond n (m ∷ ms) c = ground (arith, class_from-beyond (suc n) ms c)

classes :
    (t : ModeTypes) (ms : List Bytes) (c : ℕ)
    → c ≢ 0
    → class_from 0 ms c ≡ class_of (record t { chanmodes = ms }) c
unfolding class_from nth_class class_of has_byte
classes t [] c ne = refl
classes t (a ∷ []) c ne = ground arith
classes t (a ∷ b ∷ []) c ne = ground arith
classes t (a ∷ b ∷ d ∷ []) c ne = ground arith
classes t (a ∷ b ∷ d ∷ e ∷ ms) c ne = ground (arith, class_from-beyond 0 ms c)

pub classify_chanmode-class_of :
    (t : ModeTypes) (c : ℕ) → c ≢ 0 → classify_chanmode t c ≡ class_of t c
unfolding classify_chanmode class_of
classify_chanmode-class_of t c ne = classes t t.chanmodes c ne
