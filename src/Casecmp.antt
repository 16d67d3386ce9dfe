-- ===== src/Casecmp.antt =====
-- `lsi_ut_istrcmp`, `lsi_ut_istrncmp` of libsrsirc/util.c: comparison under a casemap. An `int` is an
-- integer; whether `char` is signed is the argument `signed`.
pub mod Laws
use libsrsirc.Base.{
  ℕ, zero, suc, ◌+◌, ◌-◌, Bool, ◌&&◌, List, [], ◌∷◌, Bytes, ◌==◌, if◌then◌else◌, leb, length, min,
}
use libsrsirc.Cmap.{Casemap, tolower}

-- `negsuc n` is -(n + 1).
pub data ℤ : Type 0 where
  pos : ℕ → ℤ
  negsuc : ℕ → ℤ

-- a - b, as an integer.
abbrev pub sub_ℕ : ℕ → ℕ → ℤ
sub_ℕ a b = if leb b a then pos (a - b) else negsuc (b - a - 1)

-- c1 - c2 for two bytes read as `char`: a signed one of 128 or more stands for 256 less.
unfoldable pub char_diff : Bool → ℕ → ℕ → ℤ
char_diff signed c1 c2 =
    let below = λ (c : ℕ). if signed && leb 128 c then 256 else 0 in
    sub_ℕ (c1 + below c2) (c2 + below c1)

-- The loop and the tests behind it.
unfoldable pub istrncmp : Bool → Bytes → Bytes → ℕ → Casemap → ℤ
istrncmp signed n1 n2 zero m = pos 0
istrncmp signed [] [] (suc len) m = pos 0
istrncmp signed [] (b ∷ n2) (suc len) m = negsuc 0
istrncmp signed (a ∷ n1) [] (suc len) m = pos 1
istrncmp signed (a ∷ n1) (b ∷ n2) (suc len) m =
    let rest = istrncmp signed n1 n2 len m in
    if tolower a m == tolower b m then rest else char_diff signed (tolower a m) (tolower b m)

unfoldable pub istrcmp : Bool → Bytes → Bytes → Casemap → ℤ
istrcmp signed n1 n2 m = istrncmp signed n1 n2 (min (length n1) (length n2) + 1) m
