-- ===== src/Text.antt =====
-- Bounded C strings: `lsi_b_strNcpy` and `lsi_b_strNcat` of platform/base_string.c over the bytes of
-- the destination, and the pieces of `nick!user@host` of libsrsirc/util.c. A destination is the
-- list of all its bytes; a source is a C string, with the NUL after its bytes.
pub mod Laws
pub mod Ident
pub mod Lower
use libsrsirc.Base.{
  ℕ, zero, suc, ◌+◌, ◌-◌, Bool, true, false, Option, none, some, List, [], ◌∷◌, ◌++◌, Bytes, ◌==◌,
  if◌then◌else◌, leb, length, drop, get_or, set,
}

-- The byte at a source pointer, and the pointer after it.
abbrev pub first_byte : Bytes → ℕ
first_byte [] = 0
first_byte (c ∷ s) = c

abbrev pub tail_of : Bytes → Bytes
tail_of [] = []
tail_of (c ∷ s) = s

-- `strlen`: what stands before the first NUL.
unfoldable pub cstr : Bytes → Bytes
cstr [] = []
cstr (c ∷ s) = let rest = cstr s in if c == 0 then [] else c ∷ rest

-- One round stores a byte at index `i`, and the loop ends with the NUL or with `destsz`, which
-- counts down; `i` is the pointer `dest`.
ncpy_loop : ℕ → Bytes → ℕ → Bytes → Bytes
ncpy_loop zero dest i src = set dest (i - 1) 0
ncpy_loop (suc destsz) dest i src =
    let c = first_byte src in
    let dest' = set dest i c in
    let rest = ncpy_loop destsz dest' (i + 1) (tail_of src) in
    if c == 0 then (if destsz == 0 then set dest' i 0 else dest') else rest

unfoldable pub str_ncpy : Bytes → Bytes → ℕ → Bytes
unfolding ncpy_loop
str_ncpy dest src zero = dest
str_ncpy dest src (suc destsz) = ncpy_loop (suc destsz) dest 0 src

-- The loop of `str_ncat` with `rem` rounds left, then the NUL.
ncat_loop : ℕ → Bytes → ℕ → Bytes → Bytes
ncat_loop zero dest i src = set dest i 0
ncat_loop (suc rem) dest i [] = set dest i 0
ncat_loop (suc rem) dest i (c ∷ src) = ncat_loop rem (set dest i c) (i + 1) src

pub str_ncat : Bytes → Bytes → ℕ → Bytes
unfolding ncat_loop cstr
str_ncat dest src destsz =
    let len = length (cstr dest) in
    if leb destsz (len + 1) then dest else ncat_loop (destsz - (len + 1)) dest len src
