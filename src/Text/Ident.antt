-- ===== src/Text/Ident.antt =====
-- The three pieces of `nick!user@host`, cut out of a bounded copy as libsrsirc/util.c does it.
pub mod Pieces
use libsrsirc.Base.{
  ℕ, zero, suc, ◌+◌, Option, none, some, List, [], ◌∷◌, ◌++◌, Bytes, ◌==◌, if◌then◌else◌, length,
  drop, set,
}
use libsrsirc.Text.{cstr, str_ncpy}

abbrev pub map_suc : Option ℕ → Option ℕ
map_suc none = none
map_suc (some i) = some (suc i)

-- The C library's `strchr`, as an index into the bytes of a buffer.
unfoldable pub strchr : Bytes → ℕ → Option ℕ
strchr [] c = none
strchr (x ∷ d) c = if x == c then some 0 else if x == 0 then none else map_suc (strchr d c)

-- `ptr = strchr(dest, c); if (ptr) *ptr = '\0';`
cut_found : Bytes → Option ℕ → Bytes
cut_found d none = d
cut_found d (some i) = set d i 0

pub cut_at : ℕ → Bytes → Bytes
cut_at c d = cut_found d (strchr d c)

-- `ptr = strchr(dest, c); if (ptr) memmove(dest, ptr+1, strlen(ptr+1)+1); else *dest = '\0';`
move_found : Bytes → Option ℕ → Bytes
move_found d none = set d 0 0
move_found d (some i) = let moved = cstr (drop (i + 1) d) in moved ++ 0 ∷ drop (length moved + 1) d

pub move_behind : ℕ → Bytes → Bytes
move_behind c d = move_found d (strchr d c)

unfoldable pub ident2nick : Bytes → ℕ → Bytes → Bytes
unfolding cut_at cut_found
ident2nick dest zero pfx = dest
ident2nick dest (suc n) pfx = cut_at b'!' (cut_at b'@' (str_ncpy dest pfx (suc n)))

pub ident2uname : Bytes → ℕ → Bytes → Bytes
ident2uname dest zero pfx = dest
ident2uname dest (suc n) pfx = move_behind b'!' (cut_at b'@' (str_ncpy dest pfx (suc n)))

pub ident2host : Bytes → ℕ → Bytes → Bytes
ident2host dest zero pfx = dest
ident2host dest (suc n) pfx = move_behind b'@' (str_ncpy dest pfx (suc n))
