-- ===== src/V3/Tags.antt =====
-- Message tags: `decode_v3tag` and `mkv3tag` of libsrsirc/v3.c.
pub mod RoundTrip
use libsrsirc.Base.{
  ℕ, zero, suc, ◌-◌, Bool, true, false, Option, List, [], ◌∷◌, Bytes, ◌==◌, if◌then◌else◌, leb,
  length, set,
}
use libsrsirc.Text.{cstr}
use libsrsirc.Text.Ident.Pieces.{before, behind}

abbrev pub backslash : ℕ
backslash = b'\\'

-- What is stored for a byte that is not a backslash; `escnext` is true behind one.
pub unescape : Bool → ℕ → ℕ
unescape false c = c
unescape true c =
    if c == b's'
    then b' '
    else if c == b'r'
    then b'\r'
    else if c == b'n'
    then b'\n'
    else if c == b':'
    then b';'
    else c

-- The bytes that the loop stores with `room` left, the NUL included where the loop reaches it.
pub decode_loop : ℕ → Bool → Bytes → Bytes
decode_loop zero escnext v3tag = []
decode_loop (suc room) escnext [] = unescape escnext 0 ∷ []
decode_loop (suc room) escnext (c ∷ v3tag) = elim (c == backslash) [
  | true ↦ elim escnext [
    | true ↦ backslash ∷ decode_loop room false v3tag
    | false ↦ decode_loop (suc room) true v3tag
  ]
  | false ↦ unescape escnext c ∷ decode_loop room false v3tag
]

-- The stored bytes, ended by force where the room is used up.
pub decode_v3tag : ℕ → Bytes → Bytes
decode_v3tag destsz v3tag =
    let dest = decode_loop destsz false v3tag in
    if leb destsz (length dest) then set dest (destsz - 1) 0 else dest

-- The key and the value: the decoded text is cut at its first `=`.
pub mkv3tag : Bytes → Bytes × Option Bytes
mkv3tag raw = let dec = cstr (decode_v3tag 512 raw) in (before b'=' dec, behind b'=' dec)
