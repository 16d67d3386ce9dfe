-- ===== src/Proto.antt =====
-- The protocol parser and printer of libsrsirc/util.c and `lsi_com_next_tok` of libsrsirc/common.c.
-- The parser works in place: tokens are pointers into one buffer, and each call of `next_tok` writes
-- NULs only where the token before its result ends. So a token is modelled by the string that its
-- pointer reads once the parse is over. A `tokarr` is a list of 18 optional strings.
pub mod RoundTrip
pub mod Words
use libsrsirc.Base.{
  ℕ, zero, suc, ◌+◌, ◌-◌, Bool, true, false, Option, none, some, List, [], ◌∷◌, ◌++◌, Bytes, ◌==◌,
  ◌&&◌, ◌||◌, if◌then◌else◌, leb, ltb, length, take, replicate,
}
use libsrsirc.Base.Mem.{Mem, ok, fault}

abbrev pub space : ℕ
space = b' '

abbrev pub colon : ℕ
colon = b':'

abbrev pub crlf : Bytes
crlf = b'\r' ∷ b'\n' ∷ []

-- The second loop of `next_tok`, with the test behind it.
unfoldable pub skip_delims : Bytes → ℕ → Option Bytes
skip_delims [] delim = none
skip_delims (c ∷ buf) delim = if c == delim then skip_delims buf delim else some (c ∷ buf)

-- What the argument reads after the call, and the string at the pointer that is returned.
unfoldable pub next_tok : Bytes → ℕ → Bytes × Option Bytes
unfolding skip_delims
next_tok [] delim = ([], none)
next_tok (c ∷ buf) delim =
    let (tok, rest) = next_tok buf delim in
    if c == delim then ([], skip_delims buf delim) else (c ∷ tok, rest)

abbrev pub Tokarr : Type 0
Tokarr = List (Option Bytes)

abbrev starts_with : ℕ → Bytes → Bool
starts_with c [] = false
starts_with c (x ∷ s) = x == c

abbrev tail_of : Bytes → Bytes
tail_of [] = []
tail_of (c ∷ s) = s

-- The loop of `tokenize`: the array from the element that holds the pointer `buf` on, with `left`
-- elements behind it. The last element is not ended by a NUL, so it keeps what is left of the line.
arg_loop : ℕ → Bytes → Tokarr
arg_loop zero buf = some buf ∷ []
arg_loop (suc left) buf = elim (next_tok buf space).1 [
  | none ↦ some (next_tok buf space).0 ∷ replicate (suc left) none
  | some next ↦
      let rest = arg_loop left next in
      some (next_tok buf space).0
      ∷ (if starts_with colon next then some (tail_of next) ∷ replicate left none else rest)
]

-- The tokens of a line behind its prefix, which next_tok has cut off, if there are any.
behind_prefix : Bytes → Option Bytes → Tokarr × Bool
behind_prefix pfx none = (some (tail_of pfx) ∷ replicate 17 none, false)
behind_prefix pfx (some buf) = (some (tail_of pfx) ∷ arg_loop 16 buf, true)

-- The array and the result.
pub tokenize : Bytes → Tokarr × Bool
tokenize [] = (replicate 18 none, false)
tokenize (c ∷ buf) =
    if c == colon
    then behind_prefix (next_tok (c ∷ buf) space).0 (next_tok (c ∷ buf) space).1
    else if c == space
    then (replicate 18 none, false)
    else (none ∷ arg_loop 16 (c ∷ buf), true)

-- `lsi_b_strNcat` as a function of the strings alone.
unfoldable pub ncat : ℕ → Bytes → Bytes → Bytes
ncat destsz s t = if leb destsz (length s + 1) then s else s ++ take (destsz - (length s + 1)) t

unfoldable pub has_byte : Bytes → ℕ → Bool
has_byte [] c = false
has_byte (x ∷ s) c = x == c || has_byte s c

ends_here : Tokarr → Bool
ends_here [] = true
ends_here (none ∷ ts) = true
ends_here (some t ∷ ts) = false

-- The loop of `snrcmsg` over the parameters; `destsz` bounds what `dest` takes.
print_loop : ℕ → Bool → Bytes → Tokarr → Bytes
unfolding ends_here
print_loop destsz coltr dest [] = dest
print_loop destsz coltr dest (none ∷ ts) = dest
print_loop destsz coltr dest (some p ∷ ts) =
    let spaced = ncat destsz dest (space ∷ []) in
    let marked =
      if ends_here ts && (coltr || has_byte p space)
      then ncat destsz spaced (colon ∷ [])
      else spaced in
    print_loop destsz coltr (ncat destsz marked p) ts

-- `snprintf` of the prefix and the command: what fits before the NUL.
print_head : ℕ → Option Bytes → Bytes → Bytes
print_head destsz none cmd = take (destsz - 1) cmd
print_head destsz (some pfx) cmd = take (destsz - 1) (colon ∷ (pfx ++ space ∷ cmd))

-- The string in the destination, of `destsz` bytes. A message with no command is printed through
-- a null pointer.
pub snrcmsg : ℕ → Tokarr → Bool → Mem Bytes
unfolding print_head print_loop
snrcmsg destsz [] coltr = fault
snrcmsg destsz (pfx ∷ []) coltr = fault
snrcmsg destsz (pfx ∷ none ∷ ts) coltr = fault
snrcmsg destsz (pfx ∷ some cmd ∷ ts) coltr =
    ok (ncat destsz (print_loop destsz coltr (print_head destsz pfx cmd) ts) crlf)
