-- ===== src/V3/Caps.antt =====
-- The capability table of libsrsirc/v3.c: `v3caps`, 16 pointers that are NULL behind the last
-- capability. The capability that a non-null pointer points to stands in the list itself.
pub mod Want
pub mod Update
pub mod Request
use libsrsirc.Base.{
  ℕ, zero, suc, ◌+◌, ◌-◌, Bool, true, false, not, ◌&&◌, ◌||◌, Option, none, some, List, [], ◌∷◌,
  Bytes, ◌==◌, if◌then◌else◌, leb, length, take, get_or, set, replicate,
}
use libsrsirc.Msg.{same}
use libsrsirc.Proto.{next_tok, ncat, space}
use libsrsirc.Text.Ident.Pieces.{before, behind}

-- `struct v3cap`; the two texts have 128 bytes.
pub record Cap : Type 0 where
  pub name : Bytes
  pub adddata : Bytes
  pub musthave : Bool
  pub offered : Bool
  pub enabled : Bool

abbrev pub Caps : Type 0
Caps = List (Option Cap)

pub init_caps : Caps
init_caps = replicate 16 none

-- The loop of `reset_caps`.
pub reset_caps : Caps → Caps
reset_caps [] = []
reset_caps (c ∷ cs) = none ∷ reset_caps cs

unfoldable pub want_caps : Caps → Bool
want_caps [] = false
want_caps (none ∷ cs) = want_caps cs
want_caps (some c ∷ cs) = true

unfoldable pub find_cap : Caps → Bytes → Option Cap
find_cap [] cap = none
find_cap (none ∷ cs) cap = find_cap cs cap
find_cap (some c ∷ cs) cap = if same c.name cap then some c else find_cap cs cap

-- `cap->musthave && ((offered && !cap->offered) || (!offered && !cap->enabled))`
unfoldable pub lacks_cap : Bool → Cap → Bool
lacks_cap offered c = c.musthave && ((offered && not c.offered) || (not offered && not c.enabled))

unfoldable pub check_caps : Caps → Bool → Bool
check_caps [] offered = true
check_caps (none ∷ cs) offered = true
check_caps (some c ∷ cs) offered = if lacks_cap offered c then false else check_caps cs offered

-- The loop of `mk_capreq`: the string in `dest`, of `destsz` bytes, and `first`.
unfoldable pub capreq_loop : ℕ → Bytes → Bool → Caps → Bytes × Bool
capreq_loop destsz dest first [] = (dest, first)
capreq_loop destsz dest first (none ∷ cs) = (dest, first)
capreq_loop destsz dest first (some c ∷ cs) =
    let spaced = if first then dest else ncat destsz dest (space ∷ []) in
    capreq_loop destsz (if c.offered then ncat destsz spaced c.name else dest)
      (if c.offered then false else first) cs

unfoldable pub mk_capreq : Caps → ℕ → Bytes × Bool
unfolding capreq_loop
mk_capreq caps destsz = let (dest, first) = capreq_loop destsz [] true caps in (dest, not first)

-- An `int` that says what a flag becomes: `none` is -1, "don't upd".
abbrev pub or_old : Option Bool → Bool → Bool
or_old none b = b
or_old (some b') b = b'

abbrev pub adddata_of : Option Bytes → Bytes
adddata_of none = []
adddata_of (some d) = take 127 d

-- `adddata` is written in every round, outside of the test of the name.
pub update_cap : Caps → Bytes → Option Bytes → Option Bool → Option Bool → Caps
update_cap [] cap adddata offered enabled = []
update_cap (none ∷ cs) cap adddata offered enabled = none ∷ cs
update_cap (some c ∷ cs) cap adddata offered enabled =
    some (
      if same c.name cap
      then record c {
        adddata = adddata_of adddata;
        offered = or_old offered c.offered;
        enabled = or_old enabled c.enabled;
      }
      else record c { adddata = adddata_of adddata })
    ∷ update_cap cs cap adddata offered enabled

-- A fresh entry, in place of what the pointer held.
abbrev pub wanted : Bytes → Bool → Cap
wanted cap musthave = record {
  name = take 127 cap;
  adddata = [];
  musthave = musthave;
  offered = false;
  enabled = false;
}

-- The search and the write; a NULL pointer needs memory.
unfoldable pub want_cap : Bool → Caps → Bytes → Bool → Caps × Bool
want_cap memory [] cap musthave = ([], false)
want_cap memory (none ∷ cs) cap musthave =
    if memory then (some (wanted cap musthave) ∷ cs, true) else (none ∷ cs, false)
want_cap memory (some c ∷ cs) cap musthave =
    let (rest, done) = want_cap memory cs cap musthave in
    if same c.name cap then (some (wanted cap musthave) ∷ cs, true) else (some c ∷ rest, done)

-- The index of the first NULL, or the size of the array.
first_null : Caps → ℕ → ℕ
first_null [] i = i
first_null (none ∷ cs) i = i
first_null (some c ∷ cs) i = first_null cs (i + 1)

-- The index of the capability before the first NULL, if it is there.
index_of : Caps → Bytes → ℕ → Option ℕ
index_of [] cap i = none
index_of (none ∷ cs) cap i = none
index_of (some c ∷ cs) cap i = if same c.name cap then some i else index_of cs cap (i + 1)

clear_at : Caps → ℕ → Option ℕ → Caps
clear_at caps cnt none = caps
clear_at caps cnt (some i) = set (set caps i (get_or caps (cnt - 1) none)) (cnt - 1) none

-- The last capability takes the place of the one that is cleared.
pub clear_cap : Caps → Bytes → Caps
unfolding clear_at index_of first_null
clear_cap caps cap = clear_at caps (first_null caps 0) (index_of caps cap 0)

-- What `update_caps` does to the capability that a token names.
abbrev pub mark_cap : Bool → Option Bytes → Cap → Cap
mark_cap true none c = record c { offered = true }
mark_cap true (some d) c = record c { offered = true; adddata = take 127 d }
mark_cap false none c = record c { enabled = true }
mark_cap false (some d) c = record c { enabled = true; adddata = take 127 d }

-- The write through the pointer that `find_cap` gives.
unfoldable pub update_found : Caps → Bytes → (Cap → Cap) → Caps
update_found [] cap f = []
update_found (none ∷ cs) cap f = none ∷ update_found cs cap f
update_found (some c ∷ cs) cap f =
    if same c.name cap then some (f c) ∷ cs else some c ∷ update_found cs cap f

-- One round, on one token: `name` or `name=value`.
unfoldable pub update_token : Caps → Bytes → Bool → Caps
update_token caps tok offered =
    update_found caps (before b'=' tok) (mark_cap offered (behind b'=' tok))

-- The loop over the tokens, with fuel for its rounds; `none` is that the fuel ran out.
unfoldable pub update_loop : ℕ → Caps → Bytes → Bool → Option Caps
update_loop zero caps buf offered = none
update_loop (suc fuel) caps buf offered = elim (next_tok buf space).1 [
  | none ↦ some (update_token caps (next_tok buf space).0 offered)
  | some next ↦ update_loop fuel (update_token caps (next_tok buf space).0 offered) next offered
]

-- The line is cut to 511 bytes; each round takes at least one of them.
unfoldable pub update_caps : Caps → Bytes → Bool → Option Caps
unfolding update_loop update_token update_found
update_caps caps capsline offered = update_loop 512 caps (take 511 capsline) offered
