-- ===== src/Ucbase.antt =====
-- libsrsirc/ucbase.c. This file has the prefix symbols of a channel member and the modes of a channel;
-- the modules below have the store of channels, users and members. A string is the list of its bytes
-- without the NUL.
pub mod Once
pub mod Prefixes
pub mod Chanmodes
pub mod Store
pub mod Users
pub mod Channels
pub mod Members
pub mod Rename
pub mod Sound
use libsrsirc.Base.{
  ℕ, zero, suc, ◌+◌, ◌-◌, Bool, true, false, ◌&&◌, Option, none, some, List, [], ◌∷◌, Bytes, ◌==◌,
  if◌then◌else◌, leb, length, get_or, set, replicate, is_some, ◌++◌,
}
use Prim.Native.Nat.{compare, Ordering}
use libsrsirc.Base.Mem.{Mem, ok, fault, ◌>>=◌}
use libsrsirc.Text.Ident.{map_suc}
use libsrsirc.Proto.{has_byte}
use libsrsirc.Msg.{same}
use libsrsirc.Text.{first_byte}
use libsrsirc.Modes.{ModeTypes, ModeClass, class_a, class_b, class_c, class_d, classify_chanmode}

-- The index of the first byte `c`, which is not 0.
unfoldable pub index_of : Bytes → ℕ → Option ℕ
index_of [] c = none
index_of (x ∷ s) c = if x == c then some 0 else map_suc (index_of s c)

-- The order of the two differences o2 and o1; a symbol that is not found is a difference with NULL.
offsets : Option ℕ → Option ℕ → Mem Ordering
offsets (some o1) (some o2) = ok (compare o2 o1)
offsets (some o1) none = fault
offsets none o = fault

-- `Ordering.gt` is 1, which says that `c1` is stronger, and `Ordering.lt` is -1.
pub compare_modepfx : Bytes → ℕ → ℕ → Mem Ordering
unfolding index_of offsets
compare_modepfx syms c1 c2 = offsets (index_of syms c1) (index_of syms c2)

-- The loop that drops the first byte `c` and moves what stands behind it.
pub remove_byte : Bytes → ℕ → Bytes
remove_byte [] c = []
remove_byte (x ∷ s) c = if x == c then s else x ∷ remove_byte s c

-- The loop over the stronger symbols, and the symbol in front of the others.
pub insert_pfx : Bytes → Bytes → ℕ → Mem Bytes
unfolding compare_modepfx
insert_pfx syms [] sym = ok (sym ∷ [])
insert_pfx syms (x ∷ pfx) sym =
    let rest = insert_pfx syms pfx sym in
    compare_modepfx syms x sym >>= λ o. elim o [
      | Ordering.gt ↦ rest >>= λ r. ok (x ∷ r)
      | Ordering.eq ↦ ok (sym ∷ x ∷ pfx)
      | Ordering.lt ↦ ok (sym ∷ x ∷ pfx)
    ]

-- The part of `lsi_ucb_update_modepfx` that has the member: its prefix and the result. `modepfx`
-- has 8 bytes; the symbol is not 0.
pub update_modepfx : Bytes → Bytes → ℕ → Bool → Mem (Bytes × Bool)
unfolding insert_pfx remove_byte
update_modepfx syms pfx sym true =
    if has_byte pfx sym
    then ok (pfx, false)
    else if leb 8 (length pfx + 1)
    then ok (pfx, false)
    else (insert_pfx syms pfx sym >>= λ r. ok (r, true))
update_modepfx syms pfx sym false =
    if has_byte pfx sym then ok (remove_byte pfx sym, true) else ok (pfx, false)

pub clear_chanmodes : List (Option Bytes) → List (Option Bytes)
clear_chanmodes [] = []
clear_chanmodes (m ∷ ms) = none ∷ clear_chanmodes ms

-- The index of the first slot that is NULL, or `modes_sz`.
pub first_null : List (Option Bytes) → ℕ
first_null [] = 0
first_null (none ∷ ms) = 0
first_null (some m ∷ ms) = suc (first_null ms)

-- The array with room at the index `ind`, with what its `MALLOC` gives. It is never empty.
pub with_room : Bool → List (Option Bytes) → ℕ → Option (List (Option Bytes))
with_room memory modes ind =
    if ind == length modes
    then if memory then some (modes ++ replicate (length modes) none) else none
    else some modes

-- `dup` says whether there is memory for the copy of the mode.
pub add_chanmode : Bool → Bool → List (Option Bytes) → Bytes → List (Option Bytes) × Bool
unfolding first_null with_room
add_chanmode memory dup modes modestr = elim (with_room memory modes (first_null modes)) [
  | none ↦ (modes, false)
  | some ms ↦
      if dup
      then (set ms (first_null modes) (some modestr), true)
      else (set ms (first_null modes) none, false)
]

-- The test of a slot that is not NULL: list modes are compared with their argument.
pub is_mode : ModeClass → Bytes → Bytes → Bool
is_mode class_a modestr m = same m modestr
is_mode class_b modestr m = first_byte m == first_byte modestr
is_mode class_c modestr m = first_byte m == first_byte modestr
is_mode class_d modestr m = first_byte m == first_byte modestr

-- The index of the first slot that passes, or `modes_sz`.
pub find_mode : (Bytes → Bool) → List (Option Bytes) → ℕ
find_mode test [] = 0
find_mode test (none ∷ ms) = suc (find_mode test ms)
find_mode test (some m ∷ ms) = if test m then 0 else suc (find_mode test ms)

-- The last slot from `n` down that is not NULL, or 0.
pub last_used : List (Option Bytes) → ℕ → ℕ
last_used modes zero = 0
last_used modes (suc n) =
    let rest = last_used modes n in if is_some (get_or modes (suc n) none) then suc n else rest

-- The last mode takes the place of the dropped one.
pub drop_at : List (Option Bytes) → ℕ → ℕ → List (Option Bytes)
drop_at modes i last =
    if last == i then set modes i none else set (set modes i (get_or modes last none)) last none

-- The part with the class of the mode, where it is known.
pub drop_found : List (Option Bytes) → ℕ → List (Option Bytes) × Bool
unfolding drop_at last_used
drop_found modes i =
    if i == length modes
    then (modes, false)
    else (drop_at modes i (last_used modes (length modes - 1)), true)

pub drop_chanmode : ModeTypes → List (Option Bytes) → Bytes → List (Option Bytes) × Bool
unfolding drop_found is_mode find_mode
drop_chanmode t modes modestr = elim (classify_chanmode t (first_byte modestr)) [
  | none ↦ (modes, false)
  | some cls ↦ drop_found modes (find_mode (is_mode cls modestr) modes)
]
