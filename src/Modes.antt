-- ===== src/Modes.antt =====
-- `lsi_ut_classify_chanmode` and `lsi_ut_parse_MODE` of libsrsirc/util.c. The result array is the list
-- of the entries written so far; `allocated` is its size, and a write behind it is a `fault`.
-- `memory i` says whether the allocation of entry `i` succeeds.
pub mod Classes
pub mod Entries
use libsrsirc.Base.{
  ℕ, zero, suc, ◌+◌, ◌-◌, Bool, true, false, Option, none, some, List, [], ◌∷◌, ◌++◌, Bytes, ◌==◌,
  if◌then◌else◌, leb, length, drop, get_or, ◌&&◌,
}
use libsrsirc.Base.Mem.{Mem, ok, fault, ◌>>=◌}
use libsrsirc.Proto.{Tokarr, has_byte, space}
use libsrsirc.Msg.{count_args}

-- What the server's 005 says about modes: the four classes of channel modes, and the modes that
-- give a prefix with their symbols.
pub record ModeTypes : Type 0 where
  pub chanmodes : List Bytes
  pub pfx_modes : Bytes
  pub pfx_syms : Bytes

-- `CHANMODE_CLASS_A` is 1; `none` is 0.
pub data ModeClass : Type 0 where
  class_a : ModeClass
  class_b : ModeClass
  class_c : ModeClass
  class_d : ModeClass

nth_class : ℕ → Option ModeClass
nth_class zero = some class_a
nth_class (suc zero) = some class_b
nth_class (suc (suc zero)) = some class_c
nth_class (suc (suc (suc zero))) = some class_d
nth_class (suc (suc (suc (suc n)))) = none

-- The loop from the class `z` on; `strchr` of 0 finds the end of the string.
class_from : ℕ → List Bytes → ℕ → Option ModeClass
unfolding nth_class
class_from z [] c = none
class_from z (m ∷ ms) c =
    let rest = class_from (suc z) ms c in
    if c == 0 then nth_class z else if has_byte m c then nth_class z else rest

unfoldable pub classify_chanmode : ModeTypes → ℕ → Option ModeClass
unfolding class_from
classify_chanmode t c = class_from 0 t.chanmodes c

-- Whether a mode takes an argument; `none` is an unknown one.
takes_arg : ModeTypes → ℕ → Bool → Option ModeClass → Option Bool
takes_arg t c enable (some class_a) = some true
takes_arg t c enable (some class_b) = some true
takes_arg t c enable (some class_c) = some enable
takes_arg t c enable (some class_d) = some false
takes_arg t c enable none = if has_byte t.pfx_modes c then some true else none

-- `i >= ac ? "*" : (*msg)[i++]`
next_arg : Tokarr → ℕ → ℕ → Mem (Bytes × ℕ)
next_arg msg ac i =
    if leb ac i
    then ok (b'*' ∷ [], i)
    else elim (get_or msg i none) [ none ↦ fault | some a ↦ ok (a, i + 1) ]

-- An entry: the sign, the mode and the argument behind a space.
pub entry : Bool → ℕ → Option Bytes → Bytes
entry enable c none = (if enable then b'+' else b'-') ∷ c ∷ []
entry enable c (some a) = (if enable then b'+' else b'-') ∷ c ∷ space ∷ a

-- The rest of the loop, unless the write jumped to `fail`.
resume :
    (List Bytes → ℕ → Mem (Option (List Bytes × ℕ)))
    → Mem (Option (List Bytes) × ℕ)
    → Mem (Option (List Bytes × ℕ))
resume loop fault = fault
resume loop (ok (none, i)) = ok none
resume loop (ok (some out, i)) = loop out i

module _ (t : ModeTypes) (memory : ℕ → Bool) (allocated : ℕ) (msg : Tokarr) (ac : ℕ) where
  -- The write of an entry; `none` is the jump to `fail`.
  store : List Bytes → Bytes → Mem (Option (List Bytes))
  store out e =
      if leb allocated (length out)
      then fault
      else if memory (length out)
      then ok (some (out ++ e ∷ []))
      else ok none

  -- The argument of the mode `c`, if it takes one, then the write.
  add_entry : Bool → ℕ → Bool → ℕ → List Bytes → Mem (Option (List Bytes) × ℕ)
  unfolding store next_arg
  add_entry enable c false i out = store out (entry enable c none) >>= λ o. ok (o, i)
  add_entry enable c true i out =
      next_arg msg ac i >>= λ a. store out (entry enable c (some a.0)) >>= λ o. ok (o, a.1)

  -- The loop over the modes: `num` is `nummodes`, which falls with each unknown mode.
  mode_loop : Bytes → Bool → ℕ → ℕ → List Bytes → Mem (Option (List Bytes × ℕ))
  unfolding takes_arg add_entry resume
  mode_loop [] enable i num out = ok (some (out, num))
  mode_loop (c ∷ ptr) enable i num out = elim (c == b'+') [
    | true ↦ mode_loop ptr true i num out
    | false ↦ elim (c == b'-') [
      | true ↦ mode_loop ptr false i num out
      | false ↦ elim (takes_arg t c enable (classify_chanmode t c)) [
        | none ↦ mode_loop ptr enable i (num - 1) out
        | some a ↦ resume (λ out' i'. mode_loop ptr enable i' num out') (add_entry enable c a i out)
      ]
    ]
  ]

-- `lsi_com_strCchr`, the number of bytes `c`.
unfoldable pub count_byte : Bytes → ℕ → ℕ
count_byte [] c = 0
count_byte (x ∷ s) c = (if x == c then 1 else 0) + count_byte s c

pub num_modes : Bytes → ℕ
unfolding count_byte
num_modes modes = length modes - (count_byte modes b'-' + count_byte modes b'+')

abbrev pub bit : Bool → ℕ
bit true = 1
bit false = 0

-- The modes with their signs and arguments and the number of entries; `none` is NULL.
-- `dup` and `array` say whether the first two allocations succeed.
pub parse_mode :
    ModeTypes → Bool → Bool → (ℕ → Bool) → Tokarr → Bool → Mem (Option (List Bytes × ℕ))
unfolding mode_loop
parse_mode t dup array memory msg is324 = elim (get_or msg (3 + bit is324) none) [
  | none ↦ fault
  | some modes ↦
      if dup && array
      then mode_loop t memory (num_modes modes) msg (count_args (drop 2 msg) 2) modes true
          (4 + bit is324) (num_modes modes) []
      else ok none
]
