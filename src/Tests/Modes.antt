-- ===== src/Tests/Modes.antt =====
-- Runs of the mode parser, of the prefix symbols of a member and of the modes of a channel.
use libsrsirc.Base.{
  ℕ, ◌≤◌, ◌≡◌, refl, Bool, true, false, not, ◌&&◌, ◌||◌, Option, none, some, List, [], ◌∷◌, Bytes,
  codes, All, drop, ◌==◌, if◌then◌else◌, ltb, length, ◌⊎◌, arith,
}
use libsrsirc.Base.Mem.{ok}
use mathlib.Core.List.{Perm}
use libsrsirc.Proto.{Tokarr, has_byte}
use libsrsirc.Modes.{ModeTypes, ModeClass, parse_mode}
use libsrsirc.Modes.Classes.{class_of}
use libsrsirc.Modes.Entries.{Parsed, has_arg, texts, known_modes, parse_mode-Parsed}
use libsrsirc.Ucbase.{index_of, update_modepfx, add_chanmode, drop_chanmode}
use libsrsirc.Ucbase.Prefixes.{Ranked, update_modepfx-Ranked}
use libsrsirc.Ucbase.Chanmodes.{present, IsLike, add_chanmode-perm, drop_chanmode-perm}

abbrev types : ModeTypes
types = record {
  chanmodes = codes "b" ∷ codes "k" ∷ codes "l" ∷ codes "psitnm" ∷ [];
  pfx_modes = codes "ov";
  pfx_syms = codes "@+";
}

-- `MODE #c +o-k nick key`
abbrev mode_msg : Tokarr
mode_msg =
    none
    ∷ some (codes "MODE")
    ∷ some (codes "#c")
    ∷ some (codes "+o-k")
    ∷ some (codes "nick")
    ∷ some (codes "key")
    ∷ none
    ∷ []

parse_mode-Parsed_example :
    (r : Option (List Bytes × ℕ)) × (parse_mode types true true (λ i. true) mode_msg false ≡ ok r)
    × Parsed
        (λ i. true)
        (known_modes types (drop 2 (texts (drop 2 mode_msg))) (codes "+o-k") true)
        r
parse_mode-Parsed_example =
    parse_mode-Parsed types (λ i. true) mode_msg false (codes "+o-k") refl
      (omega arith, (omega arith, (omega arith, (omega arith, tt))))

-- The entries are those that are expected.
mode_entries :
    known_modes types (drop 2 (texts (drop 2 mode_msg))) (codes "+o-k") true
    ≡ codes "+o nick" ∷ codes "-k key" ∷ []
unfolding known_modes has_arg class_of has_byte texts
mode_entries = refl

update_modepfx-Ranked_example :
    (r : Bytes) × (done : Bool) × (update_modepfx (codes "@+") (codes "+") b'@' true ≡ ok (r, done))
    × (done ≡ (
        if true
        then not (has_byte (codes "+") b'@') && ltb (length (codes "+")) 7
        else has_byte (codes "+") b'@'))
    × Ranked (codes "@+") 0 r
    × (length r ≤ 7)
    × ((q : ℕ) → has_byte r q ≡ (if done && (q == b'@') then true else has_byte (codes "+") q))
unfolding index_of
update_modepfx-Ranked_example =
    update_modepfx-Ranked (codes "@+") (codes "+") b'@' 0 true (1, refl, omega arith, tt)
      (omega arith) refl

abbrev slots : List (Option Bytes)
slots = some (codes "k key") ∷ none ∷ some (codes "n") ∷ []

add_chanmode-perm_example :
    (let r = add_chanmode true true slots (codes "t") in
      (r.1 ≡ ((ltb (length (present slots)) (length slots) || true) && true))
      × Perm (present r.0) (if r.1 then codes "t" ∷ present slots else present slots))
add_chanmode-perm_example = add_chanmode-perm true true slots (codes "t") (omega arith)

drop_chanmode-perm_example :
    (let r = drop_chanmode types slots (codes "k other") in
      ((r.1 ≡ false)
        × (r.0 ≡ slots)
        × ((class_of types b'k' ≡ none)
            ⊎ ((cls : ModeClass) × (class_of types b'k' ≡ some cls)
                × All (λ m. ¬ IsLike cls (codes "k other") m) (present slots))))
      ⊎ ((r.1 ≡ true)
          × ((cls : ModeClass) × (class_of types b'k' ≡ some cls)
              × ((m : Bytes) × IsLike cls (codes "k other") m
                  × Perm (present slots) (m ∷ present r.0)))))
drop_chanmode-perm_example = drop_chanmode-perm types slots (codes "k other") (omega arith)
