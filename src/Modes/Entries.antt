-- ===== src/Modes/Entries.antt =====
-- What the entries of a parsed MODE message are, and that their array is large enough.
use libsrsirc.Base.{
  ℕ, zero, suc, ◌+◌, ◌-◌, ◌≤◌, ◌<◌, ◌≡◌, ◌≢◌, refl, sym, ap, subst, ◌∙◌, ◌⊎◌, Bool, true, false,
  Option, none, some, List, [], ◌∷◌, ◌++◌, Bytes, ◌==◌, if◌then◌else◌, leb, length, drop, get_or,
  length-append, append-nil, append_assoc, Bool-cases, Option-cases, inl, inr, All, arith,
}
use native.Mathlib.Nat.{zero-add, suc-add}
use libsrsirc.Base.Mem.{Mem, ok, fault}
use libsrsirc.Proto.{Tokarr, has_byte, space}
use libsrsirc.Msg.{count_args}
use libsrsirc.Modes.{
  ModeTypes, ModeClass, class_a, class_b, class_c, class_d, classify_chanmode, takes_arg, next_arg,
  entry, store, add_entry, resume, mode_loop, count_byte, num_modes, bit, parse_mode,
}
use libsrsirc.Modes.Classes.{class_of, classify_chanmode-class_of}

-- Whether a mode has an argument; `none` is a mode that the 005 does not know. Modes of class A and B
-- have one, modes of class C where they are set, modes of class D none, and modes with a prefix, which
-- are in no class, have one.
unfoldable pub has_arg : ModeTypes → ℕ → Bool → Option Bool
has_arg t c enable = elim (class_of t c) [
  | some class_a ↦ some true
  | some class_b ↦ some true
  | some class_c ↦ some enable
  | some class_d ↦ some false
  | none ↦ if has_byte t.pfx_modes c then some true else none
]

-- The first argument, or a star where there is none, and the others.
abbrev pub first_arg : List Bytes → Bytes
first_arg [] = b'*' ∷ []
first_arg (a ∷ args) = a

abbrev pub other_args : List Bytes → List Bytes
other_args [] = []
other_args (a ∷ args) = args

abbrev pub sign : Bool → ℕ
sign true = b'+'
sign false = b'-'

-- The entries of the modes that the 005 knows: the sign that stands before the mode, the mode and, where
-- it has one, its argument behind a space; the arguments are used up from left to right.
unfoldable pub known_modes : ModeTypes → List Bytes → Bytes → Bool → List Bytes
unfolding has_arg
known_modes t args [] enable = []
known_modes t args (c ∷ s) enable = elim (c == b'+') [
  | true ↦ known_modes t args s true
  | false ↦ elim (c == b'-') [
    | true ↦ known_modes t args s false
    | false ↦ elim (has_arg t c enable) [
      | none ↦ known_modes t args s enable
      | some false ↦ (sign enable ∷ c ∷ []) ∷ known_modes t args s enable
      | some true ↦
          (sign enable ∷ c ∷ space ∷ first_arg args) ∷ known_modes t (other_args args) s enable
    ]
  ]
]

-- The texts before the first empty element.
unfoldable pub texts : Tokarr → List Bytes
texts [] = []
texts (none ∷ ts) = []
texts (some t ∷ ts) = t ∷ texts ts

by_class :
    (t : ModeTypes) (c : ℕ) (enable : Bool) (o : Option ModeClass)
    → takes_arg t c enable o ≡ elim o [
      | some class_a ↦ some true
      | some class_b ↦ some true
      | some class_c ↦ some enable
      | some class_d ↦ some false
      | none ↦ if has_byte t.pfx_modes c then some true else none
    ]
unfolding takes_arg
by_class t c enable (some class_a) = refl
by_class t c enable (some class_b) = refl
by_class t c enable (some class_c) = refl
by_class t c enable (some class_d) = refl
by_class t c enable none = refl

takes_arg-has_arg :
    (t : ModeTypes) (c : ℕ) (enable : Bool)
    → c ≢ 0
    → takes_arg t c enable (classify_chanmode t c) ≡ has_arg t c enable
unfolding takes_arg has_arg
takes_arg-has_arg t c enable ne =
    ap (takes_arg t c enable) (classify_chanmode-class_of t c ne)
    ∙ by_class t c enable (class_of t c)

-- The bytes that are no signs.
letters : Bytes → ℕ
letters [] = 0
letters (c ∷ s) = (if c == b'+' then 0 else if c == b'-' then 0 else 1) + letters s

letters-num_modes : (s : Bytes) → letters s + (count_byte s b'-' + count_byte s b'+') ≡ length s
unfolding letters count_byte
letters-num_modes [] = omega arith
letters-num_modes (c ∷ s) = ground (arith, letters-num_modes s)

count_args-texts : (ts : Tokarr) (k : ℕ) → count_args ts k ≡ k + length (texts ts)
unfolding count_args texts
count_args-texts [] k = omega arith
count_args-texts (none ∷ ts) k = omega arith
count_args-texts (some t ∷ ts) k = omega (arith, count_args-texts ts (k + 1))

-- The argument at an index, as the texts have it.
Args : Tokarr → ℕ → List Bytes → Type 0
Args ts i args =
    ((length (texts ts) ≤ i) × (args ≡ []))
    ⊎ ((i < length (texts ts))
        × (get_or ts i none ≡ some (first_arg args))
        × (other_args args ≡ drop (suc i) (texts ts)))

texts-Args : (ts : Tokarr) (i : ℕ) → Args ts i (drop i (texts ts))
unfolding Args texts
texts-Args [] zero = inl (omega arith, refl)
texts-Args [] (suc i) = inl (omega arith, refl)
texts-Args (none ∷ ts) zero = inl (omega arith, refl)
texts-Args (none ∷ ts) (suc i) = inl (omega arith, refl)
texts-Args (some t ∷ ts) zero = inr (omega arith, refl, refl)
texts-Args (some t ∷ ts) (suc i) = elim (texts-Args ts i) [
  | inl (le, e) ↦ inl (omega arith, e)
  | inr (lt, e, f) ↦ inr (omega arith, e, f)
]

get_or-drop : (msg : Tokarr) (k i : ℕ) → get_or (drop k msg) i none ≡ get_or msg (k + i) none
get_or-drop msg zero i = rw zero-add refl
get_or-drop [] (suc k) i = refl
get_or-drop (x ∷ msg) (suc k) i = rw suc-add (get_or-drop msg k i)

-- What a parse gives for the entries `want`: these entries and their number; or nothing, where an
-- allocation failed.
abbrev pub Parsed : (ℕ → Bool) → List Bytes → Option (List Bytes × ℕ) → Type 0
Parsed memory want none = (j : ℕ) × (memory j ≡ false)
Parsed memory want (some (out, num)) = (out ≡ want) × (num ≡ length want)

entry-plain : (enable : Bool) (c : ℕ) → entry enable c none ≡ sign enable ∷ c ∷ []
unfolding entry
entry-plain true c = refl
entry-plain false c = refl

entry-arg :
    (enable : Bool) (c : ℕ) (a : Bytes) → entry enable c (some a) ≡ sign enable ∷ c ∷ space ∷ a
unfolding entry
entry-arg true c a = refl
entry-arg false c a = refl

module _ (t : ModeTypes) (memory : ℕ → Bool) (allocated : ℕ) (msg : Tokarr) where
  abbrev ac : ℕ
  ac = count_args (drop 2 msg) 2

  abbrev args_at : ℕ → List Bytes
  args_at i = drop (i - 2) (texts (drop 2 msg))

  store-Stored :
      (out : List Bytes) (e : Bytes)
      → length out < allocated
      → (store t memory allocated msg ac out e ≡ ok (some (out ++ e ∷ [])))
        ⊎ ((memory (length out) ≡ false) × (store t memory allocated msg ac out e ≡ ok none))
  unfolding store
  store-Stored out e room = elim (Bool-cases (memory (length out))) [
    | inl m ↦ inl (ground arith)
    | inr m ↦ inr (m, ground arith)
  ]

  arg-taken :
      (i : ℕ)
      → 2 ≤ i
      → (i' : ℕ) × (next_arg msg ac i ≡ ok (first_arg (args_at i), i'))
        × (i ≤ i')
        × (other_args (args_at i) ≡ args_at i')
  unfolding next_arg Args
  arg-taken i low =
      let size = count_args-texts (drop 2 msg) 2 in
      elim (texts-Args (drop 2 msg) (i - 2)) [
        | inl (le, e) ↦
            let out : leb ac i ≡ true = ground (arith, size) in
            (i, rw (out, e) refl, omega arith, rw e refl)
        | inr (lt, e, f) ↦
            let next : suc (i - 2) ≡ i + 1 - 2 = omega arith in
            let under : leb ac i ≡ false = ground (arith, size) in
            let here : get_or msg i none ≡ some (first_arg (args_at i)) =
              ap (λ k. get_or msg k none) (omega arith) ∙ sym (get_or-drop msg 2 (i - 2)) ∙ e in
            (
              i + 1,
              rw (under, here) refl,
              omega arith,
              f ∙ ap (λ k. drop k (texts (drop 2 msg))) next,
            )
      ]

  -- What `add_entry` gives for the entry `e`, with the arguments that are left.
  abbrev Added : Bytes → List Bytes → ℕ → List Bytes → Mem (Option (List Bytes) × ℕ) → Type 0
  Added e left i out fault = ⊥
  Added e left i out (ok (none, i')) = (j : ℕ) × (memory j ≡ false)
  Added e left i out (ok (some out', i')) = (i ≤ i') × (out' ≡ out ++ e ∷ []) × (left ≡ args_at i')

  plain-Added :
      (enable : Bool) (c i : ℕ) (out : List Bytes)
      → 2 ≤ i
      → length out < allocated
      → Added
          (sign enable ∷ c ∷ [])
          (args_at i)
          i
          out
          (add_entry t memory allocated msg ac enable c false i out)
  unfolding add_entry
  plain-Added enable c i out low room = elim (store-Stored out (entry enable c none) room) [
    | inl e ↦ rw e (omega arith, ap (λ b. out ++ b ∷ []) (entry-plain enable c), refl)
    | inr (m, e) ↦ rw e (length out, m)
  ]

  arg-Added :
      (enable : Bool) (c i : ℕ) (out : List Bytes)
      → 2 ≤ i
      → length out < allocated
      → Added
          (sign enable ∷ c ∷ space ∷ first_arg (args_at i))
          (other_args (args_at i))
          i
          out
          (add_entry t memory allocated msg ac enable c true i out)
  unfolding add_entry
  arg-Added enable c i out low room =
      let (i', taken, le, left) = arg-taken i low in
      elim (store-Stored out (entry enable c (some (first_arg (args_at i)))) room) [
        | inl e ↦
            rw (taken, e)
              (le, ap (λ b. out ++ b ∷ []) (entry-arg enable c (first_arg (args_at i))), left)
        | inr (m, e) ↦ rw (taken, e) (length out, m)
      ]

  -- The loop ends with these entries.
  abbrev Ends : List Bytes → Mem (Option (List Bytes × ℕ)) → Type 0
  Ends want m = (r : Option (List Bytes × ℕ)) × (m ≡ ok r) × Parsed memory want r

  resume-Ends :
      (e : Bytes) (left : List Bytes) (i : ℕ) (out want : List Bytes)
      (loop : List Bytes → ℕ → Mem (Option (List Bytes × ℕ))) (m : Mem (Option (List Bytes) × ℕ))
      → Added e left i out m
      → ((i' : ℕ) → i ≤ i' → left ≡ args_at i' → Ends want (loop (out ++ e ∷ []) i'))
      → Ends want (resume loop m)
  unfolding resume
  resume-Ends e left i out want loop (ok (none, i')) fails rest = (none, refl, fails)
  resume-Ends e left i out want loop (ok (some out', i')) (le, is, l) rest = rw is (rest i' le l)
  resume-Ends e left i out want loop fault f rest = absurd f

  -- The rest of the loop behind an entry that was written.
  next-Ends :
      (e : Bytes) (left : List Bytes) (i' : ℕ) (ptr : Bytes) (enable : Bool) (num : ℕ)
      (out : List Bytes)
      → left ≡ args_at i'
      → Ends
          ((out ++ e ∷ []) ++ known_modes t (args_at i') ptr enable)
          (mode_loop t memory allocated msg ac ptr enable i' num (out ++ e ∷ []))
      → Ends
          (out ++ e ∷ known_modes t left ptr enable)
          (mode_loop t memory allocated msg ac ptr enable i' num (out ++ e ∷ []))
  next-Ends e left i' ptr enable num out l ends =
      subst
        (λ want. Ends want (mode_loop t memory allocated msg ac ptr enable i' num (out ++ e ∷ [])))
        (append_assoc out (e ∷ []) (known_modes t (args_at i') ptr enable)
          ∙ ap (λ args. out ++ e ∷ known_modes t args ptr enable) (sym l))
        ends

  mode_loop-Ends :
      (ptr : Bytes) (enable : Bool) (i num : ℕ) (out : List Bytes)
      → All (λ c. c ≢ 0) ptr
      → 2 ≤ i
      → num ≡ length out + letters ptr
      → num ≤ allocated
      → Ends
          (out ++ known_modes t (args_at i) ptr enable)
          (mode_loop t memory allocated msg ac ptr enable i num out)
  unfolding mode_loop known_modes letters
  mode_loop-Ends [] enable i num out text low size fits =
      (some (out, num), refl, (sym (append-nil out), ground (arith, length-append out [])))
  mode_loop-Ends (c ∷ ptr) enable i num out (ne, text) low size fits =
      elim (Bool-cases (c == b'+')) [
        | inl e ↦
            rw (e, mode_loop, known_modes)
              (mode_loop-Ends ptr true i num out text low (ground arith) fits)
        | inr e ↦ elim (Bool-cases (c == b'-')) [
          | inl f ↦
              rw (e, f, mode_loop, known_modes)
                (mode_loop-Ends ptr false i num out text low (ground arith) fits)
          | inr f ↦
              let same = takes_arg-has_arg t c enable ne in
              elim (Option-cases (has_arg t c enable)) [
                | inl g ↦
                    rw (e, f, same, g, mode_loop, known_modes)
                      (mode_loop-Ends ptr enable i (num - 1) out text low (ground arith)
                        (omega arith))
                | inr (a, g) ↦ elim (Bool-cases a) [
                  | inr plain ↦
                      rw (e, f, same, g, plain, mode_loop, known_modes)
                        (resume-Ends (sign enable ∷ c ∷ []) (args_at i) i out _ _ _
                          (plain-Added enable c i out low (ground arith))
                          (λ i' le left.
                            next-Ends (sign enable ∷ c ∷ []) (args_at i) i' ptr enable num out left
                              (mode_loop-Ends ptr enable i' num (out ++ (sign enable ∷ c ∷ []) ∷ [])
                                text (omega arith)
                                (ground (arith, length-append out ((sign enable ∷ c ∷ []) ∷ [])))
                                fits)))
                  | inl takes ↦
                      let en = sign enable ∷ c ∷ space ∷ first_arg (args_at i) in
                      rw (e, f, same, g, takes, mode_loop, known_modes)
                        (resume-Ends en (other_args (args_at i)) i out _ _ _
                          (arg-Added enable c i out low (ground arith))
                          (λ i' le left.
                            next-Ends en (other_args (args_at i)) i' ptr enable num out left (
                              mode_loop-Ends ptr enable i' num (out ++ en ∷ []) text (omega arith)
                                (ground (arith, length-append out (en ∷ []))) fits)))
                ]
              ]
        ]
      ]

-- A MODE message with modes in it is parsed to an entry for each mode that the 005 knows, in order:
-- its sign, the mode and, where it has one, its argument, which is a star where the message has
-- none left. The array, which is allocated for the bytes that are no signs, has room for each, and
-- the number that is given is their number. Only a failed allocation gives nothing. No mode is 0.
pub parse_mode-Parsed :
    (t : ModeTypes) (memory : ℕ → Bool) (msg : Tokarr) (is324 : Bool) (modes : Bytes)
    → get_or msg (3 + bit is324) none ≡ some modes
    → All (λ c. c ≢ 0) modes
    → (r : Option (List Bytes × ℕ)) × (parse_mode t true true memory msg is324 ≡ ok r)
      × Parsed memory (known_modes t (drop (2 + bit is324) (texts (drop 2 msg))) modes true) r
unfolding parse_mode num_modes
parse_mode-Parsed t memory msg is324 modes h text =
    rw (h, parse_mode)
      (subst
        (λ i.
          (r : Option (List Bytes × ℕ)) × (mode_loop t memory (num_modes modes) msg
              (count_args (drop 2 msg) 2) modes true (4 + bit is324) (num_modes modes) []
            ≡ ok r)
          × Parsed memory (known_modes t (drop i (texts (drop 2 msg))) modes true) r)
        (omega arith)
        (mode_loop-Ends t memory (num_modes modes) msg modes true (4 + bit is324) (num_modes modes)
          [] text (omega arith) (omega (arith, letters-num_modes modes)) (omega arith)))
