-- ===== src/Logon/Isupport/Classes.antt =====
-- How the value of CHANMODES is cut into the four classes of channel modes.
use libsrsirc.Base.{
  ℕ, zero, suc, ◌≤◌, ◌<◌, ◌≡◌, refl, sym, ap, ◌∙◌, true, false, List, [], ◌∷◌, ◌++◌, Bytes, ◌==◌,
  length, take, take-all, length-append, Lacks, All, arith, append-nil, append_assoc,
}
use libsrsirc.Modes.{ModeTypes}
use libsrsirc.Logon.Isupport.{flush, strtok_all, classes, handle_005_chanmodes}

-- The texts with a `d` between each two.
unfoldable pub join : ℕ → List Bytes → Bytes
join d [] = []
join d (t ∷ []) = t
join d (t ∷ u ∷ ts) = t ++ d ∷ join d (u ∷ ts)

-- A token has bytes, and no delimiter among them.
abbrev pub IsToken : ℕ → Bytes → Type 0
IsToken d t = (0 < length t) × Lacks d t

flush-some : (t : Bytes) (rest : List Bytes) → 0 < length t → flush t rest ≡ t ∷ rest
unfolding flush
flush-some [] rest h = absurd (omega arith)
flush-some (c ∷ t) rest h = refl

strtok_all-last : (d : ℕ) (cur t : Bytes) → Lacks d t → strtok_all d cur t ≡ flush (cur ++ t) []
unfolding strtok_all
strtok_all-last d cur [] z = ap (λ u. flush u []) (sym (append-nil cur))
strtok_all-last d cur (c ∷ t) (ne, z) =
    let e : (c == d) ≡ false = ground arith in
    rw (e, strtok_all)
      (strtok_all-last d (cur ++ c ∷ []) t z ∙ ap (λ u. flush u []) (append_assoc cur (c ∷ []) t))

strtok_all-append :
    (d : ℕ) (cur t s : Bytes)
    → Lacks d t
    → strtok_all d cur (t ++ d ∷ s) ≡ flush (cur ++ t) (strtok_all d [] s)
unfolding strtok_all
strtok_all-append d cur [] s z =
    let e : (d == d) ≡ true = ground arith in
    rw (e, strtok_all) (ap (λ u. flush u (strtok_all d [] s)) (sym (append-nil cur)))
strtok_all-append d cur (c ∷ t) s (ne, z) =
    let e : (c == d) ≡ false = ground arith in
    rw (e, strtok_all)
      (strtok_all-append d (cur ++ c ∷ []) t s z
        ∙ ap (λ u. flush u (strtok_all d [] s)) (append_assoc cur (c ∷ []) t))

strtok_all-join : (d : ℕ) (ts : List Bytes) → All (IsToken d) ts → strtok_all d [] (join d ts) ≡ ts
unfolding join strtok_all
strtok_all-join d [] h = refl
strtok_all-join d (t ∷ []) ((pos, z), h) = strtok_all-last d [] t z ∙ flush-some t [] pos
strtok_all-join d (t ∷ u ∷ ts) ((pos, z), h) =
    strtok_all-append d [] t (join d (u ∷ ts)) z
    ∙ flush-some t _ pos
    ∙ ap (λ r. t ∷ r) (strtok_all-join d (u ∷ ts) h)

-- The first `n` of the texts, and empty ones where there are fewer.
pub padded : ℕ → List Bytes → List Bytes
padded zero ts = []
padded (suc n) [] = [] ∷ padded n []
padded (suc n) (t ∷ ts) = t ∷ padded n ts

length-join :
    (d : ℕ) (t : Bytes) (ts : List Bytes)
    → (length t ≤ length (join d (t ∷ ts))) × (length (join d ts) ≤ length (join d (t ∷ ts)))
unfolding join
length-join d t [] = (omega arith, omega arith)
length-join d t (u ∷ ts) =
    let e = length-append t (d ∷ join d (u ∷ ts)) in (omega (arith, e), omega (arith, e))

classes-padded : (n d : ℕ) (ts : List Bytes) → length (join d ts) ≤ 63 → classes n ts ≡ padded n ts
unfolding classes padded
classes-padded zero d ts h = refl
classes-padded (suc n) d [] h = ap (λ r. [] ∷ r) (classes-padded n d [] h)
classes-padded (suc n) d (t ∷ ts) h =
    let (a, b) = length-join d t ts in
    rw (take-all 63 t (omega arith), classes-padded n d ts (omega arith)) refl

-- Four classes without a comma, none of them empty, in 63 bytes with the commas between them, are read as
-- they are; of more classes the first four are, and those that are missing are empty. The prefixes
-- stay as they were.
pub handle_005_chanmodes-join :
    (t : ModeTypes) (ts : List Bytes)
    → All (IsToken b',') ts
    → length (join b',' ts) ≤ 63
    → handle_005_chanmodes t (join b',' ts) ≡ record t { chanmodes = padded 4 ts }
unfolding handle_005_chanmodes
handle_005_chanmodes-join t ts h small =
    let cut : classes 4 (strtok_all b',' [] (take 63 (join b',' ts))) ≡ padded 4 ts =
      rw (take-all 63 (join b',' ts) small, strtok_all-join b',' ts h)
        (classes-padded 4 b',' ts small) in
    ap (λ cs. record t { chanmodes = cs }) cut
