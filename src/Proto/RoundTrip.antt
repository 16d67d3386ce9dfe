-- ===== src/Proto/RoundTrip.antt =====
-- What `snrcmsg` prints, `tokenize` reads back.
use libsrsirc.Base.{
  ℕ, zero, suc, ◌+◌, ◌-◌, ◌≤◌, ◌<◌, ◌≡◌, refl, sym, ap, ◌∙◌, Bool, true, false, not, Option, none,
  some, List, [], ◌∷◌, ◌++◌, map, Bytes, ◌==◌, ◌&&◌, ◌||◌, if◌then◌else◌, Bool-cases, inl, inr, leb,
  length, take-all, replicate, length-append, append-nil, append_assoc, arith,
}
use libsrsirc.Base.Mem.{ok}
use libsrsirc.Proto.Words.{is_word, next_tok_end, next_tok_more, word_no_space}
use libsrsirc.Proto.{
  space, colon, crlf, arg_loop, behind_prefix, tokenize, Tokarr, ncat, has_byte, print_loop,
  print_head, snrcmsg,
}

-- Every parameter but the last is a word; the last one is too, or is marked by a colon.
unfoldable pub is_sendable : Bool → List Bytes → Bool
is_sendable coltr [] = true
is_sendable coltr (p ∷ []) = (coltr || has_byte p space) || is_word p
is_sendable coltr (p ∷ q ∷ ps) = is_word p && is_sendable coltr (q ∷ ps)

-- The wire format of the parameters.
unfoldable pub wire_params : Bool → List Bytes → Bytes
wire_params coltr [] = []
wire_params coltr (p ∷ []) = space ∷ (if coltr || has_byte p space then colon ∷ p else p)
wire_params coltr (p ∷ q ∷ ps) = space ∷ (p ++ wire_params coltr (q ∷ ps))

abbrev pub wire_head : Option Bytes → Bytes → Bytes
wire_head none cmd = cmd
wire_head (some pfx) cmd = colon ∷ (pfx ++ space ∷ cmd)

-- The wire format of a message, with no line end.
unfoldable pub wire : Option Bytes → Bytes → List Bytes → Bool → Bytes
wire pfx cmd ps coltr = wire_head pfx cmd ++ wire_params coltr ps

-- The `tokarr` of a message.
abbrev pub message : Option Bytes → Bytes → List Bytes → Tokarr
message pfx cmd ps = pfx ∷ some cmd ∷ (map some ps ++ replicate (16 - length ps) none)

arg_loop_end :
    (left : ℕ) (t : Bytes)
    → has_byte t space ≡ false
    → arg_loop left t ≡ some t ∷ replicate left none
unfolding arg_loop
arg_loop_end zero t h = refl
arg_loop_end (suc left) t h = rw (next_tok_end t h, arg_loop) (rw (next_tok_end t h))

arg_loop_more :
    (left : ℕ) (t : Bytes) (c : ℕ) (r : Bytes)
    → has_byte t space ≡ false
    → (c == space) ≡ false
    → arg_loop (suc left) (t ++ space ∷ c ∷ r)
      ≡ some t ∷ (if c == colon then some r ∷ replicate left none else arg_loop left (c ∷ r))
unfolding arg_loop
arg_loop_more left t c r h e = rw (next_tok_more t c r h e, arg_loop) (rw (next_tok_more t c r h e))

-- A word after a token: what follows it is read by the rest of the loop.
arg_loop_word :
    (left : ℕ) (t p r : Bytes)
    → has_byte t space ≡ false
    → is_word p ≡ true
    → arg_loop (suc left) (t ++ space ∷ (p ++ r)) ≡ some t ∷ arg_loop left (p ++ r)
unfolding is_word has_byte
arg_loop_word left t [] r h w = cc
arg_loop_word left t (c ∷ p) r h w =
    rw (arg_loop_more left t c (p ++ r) h (ground arith)) (ground arith)

arg_loop_last :
    (left : ℕ) (marked : Bool) (t p : Bytes)
    → has_byte t space ≡ false
    → (marked || is_word p) ≡ true
    → arg_loop (suc left) (t ++ space ∷ (if marked then colon ∷ p else p))
      ≡ some t ∷ some p ∷ replicate left none
arg_loop_last left true t p h w = rw (arg_loop_more left t colon p h refl)
arg_loop_last left false t p h w =
    let word = arg_loop_word left t p [] h w in
    rw (append-nil p) at word ∙ ap (λ r. some t ∷ r) (arg_loop_end left p (word_no_space p w))

arg_loop-wire :
    (left : ℕ) (coltr : Bool) (t : Bytes) (ps : List Bytes)
    → length ps ≤ left
    → has_byte t space ≡ false
    → is_sendable coltr ps ≡ true
    → arg_loop left (t ++ wire_params coltr ps)
      ≡ some t ∷ (map some ps ++ replicate (left - length ps) none)
unfolding wire_params is_sendable
arg_loop-wire left coltr t [] n h s =
    let e : left - 0 ≡ left = omega arith in rw (append-nil t, e) (arg_loop_end left t h)
arg_loop-wire zero coltr t (p ∷ ps) n h s = absurd (omega arith)
arg_loop-wire (suc left) coltr t (p ∷ []) n h s =
    let e : suc left - 1 ≡ left = omega arith in rw e (arg_loop_last left _ t p h s)
arg_loop-wire (suc left) coltr t (p ∷ q ∷ ps) n h s =
    let e : suc left - suc (suc (length ps)) ≡ left - suc (length ps) = omega arith in
    let w : is_word p ≡ true = ground arith in
    rw e (
      arg_loop_word left t p _ h w
      ∙ ap (λ r. some t ∷ r)
          (arg_loop-wire left coltr p (q ∷ ps) (omega arith) (word_no_space p w) (ground arith)))

-- The prefix may be any text with no space; the command is a word.
abbrev pub is_prefix : Option Bytes → Bool
is_prefix none = true
is_prefix (some pfx) = not (has_byte pfx space)

word_head :
    (c : ℕ) (s : Bytes) → is_word (c ∷ s) ≡ true → ((c == colon) ≡ false) × ((c == space) ≡ false)
unfolding is_word has_byte
word_head c s w = (ground arith, ground arith)

tokenize-wire :
    (pfx : Option Bytes) (cmd : Bytes) (ps : List Bytes) (coltr : Bool)
    → length ps ≤ 16
    → is_prefix pfx ≡ true
    → is_word cmd ≡ true
    → is_sendable coltr ps ≡ true
    → tokenize (wire pfx cmd ps coltr) ≡ (message pfx cmd ps, true)
unfolding tokenize wire
tokenize-wire none [] ps coltr n hp w s = unfold is_word in cc
tokenize-wire none (c ∷ cmd) ps coltr n hp w s =
    let (not_colon, not_space) = word_head c cmd w in
    rw (not_colon, not_space)
      (ap (λ (r : Tokarr). (none ∷ r, true))
        (arg_loop-wire 16 coltr (c ∷ cmd) ps n (word_no_space _ w) s))
tokenize-wire (some pfx) [] ps coltr n hp w s = unfold is_word in cc
tokenize-wire (some pfx) (c ∷ cmd) ps coltr n hp w s =
    let (not_colon, not_space) = word_head c cmd w in
    let lacks : has_byte (colon ∷ pfx) space ≡ false = unfold has_byte in ground arith in
    let shape = append_assoc pfx (space ∷ c ∷ cmd) (wire_params coltr ps) in
    rw (shape, next_tok_more (colon ∷ pfx) c (cmd ++ wire_params coltr ps) lacks not_space)
      (unfold behind_prefix in
        ap (λ (r : Tokarr). (some pfx ∷ r, true))
          (arg_loop-wire 16 coltr (c ∷ cmd) ps n (word_no_space _ w) s))

pub ncat_fits : (destsz : ℕ) (s t : Bytes) → length s + length t < destsz → ncat destsz s t ≡ s ++ t
unfolding ncat
ncat_fits destsz s [] h = elim (Bool-cases (leb destsz (length s + 1))) [
  | inl e ↦ rw (e, append-nil)
  | inr e ↦ rw (e, take-all {A = ℕ} (destsz - (length s + 1)) [] (omega arith))
]
ncat_fits destsz s (c ∷ t) h = elim (Bool-cases (leb destsz (length s + 1))) [
  | inl e ↦ absurd (ground arith)
  | inr e ↦ rw (e, take-all (destsz - (length s + 1)) (c ∷ t) (ground arith))
]

pub ncat_twice :
    (destsz : ℕ) (s t u : Bytes)
    → length s + (length t + length u) < destsz
    → ncat destsz (ncat destsz s t) u ≡ s ++ (t ++ u)
ncat_twice destsz s t u h =
    rw (ncat_fits destsz s t (omega arith))
      (ncat_fits destsz (s ++ t) u (omega (arith, length-append {0} s t)) ∙ append_assoc s t u)

-- The last parameter, where `marked` says that a colon goes before it.
print_mark : ℕ → Bool → Bytes → Bytes → Bytes
print_mark destsz marked dest p =
    let spaced = ncat destsz dest (space ∷ []) in
    ncat destsz (if marked then ncat destsz spaced (colon ∷ []) else spaced) p

print_last :
    (destsz k : ℕ) (coltr : Bool) (dest p : Bytes)
    → print_loop destsz coltr dest (some p ∷ replicate k none)
      ≡ print_mark destsz (coltr || has_byte p space) dest p
unfolding print_loop print_mark
print_last destsz zero coltr dest p = refl
print_last destsz (suc k) coltr dest p = refl

print_mark-wire :
    (destsz : ℕ) (marked : Bool) (dest p : Bytes)
    → length dest + suc (length (if marked then colon ∷ p else p)) < destsz
    → print_mark destsz marked dest p ≡ dest ++ (space ∷ (if marked then colon ∷ p else p))
unfolding print_mark
print_mark-wire destsz true dest p h =
    rw (ncat_twice destsz dest (space ∷ []) (colon ∷ []) (omega arith)) (
      ncat_fits destsz (dest ++ (space ∷ colon ∷ [])) p
        (omega (arith, length-append {0} dest (space ∷ colon ∷ [])))
      ∙ append_assoc dest (space ∷ colon ∷ []) p)
print_mark-wire destsz false dest p h = ncat_twice destsz dest (space ∷ []) p (omega arith)

print_more :
    (destsz : ℕ) (coltr : Bool) (dest p q : Bytes) (ts : Tokarr)
    → print_loop destsz coltr dest (some p ∷ some q ∷ ts)
      ≡ print_loop destsz coltr (ncat destsz (ncat destsz dest (space ∷ [])) p) (some q ∷ ts)
unfolding print_loop
print_more destsz coltr dest p q ts = refl

print_loop-wire :
    (destsz k : ℕ) (coltr : Bool) (dest : Bytes) (ps : List Bytes)
    → length dest + length (wire_params coltr ps) < destsz
    → print_loop destsz coltr dest (map some ps ++ replicate k none) ≡ dest ++ wire_params coltr ps
unfolding wire_params
print_loop-wire destsz zero coltr dest [] h = unfold print_loop in sym (append-nil dest)
print_loop-wire destsz (suc k) coltr dest [] h = unfold print_loop in sym (append-nil dest)
print_loop-wire destsz k coltr dest (p ∷ []) h =
    print_last destsz k coltr dest p ∙ print_mark-wire destsz (coltr || has_byte p space) dest p h
print_loop-wire destsz k coltr dest (p ∷ q ∷ ps) h =
    let r = wire_params coltr (q ∷ ps) in
    let size = length-append p r in
    print_more destsz coltr dest p q (map some ps ++ replicate k none)
    ∙ ap (λ d. print_loop destsz coltr d (some q ∷ (map some ps ++ replicate k none)))
        (ncat_twice destsz dest (space ∷ []) p (omega arith))
    ∙ print_loop-wire destsz k coltr (dest ++ (space ∷ p)) (q ∷ ps)
        (omega (arith, length-append {0} dest (space ∷ p)))
    ∙ append_assoc dest (space ∷ p) r

print_head_fits :
    (destsz : ℕ) (pfx : Option Bytes) (cmd : Bytes)
    → length (wire_head pfx cmd) < destsz
    → print_head destsz pfx cmd ≡ wire_head pfx cmd
unfolding print_head
print_head_fits destsz none cmd h = take-all (destsz - 1) _ (omega arith)
print_head_fits destsz (some pfx) cmd h = take-all (destsz - 1) _ (omega arith)

-- A message that is well formed and fits the buffer with its line end is printed in its wire
-- format, and the parser reads that line back as the same message: prefix, command, parameters,
-- and nothing in the other elements of the array. It has at most 16 parameters; the prefix has
-- no space; the command and every parameter are words, but for a last parameter that holds a
-- space or is to be marked by a colon, which may be any text.
pub tokenize-snrcmsg :
    (pfx : Option Bytes) (cmd : Bytes) (ps : List Bytes) (coltr : Bool) (destsz : ℕ)
    → length ps ≤ 16
    → is_prefix pfx ≡ true
    → is_word cmd ≡ true
    → is_sendable coltr ps ≡ true
    → length (wire pfx cmd ps coltr) + 2 < destsz
    → (snrcmsg destsz (message pfx cmd ps) coltr ≡ ok (wire pfx cmd ps coltr ++ crlf))
      × (tokenize (wire pfx cmd ps coltr) ≡ (message pfx cmd ps, true))
unfolding snrcmsg
tokenize-snrcmsg pfx cmd ps coltr destsz n hp w s fits =
    let head = wire_head pfx cmd in
    let size : length (wire pfx cmd ps coltr) ≡ length head + length (wire_params coltr ps) =
      unfold wire in length-append head (wire_params coltr ps) in
    let printed =
      ap (λ d. print_loop destsz coltr d (map some ps ++ replicate (16 - length ps) none))
        (print_head_fits destsz pfx cmd (omega arith))
      ∙ print_loop-wire destsz (16 - length ps) coltr head ps (omega arith) in
    let line : print_loop destsz coltr (print_head destsz pfx cmd)
          (map some ps ++ replicate (16 - length ps) none)
        ≡ wire pfx cmd ps coltr =
      unfold wire in printed in
    (
      ap (λ d. ok (ncat destsz d crlf)) line
          ∙ ap ok (ncat_fits destsz (wire pfx cmd ps coltr) crlf (omega arith)),
      tokenize-wire pfx cmd ps coltr n hp w s,
    )
