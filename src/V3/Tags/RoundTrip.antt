-- ===== src/V3/Tags/RoundTrip.antt =====
-- Tags that are escaped as the IRCv3 specification has it are decoded to what they were.
use libsrsirc.Base.{
  ℕ, zero, suc, ◌+◌, ◌-◌, ◌<◌, ◌≡◌, ◌≢◌, refl, sym, ap, ◌∙◌, false, some, [], ◌∷◌, ◌++◌, Bytes,
  ◌==◌, if◌then◌else◌, Bool-cases, inl, inr, leb, length, Lacks, All-append, length-append,
  append_assoc, arith,
}
use libsrsirc.Text.Laws.{cstr_nul, set-append}
use libsrsirc.Text.Ident.Pieces.{before, behind}
use libsrsirc.V3.Tags.{backslash, unescape, decode_loop, decode_v3tag, mkv3tag}

pub escape_byte : ℕ → Bytes
escape_byte c =
    if c == b';'
    then backslash ∷ b':' ∷ []
    else if c == b' '
    then backslash ∷ b's' ∷ []
    else if c == backslash
    then backslash ∷ backslash ∷ []
    else if c == b'\r'
    then backslash ∷ b'r' ∷ []
    else if c == b'\n'
    then backslash ∷ b'n' ∷ []
    else c ∷ []

pub escape : Bytes → Bytes
escape [] = []
escape (c ∷ s) = escape_byte c ++ escape s

decode-escape_byte :
    (room c : ℕ) (rest : Bytes)
    → decode_loop (suc room) false (escape_byte c ++ rest) ≡ c ∷ decode_loop room false rest
unfolding decode_loop escape_byte unescape
decode-escape_byte room c rest = ground arith

decode_loop-escape :
    (room : ℕ) (s : Bytes) → length s < room → decode_loop room false (escape s) ≡ s ++ 0 ∷ []
unfolding escape
decode_loop-escape zero s h = absurd (omega arith)
decode_loop-escape (suc room) [] h = unfold decode_loop unescape in refl
decode_loop-escape (suc room) (c ∷ s) h =
    decode-escape_byte room c (escape s) ∙ ap (λ t. c ∷ t) (decode_loop-escape room s (omega arith))

plain_byte :
    (room c : ℕ) (rest : Bytes)
    → c ≢ backslash
    → decode_loop (suc room) false (c ∷ rest) ≡ c ∷ decode_loop room false rest
unfolding decode_loop unescape
plain_byte room c rest h = ground arith

decode_loop-append :
    (room : ℕ) (k s : Bytes)
    → Lacks backslash k
    → length k + length s < room
    → decode_loop room false (k ++ escape s) ≡ k ++ (s ++ 0 ∷ [])
decode_loop-append room [] s h n = decode_loop-escape room s (omega arith)
decode_loop-append zero (c ∷ k) s h n = absurd (omega arith)
decode_loop-append (suc room) (c ∷ k) s (hc, h) n =
    plain_byte room c (k ++ escape s) hc
    ∙ ap (λ t. c ∷ t) (decode_loop-append room k s h (omega arith))

decode_v3tag-append :
    (destsz : ℕ) (k s : Bytes)
    → Lacks backslash k
    → length k + length s < destsz
    → decode_v3tag destsz (k ++ escape s) ≡ (k ++ s) ++ 0 ∷ []
unfolding decode_v3tag
decode_v3tag-append destsz k s h n =
    let e = decode_loop-append destsz k s h n in
    let e' : decode_loop destsz false (k ++ escape s) ≡ (k ++ s) ++ 0 ∷ [] =
      e ∙ sym (append_assoc k s (0 ∷ [])) in
    rw e' (elim (Bool-cases (leb destsz (length ((k ++ s) ++ 0 ∷ [])))) [
      | inl full ↦ rw full (
          set-append (k ++ s) 0 0 [] (destsz - 1)
            (ground (arith, length-append {0} (k ++ s) (0 ∷ []), length-append {0} k s)))
      | inr roomy ↦ rw roomy
    ])

before-append : (c : ℕ) (k s : Bytes) → Lacks c k → before c (k ++ c ∷ s) ≡ k
unfolding before
before-append c [] s h = ground arith
before-append c (x ∷ k) s h = ground (arith, before-append c k s h.1)

behind-append : (c : ℕ) (k s : Bytes) → Lacks c k → behind c (k ++ c ∷ s) ≡ some s
unfolding behind
behind-append c [] s h = ground arith
behind-append c (x ∷ k) s h = ground (arith, behind-append c k s h.1)

-- A tag `key=value` whose value is escaped, and that fits the decoder's 512 bytes with its NUL, is
-- read as that key and that value, whatever bytes but NUL the value holds; the key holds no `=`,
-- no backslash and no NUL.
pub mkv3tag-escape :
    (k v : Bytes)
    → Lacks backslash k
    → Lacks b'=' k
    → Lacks 0 k
    → Lacks 0 v
    → length k + length v + 1 < 512
    → mkv3tag (k ++ b'=' ∷ escape v) ≡ (k, some v)
unfolding mkv3tag
mkv3tag-escape k v hb he hk hv n =
    let key = k ++ b'=' ∷ [] in
    let shape = λ (s : Bytes). append_assoc k (b'=' ∷ []) s in
    let dec : decode_v3tag 512 (k ++ b'=' ∷ escape v) ≡ (k ++ b'=' ∷ v) ++ 0 ∷ [] =
      ap (decode_v3tag 512) (sym (shape (escape v)))
      ∙ decode_v3tag-append 512 key v (All-append _ k (b'=' ∷ []) hb (omega arith))
          (omega (arith, length-append {0} k (b'=' ∷ [])))
      ∙ ap (λ t. t ++ 0 ∷ []) (shape v) in
    let lacks : Lacks 0 (k ++ b'=' ∷ v) = All-append _ k (b'=' ∷ v) hk (omega arith, hv) in
    rw
      (dec, cstr_nul (k ++ b'=' ∷ v) [] lacks, before-append b'=' k v he, behind-append b'=' k v he)
