-- ===== src/Proto/Words.antt =====
-- What `lsi_com_next_tok` of libsrsirc/common.c makes of a line of words.
use libsrsirc.Base.{
  ℕ, ◌≤◌, ◌<◌, ◌≡◌, refl, Bool, true, false, not, none, some, [], ◌∷◌, ◌++◌, Bytes, ◌==◌, ◌&&◌,
  length, arith,
}
use libsrsirc.Proto.{space, colon, next_tok, skip_delims, has_byte}

-- A word of the line: not empty, with no space, and no colon in front.
unfoldable pub is_word : Bytes → Bool
is_word [] = false
is_word (c ∷ s) = not (c == colon) && not (has_byte (c ∷ s) space)

pub next_tok_end : (t : Bytes) → has_byte t space ≡ false → next_tok t space ≡ (t, none)
unfolding next_tok has_byte
next_tok_end [] h = refl
next_tok_end (c ∷ t) h = ground (arith, next_tok_end t)

pub next_tok_more :
    (t : Bytes) (c : ℕ) (r : Bytes)
    → has_byte t space ≡ false
    → (c == space) ≡ false
    → next_tok (t ++ space ∷ c ∷ r) space ≡ (t, some (c ∷ r))
unfolding next_tok has_byte skip_delims
next_tok_more [] c r h e = rw e
next_tok_more (x ∷ t) c r h e = ground (arith, next_tok_more t c r)

pub word_no_space : (t : Bytes) → is_word t ≡ true → has_byte t space ≡ false
unfolding is_word
word_no_space [] h = cc
word_no_space (c ∷ t) h = ground arith

skip_delims-shorter : (s r : Bytes) → skip_delims s space ≡ some r → length r ≤ length s
unfolding skip_delims
skip_delims-shorter [] r h = ground arith
skip_delims-shorter (c ∷ s) r h = ground (arith, skip_delims-shorter s r)

pub next_tok-shorter : (s r : Bytes) → (next_tok s space).1 ≡ some r → length r < length s
unfolding next_tok
next_tok-shorter [] r h = ground arith
next_tok-shorter (c ∷ s) r h = ground (arith, next_tok-shorter s r, skip_delims-shorter s r)

pub next_tok-words :
    (w : Bytes) (c : ℕ) (v r : Bytes)
    → is_word w ≡ true
    → is_word (c ∷ v) ≡ true
    → next_tok (w ++ space ∷ c ∷ r) space ≡ (w, some (c ∷ r))
unfolding is_word has_byte
next_tok-words w c v r h k = next_tok_more w c r (word_no_space w h) (ground arith)
