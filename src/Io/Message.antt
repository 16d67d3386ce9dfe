-- ===== src/Io/Message.antt =====
-- From a line to a message: the end of `lsi_io_read` of libsrsirc/io.c, with `lsi_ut_extract_tags` of
-- libsrsirc/util.c. A message comes with the tags in front of it, still escaped.
use libsrsirc.Base.{
  ℕ, zero, suc, ◌+◌, Bool, true, false, Option, none, some, List, [], ◌∷◌, Bytes, ◌==◌,
  if◌then◌else◌, length,
}
use libsrsirc.Text.{cstr}
use libsrsirc.Text.Ident.Pieces.{before, behind}
use libsrsirc.Proto.{Tokarr, space, next_tok, tokenize}
use libsrsirc.Io.{ReadCtx, Got, Outcome, line, stopped, starved, Stop, read_line}

-- The tags of the text, with fuel for their number; `left` tags have room.
tag_loop : ℕ → ℕ → Bytes → List Bytes
tag_loop zero left text = []
tag_loop (suc fuel) zero text = []
tag_loop (suc fuel) (suc left) text = elim (next_tok text b';').1 [
  | none ↦ (next_tok text b';').0 ∷ []
  | some next ↦ (next_tok text b';').0 ∷ tag_loop fuel left next
]

-- The tags and what stands behind the space; `none` where there is no space.
pub extract_tags : ℕ → Bytes → Option (List Bytes × Bytes)
unfolding tag_loop
extract_tags destmax text = elim (behind space text) [
  | none ↦ none
  | some rest ↦ some (tag_loop (length text + 1) destmax (before space text), rest)
]

-- A message that the parser takes.
parsed : List Bytes → Tokarr × Bool → Option (Tokarr × List Bytes)
parsed tags (tok, true) = some (tok, tags)
parsed tags (tok, false) = none

tagged : Option (List Bytes × Bytes) → Option (Tokarr × List Bytes)
unfolding parsed
tagged none = none
tagged (some (tags, [])) = none
tagged (some (tags, c ∷ rest)) = parsed tags (tokenize (c ∷ rest))

-- The message of a line, and its tags; `none` is the result -1.
pub parse_line : ℕ → Bytes → Option (Tokarr × List Bytes)
unfolding tagged extract_tags parsed
parse_line destmax [] = parsed [] (tokenize [])
parse_line destmax (c ∷ text) =
    if c == b'@' then tagged (extract_tags destmax text) else parsed [] (tokenize (c ∷ text))

pub data Reading : Type 0 where
  message : Tokarr → List Bytes → Reading
  bad_line : Reading
  ended : Stop → Reading
  no_fuel : Reading

reading : Option (Tokarr × List Bytes) → Reading
reading none = bad_line
reading (some (tok, tags)) = message tok tags

outcome : ℕ → Outcome → Reading
unfolding parse_line reading
outcome destmax (line l) = reading (parse_line destmax (cstr l))
outcome destmax (stopped e) = ended e
outcome destmax starved = no_fuel

module _ {W : Type 0} (read : ℕ → W → W × Got) where
  pub io_read : ℕ → ℕ → ReadCtx → W → (ReadCtx × W) × Reading
  unfolding outcome
  io_read fuel destmax c w = let (state, o) = read_line read fuel c w in (state, outcome destmax o)
