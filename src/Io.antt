-- ===== src/Io.antt =====
-- The reading side of libsrsirc/io.c: the receive buffer of 4095 bytes and the lines in it. The read
-- from the socket is an argument of the model, with the clock and the timeout in its world `W`;
-- it is given the room there is, and gives at least one byte or the reason why it gives none.
pub mod Frames
pub mod Message
use libsrsirc.Base.{
  ℕ, zero, suc, ◌+◌, ◌-◌, Bool, true, false, ◌||◌, Option, none, some, List, [], ◌∷◌, ◌++◌, Bytes,
  ◌==◌, if◌then◌else◌, length,
}

-- Why there are no bytes: the results 0, -1 and -2 of a read.
pub data Stop : Type 0 where
  timed_out : Stop
  failed : Stop
  at_eof : Stop

pub data Got : Type 0 where
  got : ℕ → Bytes → Got
  nothing : Stop → Got

-- `struct readctx`: `off` is `wptr - workbuf`, and `pending` what stands from `wptr` to `eptr`.
pub record ReadCtx : Type 0 where
  pub off : ℕ
  pub pending : Bytes

pub is_delim : ℕ → Bool
is_delim c = c == b'\n' || c == b'\r'

-- What stands before the first line end and behind it.
pub find_delim : Bytes → Option (Bytes × Bytes)
find_delim [] = none
find_delim (c ∷ s) = elim (is_delim c) [
  | true ↦ some ([], s)
  | false ↦ elim (find_delim s) [ none ↦ none | some (l, r) ↦ some (c ∷ l, r) ]
]

-- The loop over the line ends in front.
skip_from : ℕ → Bytes → ReadCtx
skip_from off [] = record { off = off; pending = [] }
skip_from off (x ∷ s) =
    let rest = skip_from (off + 1) s in
    if is_delim x then rest else record { off = off; pending = x ∷ s }

abbrev reset_empty : ℕ → Bytes → ReadCtx
reset_empty off [] = record { off = 0; pending = [] }
reset_empty off (x ∷ s) = record { off = off; pending = x ∷ s }

-- The loop, then the reset of an empty buffer.
skip_delims : ReadCtx → ReadCtx
unfolding skip_from
skip_delims c = let k = skip_from c.off c.pending in reset_empty k.off k.pending

pub data Outcome : Type 0 where
  line : Bytes → Outcome
  stopped : Stop → Outcome
  starved : Outcome

stored : {W : Type 0} → ReadCtx → W × Got → (ReadCtx × W) × Option Stop
stored c (w, got b bs) = ((record c { pending = c.pending ++ b ∷ bs }, w), none)
stored c (w, nothing e) = ((c, w), some e)

module _ {W : Type 0} (read : ℕ → W → W × Got) where
  -- Where no room is left, the data moves to the front; a full buffer is an error.
  pub read_more : ReadCtx → W → (ReadCtx × W) × Option Stop
  unfolding stored
  read_more c w =
      let remain = 4095 - (c.off + length c.pending) in
      if remain == 0
      then (if c.off == 0
          then ((c, w), some failed)
          else stored (record c { off = 0 }) (read (4095 - length c.pending) w))
      else stored c (read remain w)

  -- The two loops, with fuel for their rounds; `starved` is that the fuel ran out.
  pub next_line : ℕ → ReadCtx → W → (ReadCtx × W) × Outcome
  next_line zero c w = ((c, w), starved)
  next_line (suc fuel) c w = elim (find_delim c.pending) [
    | none ↦ elim (read_more c w).1 [
      | some e ↦ ((read_more c w).0, stopped e)
      | none ↦ next_line fuel (read_more c w).0.0 (read_more c w).0.1
    ]
    | some (l, r) ↦
        let c' : ReadCtx = record { off = c.off + length l + 1; pending = r } in
        elim l [ [] ↦ next_line fuel c' w | x ∷ l' ↦ ((c', w), line (x ∷ l')) ]
  ]

  pub read_line : ℕ → ReadCtx → W → (ReadCtx × W) × Outcome
  unfolding skip_delims
  read_line fuel c w = next_line fuel (skip_delims c) w
