-- ===== src/Io/Frames.antt =====
-- The lines that are read do not depend on how the bytes arrive, and the buffer keeps its bounds.
use libsrsirc.Base.{
  ℕ, zero, suc, ◌+◌, ◌-◌, ◌*◌, ◌≤◌, ◌<◌, ◌≡◌, ◌≢◌, refl, sym, ap, ◌∙◌, subst, Bool, true, not, ◌&&◌,
  Option, none, some, [], ◌∷◌, ◌++◌, Bytes, ◌==◌, length, length-append, append_assoc, Bool-cases,
  Option-cases, inl, inr, arith,
}
use libsrsirc.Io.{
  Stop, Got, got, nothing, ReadCtx, is_delim, find_delim, skip_from, reset_empty, skip_delims,
  Outcome, line, stopped, starved, stored, read_more, next_line, read_line,
}

pub all_delims : Bytes → Bool
all_delims [] = true
all_delims (c ∷ s) = is_delim c && all_delims s

pub no_delims : Bytes → Bool
no_delims [] = true
no_delims (c ∷ s) = not (is_delim c) && no_delims s

-- What the stream `s` was, by the outcome and the stream `s'` that is left: line ends, then a
-- line and its end; or line ends alone.
abbrev pub Framed : Bytes → Outcome → Bytes → Type 0
Framed s (line l) s' =
    (ds : Bytes) × (d : ℕ) × (all_delims ds ≡ true)
    × (is_delim d ≡ true)
    × (no_delims l ≡ true)
    × (l ≢ [])
    × (s ≡ ds ++ (l ++ d ∷ s'))
Framed s (stopped e) s' = (ds : Bytes) × (all_delims ds ≡ true) × (s ≡ ds ++ s')
Framed s starved s' = ⊥

abbrev pub Fits : ReadCtx → Type 0
Fits c = c.off + length c.pending ≤ 4095

module _ {W : Type 0} (incoming : W → Bytes) where
  -- A read takes what it gives from the front of the bytes to come, and no more than asked for.
  abbrev pub Delivered : ℕ → W → W × Got → Type 0
  Delivered max w (w', got b bs) = (incoming w ≡ b ∷ (bs ++ incoming w')) × (suc (length bs) ≤ max)
  Delivered max w (w', nothing e) = incoming w' ≡ incoming w

  -- The bytes that are still to be framed: those in the buffer and those to come.
  abbrev pub stream : ReadCtx × W → Bytes
  stream (c, w) = c.pending ++ incoming w

  -- What a read into the buffer has done.
  abbrev More : ReadCtx → W → (ReadCtx × W) × Option Stop → Type 0
  More c w ((c', w'), e) =
      Fits c'
      × (c'.pending ++ incoming w' ≡ c.pending ++ incoming w)
      × ((e ≡ none) → length (incoming w') < length (incoming w))

  stored-More :
      (c : ReadCtx) (w : W) (max : ℕ) (r : W × Got)
      → c.off + length c.pending + max ≤ 4095
      → Delivered max w r
      → More c w (stored c r)
  unfolding stored
  stored-More c w max (w', got b bs) room (e, short) = (
    omega (arith, length-append {0} c.pending (b ∷ bs)),
    append_assoc c.pending (b ∷ bs) (incoming w') ∙ ap (λ t. c.pending ++ t) (sym e),
    λ _. omega (arith, ap length e, length-append {0} bs (incoming w')),
  )
  stored-More c w max (w', nothing s) room e = (omega arith, ap (λ t. c.pending ++ t) e, λ h. cc)

  module _ (read : ℕ → W → W × Got) where
    -- Every read does so.
    abbrev pub IsSource : Type 0
    IsSource = (max : ℕ) (w : W) → Delivered max w (read max w)

    read_more-More : IsSource → (c : ReadCtx) (w : W) → Fits c → More c w (read_more read c w)
    unfolding read_more
    read_more-More source c w fits = elim (Bool-cases (4095 - (c.off + length c.pending) == 0)) [
      | inl full ↦ elim (Bool-cases (c.off == 0)) [
        | inl front ↦ rw (full, front) (fits, refl, λ h. cc)
        | inr back ↦
            rw (full, back)
              (stored-More (record c { off = 0 }) w (4095 - length c.pending) _ (omega arith)
                (source _ w))
      ]
      | inr left ↦
          rw left (stored-More c w (4095 - (c.off + length c.pending)) _ (omega arith) (source _ w))
    ]

-- The text, a line end and the rest.
abbrev Split : Bytes → Bytes × Bytes → Type 0
Split s (l, r) = (d : ℕ) × (is_delim d ≡ true) × (no_delims l ≡ true) × (s ≡ l ++ d ∷ r)

some_pair : (p q : Bytes × Bytes) → some p ≡ some q → p ≡ q
some_pair p q h = cc

find_delim-Split : (s l r : Bytes) → find_delim s ≡ some (l, r) → Split s (l, r)
unfolding find_delim no_delims
find_delim-Split [] l r h = cc
find_delim-Split (c ∷ s) l r h = elim (Bool-cases (is_delim c)) [
  | inl e ↦
      let p = some_pair ([], s) (l, r) (rw (e, find_delim) at h) in
      subst (λ t. Split (c ∷ s) t) p (c, e, refl, refl)
  | inr e ↦ elim (Option-cases (find_delim s)) [
    | inl n ↦ cc (rw (e, n, find_delim) at h)
    | inr ((l', r'), n) ↦
        let p = some_pair (c ∷ l', r') (l, r) (rw (e, n, find_delim) at h) in
        let (d, hd, hl, hs) = find_delim-Split s l' r' n in
        subst (λ t. Split (c ∷ s) t) p (d, hd, rw e hl, ap (λ t. c ∷ t) hs)
  ]
]

-- A line end in front changes nothing.
Framed-delim :
    (d : ℕ) (s s' : Bytes) (o : Outcome) → is_delim d ≡ true → Framed s o s' → Framed (d ∷ s) o s'
unfolding all_delims
Framed-delim d s s' (line l) e (ds, f, hd, hf, hl, ne, h) =
    (d ∷ ds, f, rw e hd, hf, hl, ne, ap (λ t. d ∷ t) h)
Framed-delim d s s' (stopped x) e (ds, hd, h) = (d ∷ ds, rw e hd, ap (λ t. d ∷ t) h)
Framed-delim d s s' starved e h = absurd h

module _ {W : Type 0} (incoming : W → Bytes) (read : ℕ → W → W × Got)
    (source : IsSource incoming read) where
  -- What a read of a line leaves: a buffer in its bounds, and the stream without what was framed.
  pub record ReadsLine (c : ReadCtx) (w : W) (r : (ReadCtx × W) × Outcome) : Type 0 where
    pub fits : Fits r.0.0
    pub framed : Framed (stream incoming (c, w)) r.1 (stream incoming r.0)

  next_line-ReadsLine :
      (fuel : ℕ) (c : ReadCtx) (w : W)
      → Fits c
      → 2 * length (incoming w) + length c.pending < fuel
      → ReadsLine c w (next_line read fuel c w)
  unfolding next_line all_delims
  next_line-ReadsLine zero c w fits enough = absurd (omega arith)
  next_line-ReadsLine (suc fuel) c w fits enough = elim (Option-cases (find_delim c.pending)) [
    | inl n ↦
        let (fits', same, less) = read_more-More incoming read source c w fits in
        elim (Option-cases (read_more read c w).1) [
          | inl e ↦
              let w' = (read_more read c w).0.1 in
              let c' = (read_more read c w).0.0 in
              let ih = next_line-ReadsLine fuel c' w' fits' (
                omega (
                  arith,
                  less e,
                  ap length same,
                  length-append {0} c'.pending (incoming w'),
                  length-append {0} c.pending (incoming w),
                )) in
              rw (n, e, next_line)
                (record {
                  fits = ih.fits;
                  framed =
                      subst
                        (λ t.
                          Framed t (next_line read fuel c' w').1
                            (stream incoming (next_line read fuel c' w').0))
                        same ih.framed;
                })
          | inr (x, e) ↦
              rw (n, e, next_line) (record { fits = fits'; framed = ([], refl, sym same) })
        ]
    | inr (([], r), n) ↦
        let (d, hd, hl, hs) = find_delim-Split c.pending [] r n in
        let c' : ReadCtx = record { off = c.off + 0 + 1; pending = r } in
        let ih =
          next_line-ReadsLine fuel c' w (omega (arith, ap length hs))
            (omega (arith, ap length hs)) in
        rw (n, next_line)
          (record {
            fits = ih.fits;
            framed =
                subst
                  (λ t.
                    Framed (t ++ incoming w) (next_line read fuel c' w).1
                      (stream incoming (next_line read fuel c' w).0))
                  (sym hs)
                  (Framed-delim d (r ++ incoming w) _ (next_line read fuel c' w).1 hd ih.framed);
          })
    | inr ((x ∷ l, r), n) ↦
        let (d, hd, hl, hs) = find_delim-Split c.pending (x ∷ l) r n in
        rw (n, next_line)
          (record {
            fits = omega (arith, ap length hs, length-append {0} (x ∷ l) (d ∷ r));
            framed = (
              [],
              d,
              refl,
              hd,
              hl,
              (λ h. cc),
              ap (λ t. t ++ incoming w) hs ∙ append_assoc (x ∷ l) (d ∷ r) (incoming w),
            );
          })
  ]

  skip_from-delims :
      (off : ℕ) (s : Bytes)
      → (ds : Bytes) × (all_delims ds ≡ true)
        × (s ≡ ds ++ (skip_from off s).pending)
        × ((skip_from off s).off + length (skip_from off s).pending ≡ off + length s)
  unfolding skip_from all_delims
  skip_from-delims off [] = ([], refl, refl, refl)
  skip_from-delims off (x ∷ s) = elim (Bool-cases (is_delim x)) [
    | inl e ↦
        let (ds, hd, h, size) = skip_from-delims (off + 1) s in
        (x ∷ ds, rw e hd, rw e (ap (λ t. x ∷ t) h), rw e (omega (arith, size)))
    | inr e ↦ ([], refl, rw e refl, rw e refl)
  ]

  Framed-delims :
      (ds s s' : Bytes) (o : Outcome) → all_delims ds ≡ true → Framed s o s' → Framed (ds ++ s) o s'
  unfolding all_delims
  Framed-delims [] s s' o h f = f
  Framed-delims (d ∷ ds) s s' o h f =
      Framed-delim d (ds ++ s) s' o (ground arith) (Framed-delims ds s s' o (ground arith) f)

  reset_empty-kept :
      (off : ℕ) (s : Bytes)
      → ((reset_empty off s).pending ≡ s) × ((reset_empty off s).off + length s ≤ off + length s)
  reset_empty-kept off [] = (refl, omega arith)
  reset_empty-kept off (x ∷ s) = (refl, omega arith)

  skip_delims-kept :
      (c : ReadCtx)
      → (ds : Bytes) × (all_delims ds ≡ true)
        × (c.pending ≡ ds ++ (skip_delims c).pending)
        × (Fits c → Fits (skip_delims c))
  unfolding skip_delims
  skip_delims-kept c =
      let (ds, hd, h, size) = skip_from-delims c.off c.pending in
      let k = skip_from c.off c.pending in
      let (same, bound) = reset_empty-kept k.off k.pending in
      (ds, hd, h ∙ ap (λ t. ds ++ t) (sym same), λ f. omega (arith, size, bound, ap length same))

  -- A read of a line comes to an end, with fuel for two rounds a byte and one more. It takes line
  -- ends and a line with its end off the front of the bytes in the buffer and those to come,
  -- wherever the reads cut them; the line is not empty and has no line end in it. Where a
  -- read stops it, it takes line ends alone. The buffer keeps its bounds.
  pub read_line-ReadsLine :
      (fuel : ℕ) (c : ReadCtx) (w : W)
      → Fits c
      → 2 * length (incoming w) + length c.pending < fuel
      → ReadsLine c w (read_line read fuel c w)
  unfolding read_line
  read_line-ReadsLine fuel c w fits enough =
      let (ds, hd, h, bounded) = skip_delims-kept c in
      let k = skip_delims c in
      let r = next_line read fuel k w in
      let inner =
        next_line-ReadsLine fuel k w (bounded fits)
          (omega (arith, ap length h, length-append {0} ds k.pending)) in
      record {
        fits = inner.fits;
        framed =
            subst (λ t. Framed t r.1 (stream incoming r.0))
              (sym (append_assoc ds k.pending (incoming w)) ∙ ap (λ t. t ++ incoming w) (sym h))
              (Framed-delims ds _ _ r.1 hd inner.framed);
      }
