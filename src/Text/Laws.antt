-- ===== src/Text/Laws.antt =====
-- What the bounded copies leave in the destination.
use libsrsirc.Base.{
  ℕ, zero, suc, ◌+◌, ◌-◌, ◌≤◌, ◌≡◌, ◌≢◌, refl, sym, ap, ◌∙◌, false, [], ◌∷◌, ◌++◌, Bytes, ◌==◌,
  if◌then◌else◌, Bool-cases, leb, length, take, drop, set, Lacks, length-append, arith, inl, inr,
  append_assoc,
}
use libsrsirc.Text.{cstr, str_ncpy, str_ncat, ncpy_loop, ncat_loop, first_byte, tail_of}

-- A write in the middle of a list.
pub set-append :
    (pre : Bytes) (x v : ℕ) (suf : Bytes) (i : ℕ)
    → i ≡ length pre
    → set (pre ++ x ∷ suf) i v ≡ pre ++ v ∷ suf
set-append [] x v suf zero e = refl
set-append [] x v suf (suc i) e = absurd (omega arith)
set-append (p ∷ pre) x v suf zero e = absurd (omega arith)
set-append (p ∷ pre) x v suf (suc i) e = ap (λ t. p ∷ t) (set-append pre x v suf i (omega arith))

first_ne : (c : ℕ) → c ≢ 0 → (c == 0) ≡ false
first_ne c h = ground arith

ncpy_step :
    (n : ℕ) (dest : Bytes) (i : ℕ) (src : Bytes)
    → ncpy_loop (suc n) dest i src ≡ (
        if first_byte src == 0
        then (if n == 0 then set (set dest i (first_byte src)) i 0 else set dest i (first_byte src))
        else ncpy_loop n (set dest i (first_byte src)) (i + 1) (tail_of src))
unfolding ncpy_loop
ncpy_step n dest i src = refl

-- Copying from index `length pre` on, with `n` bytes and the NUL's left, stores what fits of the
-- text and the NUL, and leaves what is behind.
ncpy_loop-take :
    (n : ℕ) (dest pre rest src : Bytes) (i : ℕ)
    → dest ≡ pre ++ rest
    → i ≡ length pre
    → suc n ≤ length rest
    → Lacks 0 src
    → ncpy_loop (suc n) dest i src
      ≡ pre ++ (take n src ++ 0 ∷ drop (suc (length (take n src))) rest)
ncpy_loop-take n dest pre [] src i d e h z = absurd (omega arith)
ncpy_loop-take zero dest pre (x ∷ rest) [] i d e h z =
    rw (ncpy_step, d, set-append pre x 0 rest i e, set-append pre 0 0 rest i e)
ncpy_loop-take (suc n) dest pre (x ∷ rest) [] i d e h z =
    rw (ncpy_step, d, set-append pre x 0 rest i e) (ground arith)
ncpy_loop-take zero dest pre (x ∷ rest) (c ∷ src) i d e h z =
    rw (ncpy_step, d, set-append pre x c rest i e, first_ne c z.0)
      (unfold ncpy_loop in set-append pre c 0 rest (i + 1 - 1) (omega arith))
ncpy_loop-take (suc n) dest pre (x ∷ rest) (c ∷ src) i d e h z =
    rw (ncpy_step, d, set-append pre x c rest i e, first_ne c z.0)
      (ncpy_loop-take n _ (pre ++ c ∷ []) rest src (i + 1) (sym (append_assoc pre (c ∷ []) rest))
          (omega (arith, length-append {0} pre (c ∷ []))) (omega arith) z.1
        ∙ append_assoc pre (c ∷ []) _)

-- `str_ncpy` stores what fits of the source before a NUL, always ends it by one, and leaves the
-- bytes behind the NUL alone, where the destination has the room that it is said to have.
pub str_ncpy-take :
    (dest src : Bytes) (n : ℕ)
    → suc n ≤ length dest
    → Lacks 0 src
    → str_ncpy dest src (suc n) ≡ take n src ++ 0 ∷ drop (suc (length (take n src))) dest
unfolding str_ncpy
str_ncpy-take dest src n h z = ncpy_loop-take n dest [] dest src 0 refl refl h z

ncat_loop-take :
    (n : ℕ) (dest pre rest src : Bytes) (i : ℕ)
    → dest ≡ pre ++ rest
    → i ≡ length pre
    → suc n ≤ length rest
    → ncat_loop n dest i src ≡ pre ++ (take n src ++ 0 ∷ drop (suc (length (take n src))) rest)
unfolding ncat_loop
ncat_loop-take n dest pre [] src i d e h = absurd (omega arith)
ncat_loop-take zero dest pre (x ∷ rest) src i d e h = rw (d, set-append pre x 0 rest i e)
ncat_loop-take (suc n) dest pre (x ∷ rest) [] i d e h = rw (d, set-append pre x 0 rest i e)
ncat_loop-take (suc n) dest pre (x ∷ rest) (c ∷ src) i d e h =
    rw (d, set-append pre x c rest i e)
      (ncat_loop-take n _ (pre ++ c ∷ []) rest src (i + 1) (sym (append_assoc pre (c ∷ []) rest))
          (omega (arith, length-append {0} pre (c ∷ []))) (omega arith)
        ∙ append_assoc pre (c ∷ []) _)

pub cstr_nul : (s rest : Bytes) → Lacks 0 s → cstr (s ++ 0 ∷ rest) ≡ s
unfolding cstr
cstr_nul [] rest z = refl
cstr_nul (c ∷ s) rest (h, z) = rw (first_ne c h, cstr_nul s rest z)

-- `str_ncat` appends what fits of the source to the string in the destination, ends it by a NUL,
-- and leaves the bytes behind the NUL alone; a full destination is not touched.
pub str_ncat-take :
    (s junk src : Bytes) (destsz : ℕ)
    → Lacks 0 s
    → destsz ≤ length s + 1 + length junk
    → str_ncat (s ++ 0 ∷ junk) src destsz ≡ (
        if leb destsz (length s + 1)
        then s ++ 0 ∷ junk
        else s
          ++ (take (destsz - (length s + 1)) src
              ++ 0 ∷ drop (length (take (destsz - (length s + 1)) src)) junk))
unfolding str_ncat
str_ncat-take s junk src destsz z h =
    rw (cstr_nul s junk z) (elim (Bool-cases (leb destsz (length s + 1))) [
      | inl e ↦ rw e
      | inr e ↦ rw e (ncat_loop-take _ _ s (0 ∷ junk) src _ refl refl (ground arith))
    ])
