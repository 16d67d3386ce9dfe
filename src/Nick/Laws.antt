-- ===== src/Nick/Laws.antt =====
-- What a mutated nick keeps, and when it is another one.
use libsrsirc.Base.{
  ℕ, suc, ◌+◌, ◌-◌, ◌<◌, ◌≤◌, ◌≡◌, ◌≢◌, refl, sym, ap, ◌∙◌, false, ◌&&◌, [], ◌∷◌, Bytes, ◌==◌,
  ==_iff, if◌then◌else◌, ltb, leb, length, get_or, set, length-set, length-append, get_or-set_self,
  get_or-set_ne, Bool-cases, inl, inr, arith,
}
use libsrsirc.Nick.{mut_nick, mut_last}

set-kept :
    (c i v : ℕ) (s : Bytes)
    → 0 < i
    → (get_or (set (c ∷ s) i v) 0 0 ≡ c) × (length (set (c ∷ s) i v) ≡ suc (length s))
set-kept c i v s pos = (get_or-set_ne (c ∷ s) i 0 v 0 (λ h. omega arith), length-set (c ∷ s) i v)

mut_last-kept :
    (r1 r2 c : ℕ) (s : Bytes) (last : ℕ)
    → 8 ≤ length s
    → (get_or (mut_last r1 r2 (c ∷ s) (suc (length s)) last) 0 0 ≡ c)
      × (length (mut_last r1 r2 (c ∷ s) (suc (length s)) last) ≡ suc (length s))
unfolding mut_last
mut_last-kept r1 r2 c s last long = elim (Bool-cases (last == b'9')) [
  | inl e ↦ rw e (set-kept c _ _ s (omega arith))
  | inr e ↦ elim (Bool-cases (leb b'0' last && leb last b'8')) [
    | inl f ↦ rw (e, f) (set-kept c _ _ s (omega arith))
    | inr f ↦ rw (e, f) (set-kept c _ _ s (omega arith))
  ]
]

-- The new nick starts as the old one did; it has one byte more if that had less than nine, and is
-- as long else.
pub mut_nick-kept :
    (r1 r2 c : ℕ) (s : Bytes)
    → (get_or (mut_nick r1 r2 (c ∷ s)) 0 0 ≡ c)
      × (length (mut_nick r1 r2 (c ∷ s))
          ≡ (if ltb (length (c ∷ s)) 9 then length (c ∷ s) + 1 else length (c ∷ s)))
unfolding mut_nick mut_last
mut_nick-kept r1 r2 c s = elim (Bool-cases (ltb (suc (length s)) 9)) [
  | inl e ↦ rw e (refl, omega (arith, length-append {0} s (b'_' ∷ [])))
  | inr e ↦ rw e (mut_last-kept r1 r2 c s (get_or (c ∷ s) (suc (length s) - 1) 0) (ground arith))
]

set-differs : (xs : Bytes) (i v : ℕ) → i < length xs → get_or xs i 0 ≢ v → set xs i v ≢ xs
set-differs xs i v lt ne same = ne (ap (λ t. get_or t i 0) (sym same) ∙ get_or-set_self xs i v 0 lt)

-- Of a nick that does not end in a `9`, the new nick is another one.
pub mut_nick-differs :
    (r1 r2 c : ℕ) (s : Bytes)
    → get_or (c ∷ s) (suc (length s) - 1) 0 ≢ b'9'
    → mut_nick r1 r2 (c ∷ s) ≢ c ∷ s
unfolding mut_nick mut_last
mut_nick-differs r1 r2 c s no9 same = elim (Bool-cases (ltb (suc (length s)) 9)) [
  | inl e ↦ absurd (omega (arith, ap length (rw e at same), length-append {0} s (b'_' ∷ [])))
  | inr e ↦
      let last = get_or (c ∷ s) (suc (length s) - 1) 0 in
      let other : (last == b'9') ≡ false = ground (arith, ==_iff last b'9') in
      elim (Bool-cases (leb b'0' last && leb last b'8')) [
        | inl f ↦
            set-differs (c ∷ s) (suc (length s) - 1) (last + 1) (omega arith) (omega arith)
              (rw (e, other, f) at same)
        | inr f ↦
            set-differs (c ∷ s) (suc (length s) - 1) b'0' (omega arith) (ground arith)
              (rw (e, other, f) at same)
      ]
]
