-- ===== src/Ucbase/Once.antt =====
-- Texts in which no byte stands twice.
use libsrsirc.Base.{
  ℕ, ◌≤◌, ◌≡◌, sym, ap, ◌∙◌, true, false, not, ◌&&◌, ◌||◌, [], ◌∷◌, Bytes, ◌==◌, length, Bool-cases,
  inl, inr, ==_iff, arith,
}
use libsrsirc.Proto.{has_byte}
use libsrsirc.Ucbase.{remove_byte}

-- No byte stands twice in the text.
abbrev pub Once : Bytes → Type 0
Once [] = Unit
Once (x ∷ s) = (has_byte s x ≡ false) × Once s

-- Dropping the head of a text that has it once.
pub same_rest :
    (x : ℕ) (s : Bytes) (c q : ℕ)
    → (x == c) ≡ true
    → has_byte s x ≡ false
    → has_byte s q ≡ (not (q == c) && (x == q || has_byte s q))
same_rest x s c q g lacks = elim (Bool-cases (x == q)) [
  | inl e ↦
      let e' : has_byte s q ≡ false = ap (has_byte s) (sym ((==_iff x q).0 e)) ∙ lacks in
      ground (arith, e')
  | inr e ↦ ground arith
]

pub remove_byte-Once :
    (s : Bytes) (c : ℕ)
    → Once s
    → Once (remove_byte s c)
      × (length (remove_byte s c) ≤ length s)
      × ((q : ℕ) → has_byte (remove_byte s c) q ≡ (not (q == c) && has_byte s q))
unfolding remove_byte has_byte
remove_byte-Once [] c o = (tt, omega arith, λ q. ground arith)
remove_byte-Once (x ∷ s) c (lacks, o) = elim (Bool-cases (x == c)) [
  | inl g ↦ rw (g, remove_byte) (o, omega arith, λ q. same_rest x s c q g lacks)
  | inr g ↦
      let (o', l, has) = remove_byte-Once s c o in
      rw (g, remove_byte) ((ground (arith, has x), o'), omega arith, λ q. ground (arith, has q))
]
