-- ===== src/Text/Ident/Pieces.antt =====
-- What the three functions leave in the destination, by splits of the identity itself.
use libsrsirc.Base.{
  ℕ, zero, suc, ◌+◌, ◌≤◌, ◌≡◌, ◌≢◌, refl, ap, subst, ◌∙◌, Option, none, some, [], ◌∷◌, ◌++◌, Bytes,
  ◌==◌, if◌then◌else◌, Option-cases, inl, inr, length, take, drop, set, Lacks, append_assoc, arith,
}
use native.Mathlib.Numerals.{add-one}
use libsrsirc.Text.{cstr}
use libsrsirc.Text.Laws.{set-append, cstr_nul, str_ncpy-take}
use libsrsirc.Text.Ident.{
  strchr, cut_found, cut_at, move_found, move_behind, ident2nick, ident2uname, ident2host,
}

-- The text before the first `c`: all of it, where there is none.
unfoldable pub before : ℕ → Bytes → Bytes
before c [] = []
before c (x ∷ s) = if x == c then [] else x ∷ before c s

-- The text behind the first `c`, if there is one.
unfoldable pub behind : ℕ → Bytes → Option Bytes
behind c [] = none
behind c (x ∷ s) = if x == c then some s else behind c s

behind-none :
    (c : ℕ) (s junk : Bytes)
    → c ≢ 0
    → Lacks 0 s
    → behind c s ≡ none
    → (strchr (s ++ 0 ∷ junk) c ≡ none) × (before c s ≡ s)
unfolding strchr behind before
behind-none c [] junk nz z h = ground arith
behind-none c (x ∷ s) junk nz (hx, z) h = ground (arith, behind-none c s junk nz z)

behind-some :
    (c : ℕ) (s junk r : Bytes)
    → Lacks 0 s
    → behind c s ≡ some r
    → (strchr (s ++ 0 ∷ junk) c ≡ some (length (before c s))) × (s ≡ before c s ++ c ∷ r)
unfolding strchr behind before
behind-some c [] junk r z h = cc
behind-some c (x ∷ s) junk r (hx, z) h = ground (arith, behind-some c s junk r z)

before-Lacks : (b c : ℕ) (s : Bytes) → Lacks b s → Lacks b (before c s)
unfolding before
before-Lacks b c [] z = tt
before-Lacks b c (x ∷ s) z = ground (arith, before-Lacks b c s z.1)

-- The string in a buffer that has been cut at `c`, with the junk behind it.
cut_at-before :
    (c : ℕ) (s junk : Bytes)
    → c ≢ 0
    → Lacks 0 s
    → (junk' : Bytes) × (cut_at c (s ++ 0 ∷ junk) ≡ before c s ++ 0 ∷ junk')
unfolding cut_at cut_found
cut_at-before c s junk nz z = elim (Option-cases (behind c s)) [
  | inl h ↦ let (e, same) = behind-none c s junk nz z h in (junk, rw (e, same))
  | inr (r, h) ↦
      let (e, parts) = behind-some c s junk r z h in
      (
        r ++ 0 ∷ junk,
        rw e (
            ap (λ t. set (t ++ 0 ∷ junk) (length (before c s)) 0) parts
            ∙ ap (λ t. set t (length (before c s)) 0) (append_assoc (before c s) (c ∷ r) (0 ∷ junk))
            ∙ set-append (before c s) c 0 (r ++ 0 ∷ junk) _ refl),
      )
]

-- The text behind the first `c`, or the empty one.
abbrev pub or_empty : Option Bytes → Bytes
or_empty none = []
or_empty (some r) = r

Lacks-split : (pre r : Bytes) (c : ℕ) → Lacks 0 (pre ++ c ∷ r) → Lacks 0 r
Lacks-split [] r c (hc, z) = z
Lacks-split (x ∷ pre) r c (hx, z) = Lacks-split pre r c z

drop-append_suc : (pre : Bytes) (c : ℕ) (r : Bytes) → drop (suc (length pre)) (pre ++ c ∷ r) ≡ r
drop-append_suc [] c r = refl
drop-append_suc (x ∷ pre) c r = drop-append_suc pre c r

drop-append : (pre : Bytes) (c : ℕ) (r : Bytes) → drop (length pre + 1) (pre ++ c ∷ r) ≡ r
drop-append pre c r = rw add-one (drop-append_suc pre c r)

cstr-set_zero : (s junk : Bytes) → cstr (set (s ++ 0 ∷ junk) 0 0) ≡ []
unfolding cstr
cstr-set_zero [] junk = refl
cstr-set_zero (x ∷ s) junk = refl

move_behind_lem :
    (c : ℕ) (s junk : Bytes)
    → c ≢ 0
    → Lacks 0 s
    → cstr (move_behind c (s ++ 0 ∷ junk)) ≡ or_empty (behind c s)
unfolding move_behind move_found
move_behind_lem c s junk nz z = elim (Option-cases (behind c s)) [
  | inl h ↦ rw ((behind-none c s junk nz z h).0, h) (cstr-set_zero s junk)
  | inr (r, h) ↦
      let (e, parts) = behind-some c s junk r z h in
      let zr : Lacks 0 r = Lacks-split (before c s) r c (subst (Lacks 0) parts z) in
      let dropped : drop (length (before c s) + 1) (s ++ 0 ∷ junk) ≡ r ++ 0 ∷ junk =
        ap (λ t. drop (length (before c s) + 1) (t ++ 0 ∷ junk)) parts
        ∙ ap (drop (length (before c s) + 1)) (append_assoc (before c s) (c ∷ r) (0 ∷ junk))
        ∙ drop-append (before c s) c (r ++ 0 ∷ junk) in
      rw (e, h, dropped, cstr_nul r junk zr) (cstr_nul r _ zr)
]

take-Lacks : (n : ℕ) (s : Bytes) → Lacks 0 s → Lacks 0 (take n s)
take-Lacks zero s z = tt
take-Lacks (suc n) [] z = tt
take-Lacks (suc n) (x ∷ s) (hx, z) = (hx, take-Lacks n s z)

module _ (dest pfx : Bytes) (n : ℕ) (room : suc n ≤ length dest) (z : Lacks 0 pfx) where
  -- Of an identity that is cut to the room in the destination, `ident2nick` leaves what stands
  -- before the first `@` and there before the first `!`; `ident2uname` what stands behind the
  -- first `!` before the first `@`, and nothing where there is no `!`; `ident2host` what stands
  -- behind the first `@`, and nothing where there is none.
  pub ident_pieces :
      (cstr (ident2nick dest (suc n) pfx) ≡ before b'!' (before b'@' (take n pfx)))
      × (cstr (ident2uname dest (suc n) pfx) ≡ or_empty (behind b'!' (before b'@' (take n pfx))))
      × (cstr (ident2host dest (suc n) pfx) ≡ or_empty (behind b'@' (take n pfx)))
  unfolding ident2nick ident2uname ident2host
  ident_pieces =
      let zt = take-Lacks n pfx z in
      let zb = before-Lacks 0 b'@' (take n pfx) zt in
      let (j, e) =
        cut_at-before b'@' (take n pfx) (drop (suc (length (take n pfx))) dest) (omega arith) zt in
      let (j', e') = cut_at-before b'!' (before b'@' (take n pfx)) j (omega arith) zb in
      (
        rw (str_ncpy-take dest pfx n room z, e, e') (cstr_nul _ _ (before-Lacks 0 b'!' _ zb)),
        rw (str_ncpy-take dest pfx n room z, e) (move_behind_lem b'!' _ _ (omega arith) zb),
        rw (str_ncpy-take dest pfx n room z) (move_behind_lem b'@' _ _ (omega arith) zt),
      )
