-- ===== src/Ucbase/Prefixes.antt =====
-- What `lsi_ucb_update_modepfx` does to the prefix symbols of a member.
use libsrsirc.Base.{
  ℕ, suc, ◌+◌, ◌≤◌, ◌<◌, ◌≡◌, ◌≢◌, refl, sym, ap, ◌∙◌, Bool, true, false, not, ◌&&◌, ◌||◌, Option,
  none, some, [], ◌∷◌, Bytes, ◌==◌, if◌then◌else◌, leb, ltb, length, Bool-cases, inl, inr, ==_iff,
  arith,
}
use Prim.Native.Nat.{compare, Ordering}
use libsrsirc.Base.Mem.{ok}
use libsrsirc.Text.Ident.{map_suc}
use libsrsirc.Proto.{has_byte}
use libsrsirc.Ucbase.Once.{same_rest}
use libsrsirc.Ucbase.{index_of, remove_byte, insert_pfx, update_modepfx}

module _ (syms : Bytes) where
  -- The symbols stand in the order of the server's, from its `start`-th on, and each at most once.
  abbrev pub Ranked : ℕ → Bytes → Type 0
  Ranked start [] = Unit
  Ranked start (x ∷ s) = (k : ℕ) × (index_of syms x ≡ some k) × (start ≤ k) × Ranked (suc k) s

some_inj : {i j : ℕ} → some i ≡ some j → i ≡ j
some_inj h = cc

map_suc-some : (o : Option ℕ) (k : ℕ) → map_suc o ≡ some k → (j : ℕ) × (o ≡ some j) × (k ≡ suc j)
map_suc-some none k h = absurd (cc h)
map_suc-some (some j) k h = (j, refl, cc)

index_of-inj :
    (syms : Bytes) (a b k : ℕ) → index_of syms a ≡ some k → index_of syms b ≡ some k → a ≡ b
unfolding index_of
index_of-inj [] a b k p q = cc
index_of-inj (x ∷ syms) a b k p q = elim (Bool-cases (x == a)) [
  | inl e ↦ elim (Bool-cases (x == b)) [
    | inl f ↦ ground arith
    | inr f ↦
        let (j, g, h) = map_suc-some _ k (rw (f, index_of) at q) in
        absurd (ground (arith, some_inj (rw (e, index_of) at p)))
  ]
  | inr e ↦
      let (i, g, h) = map_suc-some _ k (rw (e, index_of) at p) in
      elim (Bool-cases (x == b)) [
        | inl f ↦ absurd (ground (arith, some_inj (rw (f, index_of) at q)))
        | inr f ↦
            let (j, g', h') = map_suc-some _ k (rw (f, index_of) at q) in
            index_of-inj syms a b i g (g' ∙ ap some (omega arith))
      ]
]

stronger : (j k : ℕ) → j < k → compare k j ≡ Ordering.gt
stronger j k h = ground arith

weaker : (j k : ℕ) → k ≤ j → j ≢ k → compare k j ≡ Ordering.lt
weaker j k h ne = ground arith

module _ (syms : Bytes) where
  Ranked-mono : (a b : ℕ) (s : Bytes) → a ≤ b → Ranked syms b s → Ranked syms a s
  Ranked-mono a b [] le r = tt
  Ranked-mono a b (x ∷ s) le (k, e, l, r) = (k, e, omega arith, r)

  -- A symbol that stands before the start is none of them.
  Ranked-has_byte :
      (start : ℕ) (s : Bytes) (c k : ℕ)
      → Ranked syms start s
      → index_of syms c ≡ some k
      → k < start
      → has_byte s c ≡ false
  unfolding has_byte
  Ranked-has_byte start [] c k r e lt = refl
  Ranked-has_byte start (x ∷ s) c k (j, f, le, r) e lt = elim (Bool-cases (x == c)) [
    | inl g ↦ absurd (omega (arith, some_inj (sym f ∙ ap (index_of syms) ((==_iff x c).0 g) ∙ e)))
    | inr g ↦ rw g (Ranked-has_byte (suc j) s c k r e (omega arith))
  ]

  Ranked-remove_byte :
      (start : ℕ) (s : Bytes) (c : ℕ)
      → Ranked syms start s
      → Ranked syms start (remove_byte s c)
        × (length (remove_byte s c) ≤ length s)
        × ((q : ℕ) → has_byte (remove_byte s c) q ≡ (not (q == c) && has_byte s q))
  unfolding remove_byte has_byte
  Ranked-remove_byte start [] c r = (tt, omega arith, λ q. ground arith)
  Ranked-remove_byte start (x ∷ s) c (k, e, le, r) = elim (Bool-cases (x == c)) [
    | inl g ↦
        rw (g, remove_byte)
          (
            Ranked-mono start (suc k) s (omega arith) r,
            omega arith,
            λ q. same_rest x s c q g (Ranked-has_byte (suc k) s x k r e (omega arith)),
          )
    | inr g ↦
        let (r', l, has) = Ranked-remove_byte (suc k) s c r in
        rw (g, remove_byte) ((k, e, le, r'), omega arith, λ q. ground (arith, has q))
  ]

  -- A symbol of the server's that is not there gets its place.
  insert_pfx-Ranked :
      (start : ℕ) (s : Bytes) (c k : ℕ)
      → Ranked syms start s
      → index_of syms c ≡ some k
      → start ≤ k
      → has_byte s c ≡ false
      → (r : Bytes) × (insert_pfx syms s c ≡ ok r)
        × Ranked syms start r
        × (length r ≡ suc (length s))
        × ((q : ℕ) → has_byte r q ≡ (c == q || has_byte s q))
  unfolding insert_pfx has_byte
  insert_pfx-Ranked start [] c k r e le new = (c ∷ [], refl, (k, e, le, tt), refl, λ q. refl)
  insert_pfx-Ranked start (x ∷ s) c k (j, f, l, rest) e le new = elim (Bool-cases (ltb j k)) [
    | inl lt ↦
        let (r, run, ranked, size, has) =
          insert_pfx-Ranked (suc j) s c k rest e (ground arith) (ground arith) in
        (
          x ∷ r,
          rw (f, e, stronger j k (ground arith), run, insert_pfx) refl,
          (j, f, l, ranked),
          ap suc size,
          λ q. ground (arith, has q),
        )
    | inr ge ↦
        let ne : j ≢ k = λ h. absurd (ground (arith, index_of-inj syms x c k (f ∙ ap some h) e)) in
        (
          c ∷ x ∷ s,
          rw (f, e, weaker j k (ground arith) ne, insert_pfx) refl,
          (k, e, le, (j, f, ground arith, rest)),
          refl,
          λ q. refl,
        )
  ]

  -- Updating the prefix symbols of a member, which stand in the order of the server's symbols, with
  -- one of the server's keeps that order and the bound of 7 symbols. It succeeds where the symbol
  -- was not there and is set with room for it, or was there and is taken away; then it is the only
  -- symbol that changes. Else nothing changes.
  pub update_modepfx-Ranked :
      (s : Bytes) (c k : ℕ) (enab : Bool)
      → Ranked syms 0 s
      → length s ≤ 7
      → index_of syms c ≡ some k
      → (r : Bytes) × (done : Bool) × (update_modepfx syms s c enab ≡ ok (r, done))
        × (done ≡ (if enab then not (has_byte s c) && ltb (length s) 7 else has_byte s c))
        × Ranked syms 0 r
        × (length r ≤ 7)
        × ((q : ℕ) → has_byte r q ≡ (if done && (q == c) then enab else has_byte s q))
  unfolding update_modepfx
  update_modepfx-Ranked s c k true ranked small e = elim (Bool-cases (has_byte s c)) [
    | inl h ↦ (s, false, rw (h, update_modepfx) refl, rw h refl, ranked, small, λ q. refl)
    | inr h ↦ elim (Bool-cases (leb 8 (length s + 1))) [
      | inl f ↦ (s, false, rw (h, f, update_modepfx) refl, ground arith, ranked, small, λ q. refl)
      | inr f ↦
          let (r, run, ranked', size, has) = insert_pfx-Ranked 0 s c k ranked e (omega arith) h in
          (
            r,
            true,
            rw (h, f, run, update_modepfx) refl,
            ground arith,
            ranked',
            ground arith,
            λ q. ground (arith, has q),
          )
    ]
  ]
  update_modepfx-Ranked s c k false ranked small e = elim (Bool-cases (has_byte s c)) [
    | inr h ↦ (s, false, rw (h, update_modepfx) refl, rw h refl, ranked, small, λ q. refl)
    | inl h ↦
        let (ranked', size, has) = Ranked-remove_byte 0 s c ranked in
        (
          remove_byte s c,
          true,
          rw (h, update_modepfx) refl,
          rw h refl,
          ranked',
          omega arith,
          λ q. ground (arith, has q),
        )
  ]
