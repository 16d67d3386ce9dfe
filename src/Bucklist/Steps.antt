-- ===== src/Bucklist/Steps.antt =====
-- Where a step of the cursor leads in a bucket whose nodes have different addresses.
use libsrsirc.Base.{
  ℕ, ◌≡◌, ◌≢◌, refl, subst, false, none, some, List, [], ◌∷◌, All, ◌==◌, Bool-cases, inl, inr,
  ==_refl, arith,
}
use libsrsirc.Base.Mem.{ok}
use libsrsirc.Bucklist.{Node, Bucklist, after, first, first_nodes, next, next_from, step_to}

module _ {ℓ} {V : Type ℓ} where
  -- No address stands twice.
  abbrev pub Distinct : List (Node V) → Type 0
  Distinct [] = Unit
  Distinct (n ∷ ns) = All (λ (m : Node V). n.addr ≢ m.addr) ns × Distinct ns

  ok_inj : {x y : List (Node V)} → ok x ≡ ok y → x ≡ y
  ok_inj h = cc

  pub after-head : (n : Node V) (ns : List (Node V)) → after n.addr (n ∷ ns) ≡ ok ns
  unfolding after
  after-head n ns = rw (==_refl n.addr, after) refl

  -- What stands behind an address is in the list.
  after-All :
      (P : Node V → Type 0) (a : ℕ) (ns : List (Node V)) (r : Node V) (rs : List (Node V))
      → after a ns ≡ ok (r ∷ rs)
      → All P ns
      → P r
  unfolding after
  after-All P a [] r rs e h = absurd (cc e)
  after-All P a (n ∷ ns) r rs e (_, h) = elim (Bool-cases (n.addr == a)) [
    | inl f ↦ (subst (All P) (ok_inj (rw (f, after) at e)) h).0
    | inr f ↦ after-All P a ns r rs (rw (f, after) at e) h
  ]

  pub after-next :
      (a : ℕ) (ns : List (Node V)) (r : Node V) (rs : List (Node V))
      → Distinct ns
      → after a ns ≡ ok (r ∷ rs)
      → after r.addr ns ≡ ok rs
  unfolding after
  after-next a [] r rs d e = absurd (cc e)
  after-next a (n ∷ ns) r rs (ne, d) e = elim (Bool-cases (n.addr == a)) [
    | inl f ↦
        let same = ok_inj (rw (f, after) at e) in
        let skip : (n.addr == r.addr) ≡ false =
          ground (arith, (subst (All (λ (m : Node V). n.addr ≢ m.addr)) same ne).0) in
        rw (skip, after, same) (after-head r rs)
    | inr f ↦
        let later : after a ns ≡ ok (r ∷ rs) = rw (f, after) at e in
        let skip : (n.addr == r.addr) ≡ false =
          ground (arith, after-All (λ m. n.addr ≢ m.addr) a ns r rs later ne) in
        rw (skip, after) (after-next a ns r rs d later)
  ]

  pub next-end :
      (l : Bucklist V) (a : ℕ) → l.iter ≡ some a → after a l.nodes ≡ ok [] → next l ≡ ok (l, none)
  unfolding next next_from step_to
  next-end l a i e = rw (i, e) refl

  pub next-step :
      (l : Bucklist V) (a : ℕ) (r : Node V) (rs : List (Node V))
      → l.iter ≡ some a
      → after a l.nodes ≡ ok (r ∷ rs)
      → next l ≡ ok (record l { iter = some r.addr; previter = some a }, some (r.key, r.val))
  unfolding next next_from step_to
  next-step l a r rs i e = rw (i, e) refl

  pub first-some :
      (l : Bucklist V) (n : Node V) (ns : List (Node V))
      → l.nodes ≡ n ∷ ns
      → first l ≡ (record l { iter = some n.addr; previter = none }, some (n.key, n.val))
  unfolding first first_nodes
  first-some l n ns e = rw e refl
