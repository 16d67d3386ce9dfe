-- ===== src/Skmap/Entries.antt =====
-- The entries of a map: how many there are, and that every lookup leads to one of them.
use libsrsirc.Base.{
  ◌∙◌, ℕ, zero, suc, ◌<◌, ◌≡◌, refl, ap, subst, true, ◌⊎◌, inl, inr, Bool-cases, Option, none, some,
  List, [], ◌∷◌, ◌++◌, map, All, Bytes, length, get_or, length-append, arith,
}
use libsrsirc.Cmap.{Casemap}
use libsrsirc.Key.{pfxeq}
use libsrsirc.Key.Laws.{pfxeq_congr_right}
use libsrsirc.Bucklist.{Node, Bucklist, find_loop}
use libsrsirc.Bucklist.Lookup.{val_of}
use libsrsirc.Skmap.{Skmap, home}
use libsrsirc.Skmap.View.{nodes_of, IsValid, view, total, home-lt, home_congr}
use libsrsirc.Skmap.Walk.{entries, pair_of}

module _ {V : Type 0} where
  -- An entry of the list has the value `a`.
  abbrev pub Holds : V → List (Bytes × V) → Type 0
  Holds a [] = ⊥
  Holds a (e ∷ es) = (e.1 ≡ a) ⊎ Holds a es

  pub Holds-All {κ} :
      (P : V → Type κ) (a : V) (es : List (Bytes × V))
      → Holds a es
      → All (λ (e : Bytes × V). P e.1) es
      → P a
  Holds-All P a [] h ps = absurd h
  Holds-All P a (e ∷ es) (inl f) (p, ps) = subst P f p
  Holds-All P a (e ∷ es) (inr h) (p, ps) = Holds-All P a es h ps

  Holds-left : (a : V) (xs ys : List (Bytes × V)) → Holds a xs → Holds a (xs ++ ys)
  Holds-left a [] ys h = absurd h
  Holds-left a (x ∷ xs) ys (inl e) = inl e
  Holds-left a (x ∷ xs) ys (inr h) = inr (Holds-left a xs ys h)

  Holds-right : (a : V) (xs ys : List (Bytes × V)) → Holds a ys → Holds a (xs ++ ys)
  Holds-right a [] ys h = h
  Holds-right a (x ∷ xs) ys h = inr (Holds-right a xs ys h)

  length-map : (ns : List (Node V)) → length (map pair_of ns) ≡ length ns
  length-map [] = refl
  length-map (n ∷ ns) = ap suc (length-map ns)

  pub length-entries : (bs : List (Option (Bucklist V))) → length (entries bs) ≡ total bs
  unfolding entries total
  length-entries [] = refl
  length-entries (b ∷ bs) = omega (
    arith,
    length-append (map pair_of (nodes_of b)) (entries bs),
    length-map (nodes_of b),
    length-entries bs,
  )

  find_loop-Holds :
      (m : Casemap) (q : Bytes) (a : V) (ns : List (Node V))
      → val_of (find_loop m q ns) ≡ some a
      → Holds a (map pair_of ns)
  unfolding find_loop
  find_loop-Holds m q a [] e = absurd (cc e)
  find_loop-Holds m q a (n ∷ ns) e = elim (Bool-cases (pfxeq n.key q m)) [
    | inl p ↦ inl (cc (rw (p, find_loop) at e))
    | inr p ↦ inr (find_loop-Holds m q a ns (rw (p, find_loop) at e))
  ]

  entries-Holds :
      (bs : List (Option (Bucklist V))) (i : ℕ) (a : V)
      → i < length bs
      → Holds a (map pair_of (nodes_of (get_or bs i none)))
      → Holds a (entries bs)
  unfolding entries
  entries-Holds [] i a lt h = absurd (omega arith)
  entries-Holds (b ∷ bs) zero a lt h = Holds-left a (map pair_of (nodes_of b)) (entries bs) h
  entries-Holds (b ∷ bs) (suc i) a lt h =
      Holds-right a (map pair_of (nodes_of b)) (entries bs) (entries-Holds bs i a (omega arith) h)

  -- A lookup leads to an entry.
  pub view-Holds :
      (h : Skmap V) (q : Bytes) (a : V) → IsValid h → view h q ≡ some a → Holds a (entries h.buck)
  unfolding view
  view-Holds h q a v e =
      entries-Holds h.buck (home h q) a (home-lt v q) (find_loop-Holds h.cmap q a _ e)

  find_loop_congr :
      (m : Casemap) (a b : Bytes)
      → pfxeq a b m ≡ true
      → (ns : List (Node V)) → find_loop m a ns ≡ find_loop m b ns
  unfolding find_loop
  find_loop_congr m a b e [] = refl
  find_loop_congr m a b e (n ∷ ns) =
      ground (arith, pfxeq_congr_right m n.key a b e, find_loop_congr m a b e ns)

  -- Keys that compare equal lead to the same.
  pub view_congr : (h : Skmap V) (a b : Bytes) → pfxeq a b h.cmap ≡ true → view h a ≡ view h b
  unfolding view
  view_congr h a b e =
      ap (λ i. val_of (find_loop h.cmap a (nodes_of (get_or h.buck i none)))) (home_congr h a b e)
      ∙ ap val_of (find_loop_congr h.cmap a b e (nodes_of (get_or h.buck (home h b) none)))

  Holds-tail :
      (e : Bytes × V) (xs es : List (Bytes × V))
      → All (λ (d : Bytes × V). Holds d.1 es) xs
      → All (λ (d : Bytes × V). Holds d.1 (e ∷ es)) xs
  Holds-tail e [] es h = tt
  Holds-tail e (x ∷ xs) es (p, ps) = (inr p, Holds-tail e xs es ps)

  -- Every entry is one of the list.
  pub Holds-within : (es : List (Bytes × V)) → All (λ (e : Bytes × V). Holds e.1 es) es
  Holds-within [] = tt
  Holds-within (e ∷ es) = (inl refl, Holds-tail e es es (Holds-within es))
