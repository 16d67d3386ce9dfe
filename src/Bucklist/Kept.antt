-- ===== src/Bucklist/Kept.antt =====
-- The steps of a cursor leave the entries of a bucket as they are.
use libsrsirc.Base.{ℕ, ◌≡◌, refl, Option, none, some, List, [], ◌∷◌, Bytes}
use libsrsirc.Base.Mem.{Mem, ok, fault, ◌>>=◌}
use libsrsirc.Cmap.{Casemap}
use libsrsirc.Bucklist.{Node, Bucklist, first, first_nodes, next, next_from, step_to, after}

module _ {ℓ} {V : Type ℓ} where
  -- A list without its cursors.
  abbrev pub list_face : Bucklist V → List (Node V) × Casemap
  list_face l = (l.nodes, l.cmap)

  abbrev pub KeepsList : Bucklist V → Mem (Bucklist V × Option (Bytes × V)) → Type ℓ
  KeepsList l fault = Unit
  KeepsList l (ok r) = list_face r.0 ≡ list_face l

  pub first-keeps : (l : Bucklist V) → list_face (first l).0 ≡ list_face l
  unfolding first first_nodes
  first-keeps l = go l.nodes
    where
      go : (ns : List (Node V)) → list_face (first_nodes l ns).0 ≡ list_face l
      go [] = refl
      go (n ∷ ns) = refl

  step_to-keeps : (l : Bucklist V) (ns : List (Node V)) → list_face (step_to l ns).0 ≡ list_face l
  unfolding step_to
  step_to-keeps l [] = refl
  step_to-keeps l (n ∷ ns) = refl

  pub next-KeepsList : (l : Bucklist V) → KeepsList l (next l)
  unfolding next next_from
  next-KeepsList l = go l.iter
    where
      then_step : (m : Mem (List (Node V))) → KeepsList l (m >>= (λ rest. ok (step_to l rest)))
      then_step fault = tt
      then_step (ok ns) = step_to-keeps l ns

      go : (i : Option ℕ) → KeepsList l (next_from l i)
      go none = refl
      go (some a) = then_step (after a l.nodes)
