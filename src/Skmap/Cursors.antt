-- ===== src/Skmap/Cursors.antt =====
-- The steps of an iteration move cursors only: the map keeps its entries.
use libsrsirc.Base.{
  ℕ, zero, suc, ◌+◌, ◌%◌, ◌≤◌, ◌<◌, ◌≡◌, refl, sym, ap, subst, ◌∙◌, Bool, true, false, Option, none,
  some, List, [], ◌∷◌, ◌++◌, map, All, Bytes, ◌==◌, if◌then◌else◌, length, get_or, set, drop,
  Bool-cases, inl, inr, arith,
}
use libsrsirc.Base.Mem.{Mem, ok, fault, ◌>>=◌}
use libsrsirc.Cmap.{Casemap}
use libsrsirc.Bucklist
use libsrsirc.Bucklist.{Node, Bucklist, find_loop}
use libsrsirc.Bucklist.Lookup.{val_of, matches}
use libsrsirc.Bucklist.Kept.{KeepsList, first-keeps, next-KeepsList}
use libsrsirc.Bucklist.Steps.{Distinct}
use libsrsirc.Skmap.{Skmap, home, skip, enter, enter_at, first, next, next_at, next_in, run_hash}
use libsrsirc.Skmap.View.{nodes_of, nodes_at, Fits, IsValid, view, total}
use libsrsirc.Skmap.Walk.{entries, pair_of}
use mathlib.Core.Path.{transport}

module _ {ℓ} {V : Type ℓ} where
  -- A bucket without its cursors.
  abbrev pub face : Option (Bucklist V) → Option (List (Node V) × Casemap)
  face none = none
  face (some l) = some (l.nodes, l.cmap)

  abbrev face_nodes : Option (List (Node V) × Casemap) → List (Node V)
  face_nodes none = []
  face_nodes (some f) = f.0

  face_nodes-face : (b : Option (Bucklist V)) → face_nodes (face b) ≡ nodes_of b
  face_nodes-face none = refl
  face_nodes-face (some l) = refl

  abbrev FaceFits : Casemap → Option (List (Node V) × Casemap) → Type 0
  FaceFits m none = Unit
  FaceFits m (some f) = f.1 ≡ m

  Fits-face : (m : Casemap) (b : Option (Bucklist V)) → FaceFits m (face b) ≡ Fits m b
  Fits-face m none = refl
  Fits-face m (some l) = refl

  -- Two maps that differ in their cursors only.
  pub record Same (h h' : Skmap V) : Type ℓ where
    pub same_bsz : h'.bsz ≡ h.bsz
    pub same_count : h'.count ≡ h.count
    pub same_hfn : h'.hfn ≡ h.hfn
    pub same_cmap : h'.cmap ≡ h.cmap
    pub same_faces : map face h'.buck ≡ map face h.buck

  pub Same-refl : (h : Skmap V) → Same h h
  Same-refl h = record {
    same_bsz = refl;
    same_count = refl;
    same_hfn = refl;
    same_cmap = refl;
    same_faces = refl;
  }

  pub Same-trans : {g h k : Skmap V} → Same g h → Same h k → Same g k
  Same-trans s t = record {
    same_bsz = t.same_bsz ∙ s.same_bsz;
    same_count = t.same_count ∙ s.same_count;
    same_hfn = t.same_hfn ∙ s.same_hfn;
    same_cmap = t.same_cmap ∙ s.same_cmap;
    same_faces = t.same_faces ∙ s.same_faces;
  }

  map-face-set :
      (xs : List (Option (Bucklist V))) (i : ℕ) (b : Option (Bucklist V))
      → face b ≡ face (get_or xs i none)
      → map face (set xs i b) ≡ map face xs
  map-face-set [] i b e = refl
  map-face-set (x ∷ xs) zero b e = ap (λ f. f ∷ map face xs) e
  map-face-set (x ∷ xs) (suc i) b e = ap (λ t. face x ∷ t) (map-face-set xs i b e)

  -- Every result is the map with other cursors.
  abbrev pub Keeps : Skmap V → Mem (Skmap V × Option (Bytes × V)) → Type ℓ
  Keeps h fault = Unit
  Keeps h (ok r) = Same h r.0

  -- A bucket with other cursors in its place.
  abbrev moved : (h : Skmap V) → List (Option (Bucklist V)) → ℕ → Bool → Skmap V
  moved h buck bit it = record h { buck = buck; bit = bit; iterating = it }

  Same-set :
      (h : Skmap V) (i bit : ℕ) (it : Bool) (l l' : Bucklist V)
      → get_or h.buck i none ≡ some l
      → face (some l') ≡ face (some l)
      → Same h (moved h (set h.buck i (some l')) bit it)
  Same-set h i bit it l l' here e = record {
    same_bsz = refl;
    same_count = refl;
    same_hfn = refl;
    same_cmap = refl;
    same_faces = map-face-set h.buck i (some l') (e ∙ ap face (sym here));
  }

  enter-Keeps : (h : Skmap V) (bit : ℕ) → Keeps h (enter h bit)
  unfolding enter enter_at
  enter-Keeps h bit = elim (Bool-cases (bit == h.bsz)) [
    | inl e ↦ rw (e, enter) (Same-moved h bit)
    | inr e ↦ rw (e, enter) (go (get_or h.buck bit none) refl)
  ]
    where
      Same-moved : (g : Skmap V) (k : ℕ) → Same g (moved g g.buck k false)
      Same-moved g k = record {
        same_bsz = refl;
        same_count = refl;
        same_hfn = refl;
        same_cmap = refl;
        same_faces = refl;
      }

      go : (b : Option (Bucklist V)) → get_or h.buck bit none ≡ b → Keeps h (enter_at h bit b)
      go none here = tt
      go (some l) here =
          Same-set h bit bit true l (Bucklist.first l).0 here (ap some (first-keeps l))

  pub first-Keeps : (h : Skmap V) → Keeps h (first h)
  unfolding first
  first-Keeps h = enter-Keeps h (skip h.buck 0)

  Keeps-trans :
      {g h : Skmap V} (m : Mem (Skmap V × Option (Bytes × V))) → Same g h → Keeps h m → Keeps g m
  Keeps-trans fault s k = tt
  Keeps-trans (ok r) s k = Same-trans s k

  next_in-Keeps :
      (h : Skmap V) (l : Bucklist V) (r : Bucklist V × Option (Bytes × V))
      → get_or h.buck h.bit none ≡ some l
      → face (some r.0) ≡ face (some l)
      → Keeps h (next_in h r)
  unfolding next_in
  next_in-Keeps h l (l', some e) here same = Same-set h h.bit h.bit h.iterating l l' here same
  next_in-Keeps h l (l', none) here same =
      let h' : Skmap V = record h { buck = set h.buck h.bit (some l') } in
      Keeps-trans (enter h' (skip (drop (h.bit + 1) h'.buck) (h.bit + 1)))
        (Same-set h h.bit h.bit h.iterating l l' here same)
        (enter-Keeps h' (skip (drop (h.bit + 1) h'.buck) (h.bit + 1)))

  pub next-Keeps : (h : Skmap V) → Keeps h (next h)
  unfolding next next_at
  next-Keeps h = elim (Bool-cases h.iterating) [
    | inr e ↦ subst (Keeps h) (sym (stopped h.iterating e)) (Same-refl h)
    | inl e ↦ subst (Keeps h) (sym (going h.iterating e)) (go (get_or h.buck h.bit none) refl)
  ]
    where
      stopped :
          (b : Bool)
          → b ≡ false
          → (if b then next_at h (get_or h.buck h.bit none) else ok (h, none)) ≡ ok (h, none)
      stopped true f = absurd (cc f)
      stopped false f = refl

      going :
          (b : Bool)
          → b ≡ true
          → (if b then next_at h (get_or h.buck h.bit none) else ok (h, none))
            ≡ next_at h (get_or h.buck h.bit none)
      going true f = refl
      going false f = absurd (cc f)

      then_in :
          (l : Bucklist V) (m : Mem (Bucklist V × Option (Bytes × V)))
          → get_or h.buck h.bit none ≡ some l
          → KeepsList l m
          → Keeps h (m >>= next_in h)
      then_in l fault here k = tt
      then_in l (ok r) here k = next_in-Keeps h l r here (ap some k)

      go : (b : Option (Bucklist V)) → get_or h.buck h.bit none ≡ b → Keeps h (next_at h b)
      go none here = tt
      go (some l) here = then_in l (Bucklist.next l) here (next-KeepsList l)

  -- What a map is worth, from its buckets without their cursors.
  get_or-face :
      (xs : List (Option (Bucklist V))) (i : ℕ)
      → get_or (map face xs) i none ≡ face (get_or xs i none)
  get_or-face [] i = refl
  get_or-face (x ∷ xs) zero = refl
  get_or-face (x ∷ xs) (suc i) = get_or-face xs i

  length-face : (xs : List (Option (Bucklist V))) → length (map face xs) ≡ length xs
  length-face [] = refl
  length-face (x ∷ xs) = ap suc (length-face xs)

  face_total : List (Option (List (Node V) × Casemap)) → ℕ
  face_total [] = 0
  face_total (f ∷ fs) = length (face_nodes f) + face_total fs

  total-face : (xs : List (Option (Bucklist V))) → face_total (map face xs) ≡ total xs
  unfolding face_total total
  total-face [] = refl
  total-face (none ∷ xs) = omega (arith, total-face xs)
  total-face (some l ∷ xs) = omega (arith, total-face xs)

  -- No two nodes of a bucket have the same address.
  abbrev pub Walkable : Skmap V → Type 0
  Walkable h = All (λ b. Distinct (nodes_of b)) h.buck

  All-face :
      (xs : List (Option (Bucklist V)))
      → All (λ b. Distinct (nodes_of b)) xs
      → All (λ f. Distinct (face_nodes f)) (map face xs)
  All-face [] d = d
  All-face (none ∷ xs) (d, ds) = (d, All-face xs ds)
  All-face (some l ∷ xs) (d, ds) = (d, All-face xs ds)

  All-unface :
      (xs : List (Option (Bucklist V)))
      → All (λ f. Distinct (face_nodes f)) (map face xs)
      → All (λ b. Distinct (nodes_of b)) xs
  All-unface [] d = d
  All-unface (none ∷ xs) (d, ds) = (d, All-unface xs ds)
  All-unface (some l ∷ xs) (d, ds) = (d, All-unface xs ds)

  face_entries : List (Option (List (Node V) × Casemap)) → List (Bytes × V)
  face_entries [] = []
  face_entries (f ∷ fs) = map pair_of (face_nodes f) ++ face_entries fs

  entries-face : (xs : List (Option (Bucklist V))) → face_entries (map face xs) ≡ entries xs
  unfolding face_entries entries
  entries-face [] = refl
  entries-face (none ∷ xs) = entries-face xs
  entries-face (some l ∷ xs) = ap (λ t. map pair_of l.nodes ++ t) (entries-face xs)

  module _ {h h' : Skmap V} (s : Same h h') where
    same_face : (i : ℕ) → face (get_or h'.buck i none) ≡ face (get_or h.buck i none)
    same_face i =
        sym (get_or-face h'.buck i) ∙ ap (λ t. get_or t i none) s.same_faces ∙ get_or-face h.buck i

    pub same_nodes : (i : ℕ) → nodes_at h' i ≡ nodes_at h i
    same_nodes i =
        sym (face_nodes-face (get_or h'.buck i none))
        ∙ ap face_nodes (same_face i)
        ∙ face_nodes-face (get_or h.buck i none)

    pub home-Same : (q : Bytes) → home h' q ≡ home h q
    unfolding home
    home-Same q =
        ap (λ f. run_hash f q h'.cmap % h'.bsz) s.same_hfn
        ∙ ap (λ m. run_hash h.hfn q m % h'.bsz) s.same_cmap
        ∙ ap (λ n. run_hash h.hfn q h.cmap % n) s.same_bsz

    pub view-Same : (q : Bytes) → view h' q ≡ view h q
    unfolding view
    view-Same q =
        ap (λ m. val_of (find_loop m q (nodes_at h' (home h' q)))) s.same_cmap
        ∙ ap (λ i. val_of (find_loop h.cmap q (nodes_at h' i))) (home-Same q)
        ∙ ap (λ ns. val_of (find_loop h.cmap q ns)) (same_nodes (home h q))

    Fits-Same : (i : ℕ) → Fits h.cmap (get_or h.buck i none) → Fits h'.cmap (get_or h'.buck i none)
    Fits-Same i f =
        transport
          (sym (Fits-face h.cmap (get_or h.buck i none))
            ∙ ap (FaceFits h.cmap) (sym (same_face i))
            ∙ ap (λ m. FaceFits m (face (get_or h'.buck i none))) (sym s.same_cmap)
            ∙ Fits-face h'.cmap (get_or h'.buck i none))
          f

    pub total-Same : total h'.buck ≡ total h.buck
    total-Same = sym (total-face h'.buck) ∙ ap face_total s.same_faces ∙ total-face h.buck

    pub entries-Same : entries h'.buck ≡ entries h.buck
    entries-Same = sym (entries-face h'.buck) ∙ ap face_entries s.same_faces ∙ entries-face h.buck

    pub Walkable-Same : Walkable h → Walkable h'
    Walkable-Same d =
        All-unface h'.buck
          (subst (All (λ f. Distinct (face_nodes f))) (sym s.same_faces) (All-face h.buck d))

    pub IsValid-Same : IsValid h → IsValid h'
    IsValid-Same v = record {
      some_bucket = subst (λ n. 0 < n) (sym s.same_bsz) v.some_bucket;
      width =
          sym (length-face h'.buck)
          ∙ ap length s.same_faces
          ∙ length-face h.buck
          ∙ v.width
          ∙ sym s.same_bsz;
      fits = λ i. Fits-Same i (v.fits i);
      unique = λ q i.
          subst (λ n. n ≤ 1)
            (ap (λ ns. matches h.cmap q ns) (sym (same_nodes i))
              ∙ ap (λ m. matches m q (nodes_at h' i)) (sym s.same_cmap))
            (v.unique q i);
      placed = λ q i ne.
          ap (λ m. matches m q (nodes_at h' i)) s.same_cmap
          ∙ ap (λ ns. matches h.cmap q ns) (same_nodes i)
          ∙ v.placed q i (λ e. ne (home-Same q ∙ e));
      counted = s.same_count ∙ v.counted ∙ sym total-Same;
    }
