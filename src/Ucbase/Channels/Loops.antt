-- ===== src/Ucbase/Channels/Loops.antt =====
-- The rule for the loops over the maps.
use libsrsirc.Base.{
  ℕ, zero, suc, ◌≤◌, ◌<◌, ◌≡◌, refl, sym, ap, subst, ◌∙◌, Bool, true, Option, none, some, List, [],
  ◌∷◌, Bytes, length, arith,
}
use libsrsirc.Base.Mem.{Mem, ok, fault}
use libsrsirc.Skmap
use libsrsirc.Skmap.{Skmap}
use libsrsirc.Skmap.View.{IsValid}
use libsrsirc.Skmap.Walk.{Walk, over, more, entries, first-Walk}
use libsrsirc.Skmap.Cursors.{Same, Keeps, first-Keeps, next-Keeps, Walkable}
use libsrsirc.Skmap.Entries.{length-entries}
use libsrsirc.Ucbase.Store.{Ctx, St, ◌>>=◌, ◌>>◌, done, lift}
use libsrsirc.Ucbase.Channels.{each, walk, each_chan, first_chan, next_chan, value}

pub bind-ok :
    {A B : Type 0} (m : St A) (f : A → St B) (x : Ctx) (a : A) (y : Ctx)
    → m x ≡ ok (a, y)
    → (m >>= f) x ≡ f a y
bind-ok m f x a y e = rw (e, ◌>>=◌)

-- What a step of an iteration does: it gives the first of the items that are left, or none.
abbrev pub Gives :
    {E I : Type 0}
    → (I → E)
    → (List I → Ctx → Type 0)
    → (Ctx → Type 0)
    → List I
    → Mem (Option E × Ctx)
    → Type 0
Gives val P R es fault = ⊥
Gives val P R [] (ok r) = (r.0 ≡ none) × R r.1
Gives val P R (i ∷ es) (ok r) = (r.0 ≡ some (val i)) × P (i ∷ es) r.1

module _ {E I : Type 0} (val : I → E) (step : St (Option E)) (body : E → St Bool)
    (P : List I → Ctx → Type 0) (Q : List I → Ctx → Type 0) (R : Ctx → Type 0)
    (run : (i : I) (es : List I) (x : Ctx)
      → P (i ∷ es) x
      → (y : Ctx) × (body (val i) x ≡ ok (true, y)) × Q es y)
    (go : (es : List I) (y : Ctx) → Q es y → Gives val P R es (step y)) where
  -- With a round for each item that is left the loop ends by itself.
  pub each-rule :
      (es : List I) (n : ℕ) (i : I) (x : Ctx)
      → length es < n
      → P (i ∷ es) x
      → (z : Ctx) × (each n step body (val i) x ≡ ok (true, z)) × R z
  unfolding each
  each-rule es zero i x lt p = absurd (omega arith)
  each-rule [] (suc n) i x lt p =
      let (y, e, q) = run i [] x p in
      let (z, f, r) = ended (step y) (go [] y q) in
      (z, bind-ok (body (val i)) _ x true y e ∙ bind-ok step _ y none z f, r)
    where
      ended : (m : Mem (Option E × Ctx)) → Gives val P R [] m → (z : Ctx) × (m ≡ ok (none, z)) × R z
      ended fault g = absurd g
      ended (ok (o, z)) (f, r) = (z, ap (λ t. ok (t, z)) f, r)
  each-rule (i' ∷ es) (suc n) i x lt p =
      let (y, e, q) = run i (i' ∷ es) x p in
      let (z, f, p') = went (step y) (go (i' ∷ es) y q) in
      let (w, g, r) = each-rule es n i' z (omega arith) p' in
      (w, bind-ok (body (val i)) _ x true y e ∙ bind-ok step _ y (some (val i')) z f ∙ g, r)
    where
      went :
          (m : Mem (Option E × Ctx))
          → Gives val P R (i' ∷ es) m
          → (z : Ctx) × (m ≡ ok (some (val i'), z)) × P (i' ∷ es) z
      went fault g = absurd g
      went (ok (o, z)) (f, q) = (z, ap (λ t. ok (t, z)) f, q)

pub then-ok :
    {A B : Type 0} (m : St A) (k : St B) (x : Ctx) (a : A) (y : Ctx)
    → m x ≡ ok (a, y)
    → (m >> k) x ≡ k y
then-ok m k x a y e = rw (e, ◌>>◌)

abbrev val_of_entry : {V : Type 0} → Bytes × V → V
val_of_entry e = e.1

-- A loop over the channels, with the entries that are left in its invariant `P`.
module _ (P : List (Bytes × ℕ) → Ctx → Type 0) (body : ℕ → St Bool)
    (moves : (es : List (Bytes × ℕ)) (x : Ctx) (h : Skmap ℕ)
      → Same x.chans h
      → P es x
      → P es (record x { chans = h }))
    (run : (e : Bytes × ℕ) (es : List (Bytes × ℕ)) (x : Ctx)
      → P (e ∷ es) x
      → (y : Ctx) × (body e.1 x ≡ ok (true, y)) × P es y × (y.chans ≡ x.chans)) where
  -- The entry `e` is at hand, and the walk gives those behind it.
  abbrev Here : List (Bytes × ℕ) → Ctx → Type 0
  Here [] x = ⊥
  Here (e ∷ es) x = P (e ∷ es) x × Walk (Skmap.next x.chans) es

  abbrev Ahead : List (Bytes × ℕ) → Ctx → Type 0
  Ahead es x = P es x × Walk (Skmap.next x.chans) es

  chans-Gives :
      (x : Ctx) (m : Mem (Skmap ℕ × Option (Bytes × ℕ))) (es : List (Bytes × ℕ))
      → Walk m es
      → Keeps x.chans m
      → P es x
      → Gives val_of_entry Here
          (P [])
          es
          ((lift m >>= λ r y. ok (value r.1, record y { chans = r.0 })) x)
  chans-Gives x _ _ (over h) s p = (refl, moves [] x h s p)
  chans-Gives x _ _ (more h e es w) s p = (refl, (moves (e ∷ es) x h s p, w))

  next_chan-Gives :
      (es : List (Bytes × ℕ)) (y : Ctx)
      → Ahead es y
      → Gives val_of_entry Here (P []) es (next_chan y)
  unfolding next_chan
  next_chan-Gives es y (p, w) = chans-Gives y (Skmap.next y.chans) es w (next-Keeps y.chans) p

  body-Ahead :
      (e : Bytes × ℕ) (es : List (Bytes × ℕ)) (x : Ctx)
      → Here (e ∷ es) x
      → (y : Ctx) × (body e.1 x ≡ ok (true, y)) × Ahead es y
  body-Ahead e es x (p, w) =
      let (y, f, p', g) = run e es x p in
      (y, f, (p', subst (λ h. Walk (Skmap.next h) es) (sym g) w))

  walk-from :
      (n : ℕ) (es : List (Bytes × ℕ)) (x : Ctx)
      → length es ≤ n
      → Gives val_of_entry Here (P []) es (first_chan x)
      → (z : Ctx) × (walk n first_chan next_chan body x ≡ ok (true, z)) × P [] z
  unfolding walk
  walk-from n es x le g = go (first_chan x) refl es le g
    where
      go :
          (m : Mem (Option ℕ × Ctx))
          → first_chan x ≡ m
          → (es : List (Bytes × ℕ)) → length es ≤ n
          → Gives val_of_entry Here (P []) es m
          → (z : Ctx) × ((first_chan >>= λ o. elim o [
            | none ↦ done true
            | some e ↦ each n next_chan body e
          ])
                x
              ≡ ok (true, z))
            × P [] z
      go fault f es le g = absurd g
      go (ok (o, y)) f [] le (g, p) =
          (y, bind-ok first_chan _ x none y (f ∙ ap (λ t. ok (t, y)) g), p)
      go (ok (o, y)) f (e ∷ es) le (g, p) =
          let (z, h, r) =
            each-rule val_of_entry next_chan body Here Ahead (P []) body-Ahead next_chan-Gives es n
              e y (omega arith) p in
          (z, bind-ok first_chan _ x (some e.1) y (f ∙ ap (λ t. ok (t, y)) g) ∙ h, r)

  -- The loop over the channels of a well-formed map ends, and has run its body for every entry.
  pub each_chan-rule :
      (x : Ctx)
      → IsValid x.chans
      → Walkable x.chans
      → P (entries x.chans.buck) x
      → (z : Ctx) × (each_chan body x ≡ ok (true, z)) × P [] z
  unfolding each_chan first_chan
  each_chan-rule x v d p =
      walk-from x.chans.count (entries x.chans.buck) x
        (omega (arith, length-entries x.chans.buck, v.counted))
        (chans-Gives x (Skmap.first x.chans) (entries x.chans.buck) (first-Walk x.chans v d)
          (first-Keeps x.chans) p)
