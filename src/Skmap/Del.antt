-- ===== src/Skmap/Del.antt =====
-- `del` clears one key of the function that the map stands for.
use libsrsirc.Base.{
  ℕ, ◌+◌, ◌-◌, ◌≤◌, ◌≡◌, refl, sym, subst, ap, ◌∙◌, inl, inr, Option, none, some, Bytes,
  if◌then◌else◌, length, get_or, Bool-cases, Option-cases, is_some, arith,
}
use libsrsirc.Key.{pfxeq}
use libsrsirc.Bucklist
use libsrsirc.Bucklist.{Node, Bucklist, entry, find_loop, replace_loop, remove_loop, insert_nodes}
use libsrsirc.Bucklist.Lookup.{
  val_of, matches, find-remove, matches-remove-le, remove-find, length-remove, remove_absent,
}
use libsrsirc.Skmap.{Skmap, home, del, del_in, del_at}
use libsrsirc.Skmap.View.{nodes_of, Fits, IsValid, view, home_congr, length-nodes_at}
use libsrsirc.Skmap.Replace.{replaced, replaced-IsValid, replaced-view}

module _ {ℓ} {V : Type ℓ} where
  -- What `del` of `k` has done, by its result `r`.
  pub record Dels (h : Skmap V) (k : Bytes) (r : Skmap V × Option V) : Type ℓ where
    pub valid : IsValid r.0
    pub returns : r.1 ≡ view h k
    pub reads : (q : Bytes) → view r.0 q ≡ (if pfxeq k q h.cmap then none else view h q)
    pub counted : r.0.count + (if is_some r.1 then 1 else 0) ≡ h.count

  module _ (h : Skmap V) (v : IsValid h) (k : Bytes) where
    del_written :
        (kl : Bucklist V) (c : ℕ) (o : Option V)
        → get_or h.buck (home h k) none ≡ some kl
        → kl.cmap ≡ h.cmap
        → val_of (find_loop h.cmap k kl.nodes) ≡ o
        → c + (if is_some o then 1 else 0) ≡ h.count
        → length (remove_loop h.cmap k kl.nodes).0 + (if is_some o then 1 else 0) ≡ length kl.nodes
        → Dels h k
            (replaced h k (some (record kl { nodes = (remove_loop kl.cmap k kl.nodes).0 })) c, o)
    unfolding view
    del_written kl c o e fit f count size =
        let m = h.cmap in
        let once =
          λ (q : Bytes). subst (λ b. matches m q (nodes_of b) ≤ 1) e (v.unique q (home h k)) in
        record {
          valid =
              replaced-IsValid h v k _ c fit
                (λ q. rw (fit, e) (ground (arith, matches-remove-le m k q kl.nodes, once q)))
                (rw (fit, e) (omega arith));
          returns = rw (e, f);
          reads =
              replaced-view h v k _ c none
                (λ q. rw (fit, e, find-remove m k q kl.nodes (once q)) (ground arith));
          counted = count;
        }

    del_found :
        (kl : Bucklist V)
        → get_or h.buck (home h k) none ≡ some kl
        → kl.cmap ≡ h.cmap
        → Dels h k (del_in h k (home h k) (some kl))
    unfolding del_in Bucklist.remove
    del_found kl e fit =
        let gone = remove-find kl.cmap k kl.nodes in
        let found = λ (p : Option (Node V)) (g : (remove_loop kl.cmap k kl.nodes).1 ≡ p).
          subst (λ m. find_loop m k kl.nodes ≡ entry p) fit (sym gone ∙ ap entry g) in
        elim (Option-cases (remove_loop kl.cmap k kl.nodes).1) [
          | inl g ↦ rw g (
              del_written kl h.count none e fit (ap val_of (found none g)) (omega arith)
                (rw (remove_absent h.cmap k kl.nodes (found none g)) (omega arith)))
          | inr (n, g) ↦
              let shorter = length-remove h.cmap k kl.nodes (n.key, n.val) (found (some n) g) in
              let filled : length kl.nodes ≤ h.count = rw e at (length-nodes_at v k) in
              rw g (
                del_written kl (h.count - 1) (some n.val) e fit (ap val_of (found (some n) g))
                  (omega arith) (omega arith))
        ]

    del_empty : get_or h.buck (home h k) none ≡ none → Dels h k (h, none)
    unfolding view find_loop
    del_empty e = record {
      valid = v;
      returns = rw e;
      reads = λ q. elim (Bool-cases (pfxeq k q h.cmap)) [
        | inl p ↦ rw (p, ← home_congr h k q p, e)
        | inr p ↦ rw p
      ];
      counted = omega arith;
    }

    -- `del` of a key keeps the map well formed and returns the element that the key led to, if
    -- there was one. Then the key, in every spelling, leads nowhere, no other key is touched, and
    -- the count falls by one exactly when there was an element.
    pub del-Dels : Dels h k (del h k)
    unfolding del del_in
    del-Dels = go (get_or h.buck (home h k) none) refl
      where
        go :
            (b : Option (Bucklist V))
            → get_or h.buck (home h k) none ≡ b
            → Dels h k (del_in h k (home h k) b)
        go none e = del_empty e
        go (some kl) e = del_found kl e (subst (Fits h.cmap) e (v.fits (home h k)))

  pub cmap-del : (h : Skmap V) (k : Bytes) → (del h k).0.cmap ≡ h.cmap
  unfolding del del_in del_at
  cmap-del h k = go (get_or h.buck (home h k) none)
    where
      taken : (r : Bucklist V × Option (Bytes × V)) → (del_at h (home h k) r).0.cmap ≡ h.cmap
      taken (kl, none) = refl
      taken (kl, some (okey, e)) = refl

      go : (b : Option (Bucklist V)) → (del_in h k (home h k) b).0.cmap ≡ h.cmap
      go none = refl
      go (some kl) = taken (Bucklist.remove kl k)
