-- ===== src/Skmap/Put.antt =====
-- `put` changes the function that the map stands for at one key, or not at all where memory is
-- short.
use libsrsirc.Base.{
  ℕ, ◌+◌, ◌≤◌, ◌≡◌, refl, sym, subst, inl, inr, Bool, true, false, Option, none, some, ◌∷◌, Bytes,
  if◌then◌else◌, get_or, set-set, set-get_or, Bool-cases, Option-cases, is_some, not, ◌&&◌, ◌||◌,
  arith,
}
use libsrsirc.Key.{pfxeq}
use libsrsirc.Bucklist
use libsrsirc.Bucklist.{Node, Bucklist, entry, find_loop, replace_loop, remove_loop, insert_nodes}
use libsrsirc.Bucklist.Lookup.{
  matches, matches-eq-zero, matches_congr, matches-replace, length-replace, find-replace,
  insert_nodes-front,
}
use libsrsirc.Skmap.{put_new, undo, Skmap, Allocs, home, put, put_at, put_in}
use libsrsirc.Skmap.View.{nodes_of, nodes_at, Fits, IsValid, view, home-lt}
use libsrsirc.Skmap.Replace.{replaced, replaced-IsValid, replaced-view}

module _ {ℓ} {V : Type ℓ} where
  -- The key is there already, or there is memory for a list, if its bucket has none, for the copy
  -- of the key and for a node.
  unfoldable pub enough : Allocs → Skmap V → Bytes → Bool
  enough al h k =
      is_some (view h k)
      || ((al.list || is_some (get_or h.buck (home h k) none)) && (al.dup && is_some al.node))

  -- What `put` of `x` under `k` has done, by its result `r`.
  pub record Puts (al : Allocs) (h : Skmap V) (k : Bytes) (x : V) (r : Skmap V × Bool)
      : Type ℓ where
    pub valid : IsValid r.0
    pub returns : r.1 ≡ enough al h k
    pub reads : (q : Bytes) → view r.0 q ≡ (if r.1 && pfxeq k q h.cmap then some x else view h q)
    pub counted : r.0.count ≡ h.count + (if r.1 && not (is_some (view h k)) then 1 else 0)

  module _ (al : Allocs) (h : Skmap V) (v : IsValid h) (k : Bytes) (x : V) where
    put_found :
        (kl : Bucklist V) (s : Bytes) (o : V)
        → get_or h.buck (home h k) none ≡ some kl
        → kl.cmap ≡ h.cmap
        → find_loop kl.cmap k kl.nodes ≡ some (s, o)
        → Puts al h k x (
          replaced h k (some (record kl { nodes = (replace_loop kl.cmap k x kl.nodes).0 })) h.count,
          true,
        )
    unfolding enough view
    put_found kl s o e fit f =
        let m = h.cmap in
        let f' : find_loop m k kl.nodes ≡ some (s, o) =
          subst (λ n. find_loop n k kl.nodes ≡ some (s, o)) fit f in
        let here : view h k ≡ some o = rw (e, f') in
        record {
          valid =
              replaced-IsValid h v k _ h.count fit
                (λ q.
                  rw (fit, e)
                    (ground (
                      arith,
                      matches-replace m k q x kl.nodes,
                      subst (λ b. matches m q (nodes_of b) ≤ 1) e (v.unique q (home h k)),
                    )))
                (rw (fit, e, length-replace m k x kl.nodes));
          returns = rw here;
          reads =
              replaced-view h v k _ h.count (some x)
                (λ q. rw (fit, e) (find-replace m k q x kl.nodes (s, o) f'));
          counted = rw here (omega arith);
        }

    put_added :
        (l : Bucklist V) (a : ℕ)
        → find_loop h.cmap k (nodes_at h (home h k)) ≡ none
        → l.cmap ≡ h.cmap
        → l.nodes ≡ record { addr = a; key = k; val = x } ∷ nodes_at h (home h k)
        → enough al h k ≡ true
        → Puts al h k x (replaced h k (some l) (h.count + 1), true)
    unfolding view matches find_loop
    put_added l a f fit e yes_enough =
        let m = h.cmap in
        let ns = nodes_at h (home h k) in
        record {
          valid =
              replaced-IsValid h v k (some l) _ fit
                (λ q. rw e (ground (arith, matches-eq-zero m k ns f, matches_congr m k q ns)))
                (rw e (omega arith));
          returns = sym yes_enough;
          reads = replaced-view h v k (some l) _ (some x) (λ q. rw e (ground arith));
          counted = rw f (omega arith);
        }

    put_kept : enough al h k ≡ false → Puts al h k x (h, false)
    put_kept e = record { valid = v; returns = sym e; reads = λ q. refl; counted = omega arith }

    put_existing :
        (kl : Bucklist V)
        → get_or h.buck (home h k) none ≡ some kl
        → kl.cmap ≡ h.cmap
        → Puts al h k x (put_in al h k x (home h k) false kl)
    unfolding put_in enough view Bucklist.insert Bucklist.replace
    put_existing kl e fit = elim (Option-cases (find_loop kl.cmap k kl.nodes)) [
      | inr ((s, o), f) ↦ rw (f, put_in) (put_found kl s o e fit f)
      | inl f ↦
          let f' : find_loop h.cmap k (nodes_at h (home h k)) ≡ none = rw (e, ← fit) f in
          elim (Bool-cases al.dup) [
            | inr d ↦ rw (f, put_in) (simp d (put_kept (rw (f', e) (ground arith))))
            | inl d ↦ elim (Option-cases al.node) [
              | inl n ↦ rw (f, put_in) (simp (d, n) (put_kept (rw (f', e) (ground arith))))
              | inr (a, n) ↦
                  rw (f, put_in)
                    (simp (d, n)
                      (put_added _ a f' fit (rw (e, insert_nodes-front))
                        (rw (f', e) (ground arith))))
            ]
          ]
    ]

    put_empty :
        get_or h.buck (home h k) none ≡ none → Puts al h k x (put_at al h k x (home h k) none)
    unfolding put_in put_at enough view Bucklist.insert Bucklist.replace Bucklist.init find_loop
    put_empty e =
        let same = set-get_or h.buck (home h k) none none (home-lt v k) e in
        let f' : find_loop h.cmap k (nodes_at h (home h k)) ≡ none = rw e in
        elim (Bool-cases al.list) [
          | inr l ↦ simp (l, same) (put_kept (rw e (ground arith)))
          | inl l ↦ elim (Bool-cases al.dup) [
            | inr d ↦ simp (l, d, set-set, same) (put_kept (rw e (ground arith)))
            | inl d ↦ elim (Option-cases al.node) [
              | inl n ↦ simp (l, d, n, set-set, same) (put_kept (rw e (ground arith)))
              | inr (a, n) ↦
                  simp (l, d, n, set-set) (put_added _ a f' refl (rw e) (rw e (ground arith)))
            ]
          ]
        ]

    -- `put` of an element under a key keeps the map well formed. It says true exactly when there
    -- is enough memory for it; then the key, in every spelling, leads to the element, and no other
    -- key is touched; else every lookup gives what it gave. The count grows by one exactly
    -- when a new key was stored.
    pub put-Puts : Puts al h k x (put al h (some k) (some x))
    unfolding put
    put-Puts = go (get_or h.buck (home h k) none) refl
      where
        go :
            (b : Option (Bucklist V))
            → get_or h.buck (home h k) none ≡ b
            → Puts al h k x (put_at al h k x (home h k) b)
        go none e = put_empty e
        go (some kl) e = put_existing kl e (subst (Fits h.cmap) e (v.fits (home h k)))

  pub cmap-put :
      (al : Allocs) (h : Skmap V) (k : Bytes) (x : V) → (put al h (some k) (some x)).0.cmap ≡ h.cmap
  unfolding put put_at put_in put_new undo
  cmap-put al h k x = ground arith
