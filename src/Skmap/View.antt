-- ===== src/Skmap/View.antt =====
-- A map as a function from keys to values, and what a well-formed map is.
use libsrsirc.Base.{
  ℕ, zero, suc, ◌+◌, ◌≤◌, ◌<◌, ◌≡◌, ◌≢◌, refl, sym, true, Option, none, some, List, [], ◌∷◌, Bytes,
  length, get_or, set, replicate, length-replicate, get_or-replicate, arith,
}
use libsrsirc.Cmap.{Casemap}
use libsrsirc.Key.{pfxeq}
use libsrsirc.Key.Laws.{strhash-pfxeq}
use libsrsirc.Bucklist.{Node, Bucklist, find_loop}
use libsrsirc.Bucklist.Lookup.{val_of, matches}
use libsrsirc.Skmap.{Skmap, HashFn, small, mid, run_hash, home, fresh, get, get_at}

run_hash-pfxeq :
    (f : HashFn) (m : Casemap) (a b : Bytes) → pfxeq a b m ≡ true → run_hash f a m ≡ run_hash f b m
unfolding run_hash
run_hash-pfxeq small m a b h = (strhash-pfxeq m a b h).0
run_hash-pfxeq mid m a b h = (strhash-pfxeq m a b h).1

module _ {ℓ} {V : Type ℓ} where
  abbrev pub nodes_of : Option (Bucklist V) → List (Node V)
  nodes_of none = []
  nodes_of (some l) = l.nodes

  -- A list compares keys by the map's character map.
  abbrev pub Fits : Casemap → Option (Bucklist V) → Type 0
  Fits m none = Unit
  Fits m (some l) = l.cmap ≡ m

  unfoldable pub total : List (Option (Bucklist V)) → ℕ
  total [] = 0
  total (b ∷ bs) = length (nodes_of b) + total bs

  abbrev pub nodes_at : Skmap V → ℕ → List (Node V)
  nodes_at h i = nodes_of (get_or h.buck i none)

  -- Every bucket has the map's character map; a key stands at most once, and only in its own
  -- bucket; `count` is the number of nodes.
  pub record IsValid (h : Skmap V) : Type ℓ where
    pub some_bucket : 0 < h.bsz
    pub width : length h.buck ≡ h.bsz
    pub fits : (i : ℕ) → Fits h.cmap (get_or h.buck i none)
    pub unique : (q : Bytes) (i : ℕ) → matches h.cmap q (nodes_at h i) ≤ 1
    pub placed : (q : Bytes) (i : ℕ) → home h q ≢ i → matches h.cmap q (nodes_at h i) ≡ 0
    pub counted : h.count ≡ total h.buck

  -- The function that a map stands for.
  unfoldable pub view : Skmap V → Bytes → Option V
  view h q = val_of (find_loop h.cmap q (nodes_at h (home h q)))

  pub total-set :
      (bs : List (Option (Bucklist V))) (i : ℕ) (b : Option (Bucklist V))
      → i < length bs
      → total (set bs i b) + length (nodes_of (get_or bs i none)) ≡ total bs + length (nodes_of b)
  unfolding total
  total-set [] i b h = absurd (omega arith)
  total-set (x ∷ bs) zero b h = omega arith
  total-set (x ∷ bs) (suc i) b h = omega (arith, total-set bs i b (omega arith))

  total-replicate :
      (b : Option (Bucklist V)) (n : ℕ) → length (nodes_of b) ≡ 0 → total (replicate n b) ≡ 0
  unfolding total
  total-replicate b zero h = refl
  total-replicate b (suc n) h = omega (arith, total-replicate b n h)

  pub home-lt : {h : Skmap V} → IsValid h → (k : Bytes) → home h k < length h.buck
  unfolding home
  home-lt v k = omega (arith, v.some_bucket, v.width)

  pub length-nodes_at :
      {h : Skmap V} → IsValid h → (k : Bytes) → length (nodes_at h (home h k)) ≤ h.count
  length-nodes_at {h} v k = omega (arith, total-set h.buck (home h k) none (home-lt v k), v.counted)

  pub home_congr : (h : Skmap V) (a b : Bytes) → pfxeq a b h.cmap ≡ true → home h a ≡ home h b
  unfolding home
  home_congr h a b e = rw (run_hash-pfxeq h.hfn h.cmap a b e)

  -- A map of at least one bucket is well formed when it is new, and every lookup in it fails.
  pub fresh-IsValid :
      (bsz : ℕ) (m : Casemap) (left : ℕ)
      → 0 < bsz
      → (let h : Skmap V = fresh bsz m left in IsValid h × ((q : Bytes) → get h q ≡ none))
  unfolding fresh get matches get_at
  fresh-IsValid bsz m left pos = (
    record {
      some_bucket = pos;
      width = length-replicate bsz none;
      fits = λ i. rw get_or-replicate tt;
      unique = λ q i. rw get_or-replicate (omega arith);
      placed = λ q i ne. rw get_or-replicate;
      counted = sym (total-replicate none bsz refl);
    },
    λ q. rw get_or-replicate,
  )

  -- `get` reads the function that the map stands for.
  pub get-view : (h : Skmap V) (q : Bytes) → IsValid h → get h q ≡ view h q
  unfolding get view get_at
  get-view h q v = go (get_or h.buck (home h q) none) (v.fits (home h q))
    where
      go :
          (b : Option (Bucklist V))
          → Fits h.cmap b
          → get_at q b ≡ val_of (find_loop h.cmap q (nodes_of b))
      go none f = refl
      go (some l) f = rw f (ground arith)
