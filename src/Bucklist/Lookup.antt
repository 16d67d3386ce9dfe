-- ===== src/Bucklist/Lookup.antt =====
-- Lookups in a bucket after an insertion, a replacement and a removal.
use libsrsirc.Base.{
  ℕ, zero, suc, ◌+◌, ◌≤◌, ◌≡◌, refl, ap, true, false, Option, none, some, List, [], ◌∷◌, ◌++◌,
  Bytes, length, take, drop, if◌then◌else◌, arith,
}
use libsrsirc.Cmap.{Casemap}
use libsrsirc.Key.{pfxeq}
use libsrsirc.Key.Laws.{pfxeq_congr_right, pfxeq_symm}
use libsrsirc.Bucklist.{
  Node, Bucklist, count_loop, count_nodes, count, insert_loop, insert_nodes, insert, replace_loop,
  remove_loop, entry, find_loop,
}

module _ {ℓ} {V : Type ℓ} where
  -- The value of what a lookup found.
  abbrev pub val_of : Option (Bytes × V) → Option V
  val_of none = none
  val_of (some (k, v)) = some v

  -- How many nodes answer to a key.
  unfoldable pub matches : Casemap → Bytes → List (Node V) → ℕ
  matches m q [] = 0
  matches m q (n ∷ ns) = (if pfxeq n.key q m then 1 else 0) + matches m q ns

  pub count_loop-length : (ns : List (Node V)) (c : ℕ) → count_loop ns c ≡ c + length ns
  unfolding count_loop
  count_loop-length [] c = omega arith
  count_loop-length (n ∷ ns) c = omega (arith, count_loop-length ns (c + 1))

  pub count-length : (l : Bucklist V) → count l ≡ length l.nodes
  unfolding count
  count-length l = go l.nodes
    where
      go : (ns : List (Node V)) → count_nodes ns ≡ length ns
      go [] = refl
      go (n ∷ ns) = omega (arith, count_loop-length ns 1)

  insert_loop-take-drop :
      (i : ℕ) (new n : Node V) (ns : List (Node V))
      → insert_loop i new n ns ≡ take i (n ∷ ns) ++ (new ∷ drop i (n ∷ ns))
  unfolding insert_loop
  insert_loop-take-drop zero new n [] = refl
  insert_loop-take-drop zero new n (r ∷ rs) = refl
  insert_loop-take-drop (suc zero) new n [] = refl
  insert_loop-take-drop (suc (suc i)) new n [] = refl
  insert_loop-take-drop (suc i) new n (r ∷ rs) = ap (λ t. n ∷ t) (insert_loop-take-drop i new r rs)

  insert_nodes-take-drop :
      (i : ℕ) (new : Node V) (ns : List (Node V))
      → insert_nodes i new ns ≡ take i ns ++ (new ∷ drop i ns)
  unfolding insert_nodes
  insert_nodes-take-drop zero new [] = refl
  insert_nodes-take-drop (suc i) new [] = refl
  insert_nodes-take-drop i new (n ∷ ns) = insert_loop-take-drop i new n ns

  -- `insert` puts the new node at index `i`, or at the end where the list is shorter, and fails
  -- without a change exactly when there is no memory.
  pub insert-take-drop :
      (l : Bucklist V) (i : ℕ) (key : Bytes) (val : V) (a : ℕ)
      → ((insert l i key val (some a)).0.nodes
          ≡ take i l.nodes ++ (record { addr = a; key = key; val = val } ∷ drop i l.nodes))
        × ((insert l i key val (some a)).1 ≡ true)
        × (insert l i key val none ≡ (l, false))
  unfolding insert
  insert-take-drop l i key val a = (insert_nodes-take-drop i _ l.nodes, refl, refl)

  pub insert_nodes-front : (new : Node V) (ns : List (Node V)) → insert_nodes zero new ns ≡ new ∷ ns
  insert_nodes-front new ns = insert_nodes-take-drop zero new ns

  module _ (m : Casemap) where
    pub find-eq-none :
        (q : Bytes) (ns : List (Node V)) → matches m q ns ≡ 0 → find_loop m q ns ≡ none
    unfolding matches find_loop
    find-eq-none q [] h = refl
    find-eq-none q (n ∷ ns) h = ground (arith, find-eq-none q ns)

    pub matches-eq-zero :
        (q : Bytes) (ns : List (Node V)) → find_loop m q ns ≡ none → matches m q ns ≡ 0
    unfolding matches find_loop
    matches-eq-zero q [] h = refl
    matches-eq-zero q (n ∷ ns) h = ground (arith, matches-eq-zero q ns)

    pub matches_congr :
        (k q : Bytes) (ns : List (Node V)) → pfxeq k q m ≡ true → matches m k ns ≡ matches m q ns
    unfolding matches
    matches_congr k q [] h = refl
    matches_congr k q (n ∷ ns) h =
        ground (arith, matches_congr k q ns h, pfxeq_congr_right m n.key k q h)

    pub find_congr :
        (k q : Bytes) (ns : List (Node V))
        → pfxeq k q m ≡ true
        → find_loop m k ns ≡ find_loop m q ns
    unfolding find_loop
    find_congr k q [] h = refl
    find_congr k q (n ∷ ns) h = ground (arith, find_congr k q ns h, pfxeq_congr_right m n.key k q h)

    pub matches-replace :
        (k q : Bytes) (v : V) (ns : List (Node V))
        → matches m q (replace_loop m k v ns).0 ≡ matches m q ns
    unfolding matches replace_loop
    matches-replace k q v [] = refl
    matches-replace k q v (n ∷ ns) = ground (arith, matches-replace k q v ns)

    pub length-replace :
        (k : Bytes) (v : V) (ns : List (Node V)) → length (replace_loop m k v ns).0 ≡ length ns
    unfolding replace_loop
    length-replace k v [] = refl
    length-replace k v (n ∷ ns) = ground (arith, length-replace k v ns)

    pub find-replace :
        (k q : Bytes) (v : V) (ns : List (Node V)) (old : Bytes × V)
        → find_loop m k ns ≡ some old
        → val_of (find_loop m q (replace_loop m k v ns).0)
          ≡ (if pfxeq k q m then some v else val_of (find_loop m q ns))
    unfolding find_loop replace_loop
    find-replace k q v [] old h = cc
    find-replace k q v (n ∷ ns) old h = ground (
      arith,
      find-replace k q v ns old,
      pfxeq_congr_right m n.key k q,
      pfxeq_congr_right m k n.key q,
      pfxeq_symm m k n.key,
      pfxeq_congr_right m q n.key k,
      pfxeq_symm m q n.key,
      pfxeq_symm m q k,
    )

    pub find-remove :
        (k q : Bytes) (ns : List (Node V))
        → matches m q ns ≤ 1
        → find_loop m q (remove_loop m k ns).0 ≡ (if pfxeq k q m then none else find_loop m q ns)
    unfolding find_loop remove_loop matches
    find-remove k q [] h = ground arith
    find-remove k q (n ∷ ns) h = ground (
      arith,
      find-remove k q ns,
      find-eq-none q ns,
      pfxeq_congr_right m n.key k q,
      pfxeq_congr_right m q n.key k,
      pfxeq_symm m q n.key,
      pfxeq_symm m q k,
    )

    pub matches-remove-le :
        (k q : Bytes) (ns : List (Node V)) → matches m q (remove_loop m k ns).0 ≤ matches m q ns
    unfolding remove_loop matches
    matches-remove-le k q [] = omega arith
    matches-remove-le k q (n ∷ ns) = ground (arith, matches-remove-le k q ns)

    -- What `remove` unlinks is what `find` finds, and nothing where it finds nothing.
    pub remove-find :
        (k : Bytes) (ns : List (Node V)) → entry (remove_loop m k ns).1 ≡ find_loop m k ns
    unfolding remove_loop find_loop
    remove-find k [] = refl
    remove-find k (n ∷ ns) = ground (arith, remove-find k ns)

    pub length-remove :
        (k : Bytes) (ns : List (Node V)) (old : Bytes × V)
        → find_loop m k ns ≡ some old
        → length (remove_loop m k ns).0 + 1 ≡ length ns
    unfolding remove_loop find_loop
    length-remove k [] old h = cc
    length-remove k (n ∷ ns) old h = ground (arith, length-remove k ns old)

    pub remove_absent :
        (k : Bytes) (ns : List (Node V)) → find_loop m k ns ≡ none → (remove_loop m k ns).0 ≡ ns
    unfolding remove_loop find_loop
    remove_absent k [] h = refl
    remove_absent k (n ∷ ns) h = ground (arith, remove_absent k ns)
