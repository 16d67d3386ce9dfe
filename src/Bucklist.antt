-- ===== src/Bucklist.antt =====
-- libsrsirc/bucklist.c: the singly linked list of one bucket. A node is an allocated block with an
-- address; the list in memory is the list of its nodes, so `n->next` through a pointer to a node
-- is what follows the node of that address, and a fault where the node has been freed. Values are
-- pointers that the map never stores as NULL. `MALLOC` is an argument: the address of the new
-- block, or `none` where it fails. `free` of what is unlinked and the debug dump are left out.
pub mod Lookup
pub mod Cursor
pub mod Steps
pub mod Kept
use libsrsirc.Base.{
  ℕ, zero, suc, ◌+◌, Bool, true, false, Option, none, some, List, [], ◌∷◌, ◌++◌, Bytes, ◌==◌,
  if◌then◌else◌,
}
use libsrsirc.Base.Mem.{Mem, ok, fault, ◌>>=◌}
use libsrsirc.Cmap.{Casemap}
use libsrsirc.Key.{pfxeq}

-- `struct pl_node`; its `next` is the rest of the list that it stands in.
pub record Node {ℓ} (V : Type ℓ) : Type ℓ where
  pub addr : ℕ
  pub key : Bytes
  pub val : V

-- `struct bucklist`: `head` and the nodes behind it, and the two cursors as addresses.
pub record Bucklist {ℓ} (V : Type ℓ) : Type ℓ where
  pub nodes : List (Node V)
  pub iter : Option ℕ
  pub previter : Option ℕ
  pub cmap : Casemap

-- `previter` is not set: it holds what `MALLOC` left there.
unfoldable pub init {ℓ} : {V : Type ℓ} → Casemap → Option ℕ → Bucklist V
init m left = record { nodes = []; iter = none; previter = left; cmap = m }

module _ {ℓ} {V : Type ℓ} where
  pub count_loop : List (Node V) → ℕ → ℕ
  count_loop [] c = c
  count_loop (n ∷ ns) c = count_loop ns (c + 1)

  count_nodes : List (Node V) → ℕ
  count_nodes [] = 0
  count_nodes (n ∷ ns) = count_loop ns 1

  pub count : Bucklist V → ℕ
  unfolding count_nodes count_loop
  count l = count_nodes l.nodes

  pub isempty_nodes : List (Node V) → Bool
  isempty_nodes [] = true
  isempty_nodes (n ∷ ns) = false

  unfoldable pub isempty : Bucklist V → Bool
  unfolding isempty_nodes
  isempty l = isempty_nodes l.nodes

  pub clear : Bucklist V → Bucklist V
  clear l = record l { nodes = [] }

  -- The walk of `insert` with `n` before it and `i` steps left, then the new node's place.
  insert_loop : ℕ → Node V → Node V → List (Node V) → List (Node V)
  insert_loop zero new n [] = new ∷ n ∷ []
  insert_loop (suc i) new n [] = n ∷ new ∷ []
  insert_loop zero new n (r ∷ rs) = new ∷ n ∷ r ∷ rs
  insert_loop (suc i) new n (r ∷ rs) = n ∷ insert_loop i new r rs

  pub insert_nodes : ℕ → Node V → List (Node V) → List (Node V)
  insert_nodes i new [] = new ∷ []
  insert_nodes i new (n ∷ ns) = insert_loop i new n ns

  unfoldable pub insert : Bucklist V → ℕ → Bytes → V → Option ℕ → Bucklist V × Bool
  unfolding insert_nodes insert_loop
  insert l i key val none = (l, false)
  insert l i key val (some addr) = (
    record l { nodes = insert_nodes i (record { addr = addr; key = key; val = val }) l.nodes },
    true,
  )

  -- The nodes after the loop of `replace`, and whether it found the key.
  pub replace_loop : Casemap → Bytes → V → List (Node V) → List (Node V) × Bool
  replace_loop m key val [] = ([], false)
  replace_loop m key val (n ∷ ns) =
      let (rest, done) = replace_loop m key val ns in
      if pfxeq n.key key m then (record n { val = val } ∷ ns, true) else (n ∷ rest, done)

  unfoldable pub replace : Bucklist V → Bytes → Option V → Bucklist V × Bool
  unfolding replace_loop
  replace l key none = (l, false)
  replace l key (some val) =
      let (ns, done) = replace_loop l.cmap key val l.nodes in (record l { nodes = ns }, done)

  -- The nodes after the loop of `remove`, and the node that it unlinked.
  pub remove_loop : Casemap → Bytes → List (Node V) → List (Node V) × Option (Node V)
  remove_loop m key [] = ([], none)
  remove_loop m key (n ∷ ns) =
      let (rest, gone) = remove_loop m key ns in
      if pfxeq n.key key m then (ns, some n) else (n ∷ rest, gone)

  abbrev pub entry : Option (Node V) → Option (Bytes × V)
  entry none = none
  entry (some n) = some (n.key, n.val)

  -- The original key and the value of what was removed.
  unfoldable pub remove : Bucklist V → Bytes → Bucklist V × Option (Bytes × V)
  unfolding remove_loop
  remove l key =
      let (ns, gone) = remove_loop l.cmap key l.nodes in (record l { nodes = ns }, entry gone)

  -- The walk of `get` with `n` before it and `i` steps left.
  get_loop : ℕ → Node V → List (Node V) → Option (Bytes × V)
  get_loop zero n ns = some (n.key, n.val)
  get_loop (suc i) n [] = none
  get_loop (suc i) n (r ∷ rs) = get_loop i r rs

  get_nodes : List (Node V) → ℕ → Option (Bytes × V)
  get_nodes [] i = none
  get_nodes (n ∷ ns) i = get_loop i n ns

  unfoldable pub get : Bucklist V → ℕ → Option (Bytes × V)
  unfolding get_nodes get_loop
  get l i = get_nodes l.nodes i

  unfoldable pub find_loop : Casemap → Bytes → List (Node V) → Option (Bytes × V)
  find_loop m key [] = none
  find_loop m key (n ∷ ns) = if pfxeq n.key key m then some (n.key, n.val) else find_loop m key ns

  -- The value under the key, with the key as it was stored.
  unfoldable pub find : Bucklist V → Bytes → Option (Bytes × V)
  unfolding find_loop
  find l key = find_loop l.cmap key l.nodes

  -- The nodes behind the node at an address: a dangling pointer has none to give.
  pub after : ℕ → List (Node V) → Mem (List (Node V))
  after a [] = fault
  after a (n ∷ ns) = if n.addr == a then ok ns else after a ns

  -- The nodes up to the node at an address.
  pub through : ℕ → List (Node V) → Mem (List (Node V))
  through a [] = fault
  through a (n ∷ ns) = if n.addr == a then ok (n ∷ []) else through a ns >>= (λ rest. ok (n ∷ rest))

  first_nodes : Bucklist V → List (Node V) → Bucklist V × Option (Bytes × V)
  first_nodes l [] = (l, none)
  first_nodes l (n ∷ ns) = (record l { iter = some n.addr; previter = none }, some (n.key, n.val))

  -- `none` is the result `false`.
  unfoldable pub first : Bucklist V → Bucklist V × Option (Bytes × V)
  unfolding first_nodes
  first l = first_nodes l l.nodes

  step_to : Bucklist V → List (Node V) → Bucklist V × Option (Bytes × V)
  step_to l [] = (l, none)
  step_to l (n ∷ ns) = (record l { iter = some n.addr; previter = l.iter }, some (n.key, n.val))

  next_from : Bucklist V → Option ℕ → Mem (Bucklist V × Option (Bytes × V))
  next_from l none = ok (l, none)
  next_from l (some a) = after a l.nodes >>= (λ rest. ok (step_to l rest))

  unfoldable pub next : Bucklist V → Mem (Bucklist V × Option (Bytes × V))
  unfolding next_from step_to after
  next l = next_from l l.iter

  del_from : Bucklist V → Option ℕ → Option ℕ → Mem (Bucklist V)
  del_from l none previter = fault
  del_from l (some a) none =
      after a l.nodes >>= (λ rest. ok (record l { nodes = rest; iter = none }))
  del_from l (some a) (some p) = do
    rest ← after a l.nodes
    kept ← through p l.nodes
    ok (record l { nodes = kept ++ rest; iter = some p })

  unfoldable pub del_iter : Bucklist V → Mem (Bucklist V)
  unfolding del_from after through
  del_iter l = del_from l l.iter l.previter
