-- ===== src/Bucklist/Cursor.antt =====
-- The cursor of a bucket.
use libsrsirc.Base.{◌≡◌, none, List, ◌∷◌, arith}
use libsrsirc.Base.Mem.{ok, ◌>>=◌}
use libsrsirc.Bucklist.{Node, Bucklist, first, next, del_iter}

module _ {ℓ} {V : Type ℓ} where
  -- The walk of a bucket ends when its first entry is deleted through the cursor: the next step
  -- gives no entry, however many are left, and leaves the cursor at NULL.
  pub next-del_iter-first :
      (l : Bucklist V) (n : Node V) (ns : List (Node V))
      → l.nodes ≡ n ∷ ns
      → (del_iter (first l).0 >>= next)
        ≡ ok (record { nodes = ns; iter = none; previter = none; cmap = l.cmap }, none)
  unfolding del_iter first next
  next-del_iter-first l n ns e = ground arith
