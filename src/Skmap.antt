-- ===== src/Skmap.antt =====
-- libsrsirc/skmap.c: the hash map with string keys that holds the channels, the users and the
-- members of a channel. `h`, the map, is not NULL; the key and the element may be. Each `MALLOC`
-- and `STRDUP` of an operation is a field of `Allocs`. `size_t` counts entries that are in memory,
-- so `count` does not wrap. `free` and the two debug dumps are left out.
pub mod View
pub mod Walk
pub mod Cursors
pub mod Entries
pub mod Replace
pub mod Put
pub mod Del
use libsrsirc.Base.{
  ℕ, zero, suc, ◌+◌, ◌-◌, ◌%◌, Bool, true, false, Option, none, some, List, [], ◌∷◌, Bytes, ◌==◌,
  if◌then◌else◌, leb, ltb, length, get_or, set, drop, replicate,
}
use libsrsirc.Base.Mem.{Mem, ok, fault, ◌>>=◌}
use libsrsirc.Cmap.{Casemap}
use libsrsirc.Key.{strhash_small, strhash_mid}
use libsrsirc.Bucklist
use libsrsirc.Bucklist.{Bucklist}

pub data HashFn : Type 0 where
  small : HashFn
  mid : HashFn

unfoldable pub run_hash : HashFn → Bytes → Casemap → ℕ
run_hash small s m = strhash_small s m
run_hash mid s m = strhash_mid s m

-- `struct skmap`. A bucket is NULL or a list.
pub record Skmap {ℓ} (V : Type ℓ) : Type ℓ where
  pub buck : List (Option (Bucklist V))
  pub bsz : ℕ
  pub count : ℕ
  pub iterating : Bool
  pub bit : ℕ
  pub hfn : HashFn
  pub cmap : Casemap

-- What the allocations of one `put` give: the list, with the garbage in its `previter`, the copy
-- of the key, and the node's address.
pub record Allocs : Type 0 where
  pub list : Bool
  pub left : Option ℕ
  pub dup : Bool
  pub node : Option ℕ

-- `bit` is not set: it holds what `MALLOC` left there.
unfoldable pub fresh {ℓ} : {V : Type ℓ} → ℕ → Casemap → ℕ → Skmap V
fresh bsz m left = record {
  buck = replicate bsz none;
  bsz = bsz;
  count = 0;
  iterating = false;
  bit = left;
  hfn = if leb bsz 256 then small else mid;
  cmap = m;
}

-- The flags say whether the two allocations succeed.
pub init {ℓ} : {V : Type ℓ} → ℕ → Casemap → ℕ → Bool → Bool → Option (Skmap V)
unfolding fresh
init bsz m left false buckets = none
init bsz m left true false = none
init bsz m left true true = some (fresh bsz m left)

module _ {ℓ} {V : Type ℓ} where
  -- The index of the bucket that a key belongs to.
  unfoldable pub home : Skmap V → Bytes → ℕ
  home h key = run_hash h.hfn key h.cmap % h.bsz

  -- The loop of `clear` over the buckets.
  clear_loop : List (Option (Bucklist V)) → List (Option (Bucklist V))
  clear_loop [] = []
  clear_loop (b ∷ bs) = none ∷ clear_loop bs

  pub clear : Skmap V → Skmap V
  unfolding clear_loop
  clear h = record h { buck = clear_loop h.buck; count = 0 }

  -- The `fail` label: a list that this call made is disposed of.
  undo : Skmap V → ℕ → Bool → Skmap V × Bool
  undo h ind allocated = (if allocated then record h { buck = set h.buck ind none } else h, false)

  put_new : Skmap V → Bytes → V → ℕ → Bool → Bucklist V × Bool → Skmap V × Bool
  unfolding undo
  put_new h key elem ind allocated (kl, true) =
      (record h { buck = set h.buck ind (some kl); count = h.count + 1 }, true)
  put_new h key elem ind allocated (kl, false) = undo h ind allocated

  -- The part of `put` that has the list `kl` in the bucket `ind` already.
  put_in : Allocs → Skmap V → Bytes → V → ℕ → Bool → Bucklist V → Skmap V × Bool
  unfolding put_new undo Bucklist.find Bucklist.insert Bucklist.replace
  put_in al h key elem ind allocated kl = elim (Bucklist.find kl key) [
    | none ↦
        if al.dup
        then put_new h key elem ind allocated (Bucklist.insert kl 0 key elem al.node)
        else undo h ind allocated
    | some old ↦
        (record h { buck = set h.buck ind (some (Bucklist.replace kl key (some elem)).0) }, true)
  ]

  put_at : Allocs → Skmap V → Bytes → V → ℕ → Option (Bucklist V) → Skmap V × Bool
  unfolding put_in
  put_at al h key elem ind none =
      if al.list
      then (let kl = Bucklist.init h.cmap al.left in
          put_in al (record h { buck = set h.buck ind (some kl) }) key elem ind true kl)
      else undo h ind true
  put_at al h key elem ind (some kl) = put_in al h key elem ind false kl

  unfoldable pub put : Allocs → Skmap V → Option Bytes → Option V → Skmap V × Bool
  unfolding put_at
  put al h none elem = (h, false)
  put al h (some key) none = (h, false)
  put al h (some key) (some elem) =
      let ind = home h key in put_at al h key elem ind (get_or h.buck ind none)

  get_at : Bytes → Option (Bucklist V) → Option V
  unfolding Bucklist.find
  get_at key none = none
  get_at key (some kl) = elim (Bucklist.find kl key) [ none ↦ none | some (k, v) ↦ some v ]

  pub get : Skmap V → Bytes → Option V
  unfolding get_at
  get h key = get_at key (get_or h.buck (home h key) none)

  del_at : Skmap V → ℕ → Bucklist V × Option (Bytes × V) → Skmap V × Option V
  del_at h ind (kl, none) = (record h { buck = set h.buck ind (some kl) }, none)
  del_at h ind (kl, some (okey, e)) =
      (record h { buck = set h.buck ind (some kl); count = h.count - 1 }, some e)

  del_in : Skmap V → Bytes → ℕ → Option (Bucklist V) → Skmap V × Option V
  unfolding del_at Bucklist.remove
  del_in h key ind none = (h, none)
  del_in h key ind (some kl) = del_at h ind (Bucklist.remove kl key)

  pub del : Skmap V → Bytes → Skmap V × Option V
  unfolding del_in
  del h key = let ind = home h key in del_in h key ind (get_or h.buck ind none)

  is_used : Option (Bucklist V) → Bool
  is_used none = false
  is_used (some l) = if Bucklist.isempty l then false else true

  -- The walk over buckets that are NULL or empty, from the bucket `bit` on.
  skip : List (Option (Bucklist V)) → ℕ → ℕ
  skip [] bit = bit
  skip (b ∷ bs) bit = let rest = skip bs (bit + 1) in if is_used b then bit else rest

  -- The end of `first` and of `next`: the first entry of the bucket `bit`, if there is one.
  enter_at : Skmap V → ℕ → Option (Bucklist V) → Mem (Skmap V × Option (Bytes × V))
  enter_at h bit none = fault
  enter_at h bit (some l) =
      let (l', e) = Bucklist.first l in
      ok (record h { buck = set h.buck bit (some l'); bit = bit; iterating = true }, e)

  enter : Skmap V → ℕ → Mem (Skmap V × Option (Bytes × V))
  unfolding enter_at
  enter h bit =
      if bit == h.bsz
      then ok (record h { bit = bit; iterating = false }, none)
      else enter_at h bit (get_or h.buck bit none)

  unfoldable pub first : Skmap V → Mem (Skmap V × Option (Bytes × V))
  unfolding skip is_used enter Bucklist.isempty Bucklist.first
  first h = enter h (skip h.buck 0)

  next_in : Skmap V → Bucklist V × Option (Bytes × V) → Mem (Skmap V × Option (Bytes × V))
  unfolding enter skip is_used
  next_in h (l, some e) = ok (record h { buck = set h.buck h.bit (some l) }, some e)
  next_in h (l, none) =
      let h' = record h { buck = set h.buck h.bit (some l) } in
      enter h' (skip (drop (h.bit + 1) h'.buck) (h.bit + 1))

  next_at : Skmap V → Option (Bucklist V) → Mem (Skmap V × Option (Bytes × V))
  unfolding next_in
  next_at h none = fault
  next_at h (some l) = Bucklist.next l >>= next_in h

  unfoldable pub next : Skmap V → Mem (Skmap V × Option (Bytes × V))
  unfolding next_at Bucklist.isempty Bucklist.first Bucklist.next
  next h = if h.iterating then next_at h (get_or h.buck h.bit none) else ok (h, none)

  del_iter_at : Skmap V → Option (Bucklist V) → Mem (Skmap V)
  del_iter_at h none = fault
  del_iter_at h (some l) =
      Bucklist.del_iter l >>= (λ l'. ok (record h { buck = set h.buck h.bit (some l') }))

  unfoldable pub del_iter : Skmap V → Mem (Skmap V)
  unfolding del_iter_at Bucklist.del_iter
  del_iter h = if h.iterating then del_iter_at h (get_or h.buck h.bit none) else ok h
