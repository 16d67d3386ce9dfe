-- ===== src/Skmap/Walk.antt =====
-- The iteration of a map by `first` and `next`.
use libsrsirc.Base.{
  ℕ, zero, suc, ◌+◌, ◌<◌, ◌≡◌, refl, sym, ap, subst, ◌∙◌, Bool, true, false, Option, none, some,
  List, [], ◌∷◌, ◌++◌, map, All, Bytes, ◌==◌, if◌then◌else◌, length, drop, get_or, set,
  get_or-set_self, length-set, ==_refl, arith,
}
use libsrsirc.Base.Mem.{Mem, ok, ◌>>=◌}
use libsrsirc.Bucklist
use libsrsirc.Bucklist.{Node, Bucklist, after}
use libsrsirc.Bucklist.Steps.{Distinct, after-head, after-next, next-end, next-step, first-some}
use libsrsirc.Skmap.{Skmap, is_used, skip, enter, enter_at, first, next, next_at, next_in}
use libsrsirc.Skmap.View.{nodes_of, IsValid}

if-true {ℓ} : {A : Type ℓ} → (b : Bool) (m n : A) → b ≡ true → (if b then m else n) ≡ m
if-true true m n e = refl
if-true false m n e = absurd (cc e)

if-false {ℓ} : {A : Type ℓ} → (b : Bool) (m n : A) → b ≡ false → (if b then m else n) ≡ n
if-false true m n e = absurd (cc e)
if-false false m n e = refl

module _ {ℓ} {V : Type ℓ} where
  -- A walk from the result of `first` or `next` on, to its end.
  pub data Walk : Mem (Skmap V × Option (Bytes × V)) → List (Bytes × V) → Type ℓ where
    over : (h : Skmap V) → Walk (ok (h, none)) []
    more :
        (h : Skmap V) (e : Bytes × V) (es : List (Bytes × V))
        → Walk (next h) es
        → Walk (ok (h, some e)) (e ∷ es)

  abbrev pub pair_of : Node V → Bytes × V
  pair_of n = (n.key, n.val)

  -- The entries of the buckets, in their order.
  unfoldable pub entries : List (Option (Bucklist V)) → List (Bytes × V)
  entries [] = []
  entries (b ∷ bs) = map pair_of (nodes_of b) ++ entries bs

  drop-get_or :
      (xs : List (Option (Bucklist V))) (k : ℕ) (b : Option (Bucklist V))
      (bs : List (Option (Bucklist V)))
      → drop k xs ≡ b ∷ bs
      → (get_or xs k none ≡ b) × (drop (suc k) xs ≡ bs) × (k < length xs)
  drop-get_or [] zero b bs e = absurd (cc e)
  drop-get_or [] (suc k) b bs e = absurd (cc e)
  drop-get_or (x ∷ xs) zero b bs e = (cc, cc, omega arith)
  drop-get_or (x ∷ xs) (suc k) b bs e =
      let (f, g, lt) = drop-get_or xs k b bs e in (f, g, omega arith)

  drop-set :
      (xs : List (Option (Bucklist V))) (k : ℕ) (b : Option (Bucklist V))
      → drop (suc k) (set xs k b) ≡ drop (suc k) xs
  drop-set [] k b = refl
  drop-set (x ∷ xs) zero b = refl
  drop-set (x ∷ xs) (suc k) b = drop-set xs k b

  -- A step within the bucket `l`.
  next-in :
      (h : Skmap V) (k : ℕ) (l : Bucklist V) (r : Bucklist V × Option (Bytes × V))
      → h.iterating ≡ true
      → h.bit ≡ k
      → get_or h.buck k none ≡ some l
      → Bucklist.next l ≡ ok r
      → next h ≡ next_in h r
  unfolding next next_at
  next-in h k l r it at here step =
      if-true h.iterating _ _ it
      ∙ ap (next_at h) (ap (λ i. get_or h.buck i none) at ∙ here)
      ∙ ap (λ m. m >>= next_in h) step

  module _ (es : List (Bytes × V)) (bs : List (Option (Bucklist V))) (k : ℕ) where
    -- From the bucket behind `k` on, the walk gives `es`.
    abbrev Resumes : Skmap V → Type ℓ
    Resumes h =
        (h' : Skmap V)
        → h'.bsz ≡ h.bsz
        → length h'.buck ≡ length h.buck
        → drop (suc k) h'.buck ≡ bs
        → Walk (enter h' (skip bs (suc k))) es

    -- The rest of a bucket, and then what is behind it.
    bucket-Walk :
        (rest : List (Node V)) (h : Skmap V) (l : Bucklist V) (a : ℕ)
        → h.iterating ≡ true
        → h.bit ≡ k
        → get_or h.buck k none ≡ some l
        → k < length h.buck
        → drop (suc k) h.buck ≡ bs
        → l.iter ≡ some a
        → after a l.nodes ≡ ok rest
        → Distinct l.nodes
        → Resumes h
        → Walk (next h) (map pair_of rest ++ es)
    unfolding next_in
    bucket-Walk [] h l a it at here under behind i e d go =
        let h' : Skmap V = record h { buck = set h.buck h.bit (some l) } in
        let kept : drop (suc k) h'.buck ≡ bs =
          ap (λ j. drop (suc k) (set h.buck j (some l))) at ∙ drop-set h.buck k (some l) ∙ behind in
        let place : h.bit + 1 ≡ suc k = omega (arith, at) in
        let run : next h ≡ enter h' (skip bs (suc k)) =
          next-in h k l (l, none) it at here (next-end l a i e)
          ∙ ap (λ j. enter h' (skip (drop j h'.buck) j)) place
          ∙ ap (λ ts. enter h' (skip ts (suc k))) kept in
        subst (λ m. Walk m es) (sym run) (go h' refl (length-set h.buck h.bit (some l)) kept)
    bucket-Walk (r ∷ rs) h l a it at here under behind i e d go =
        let l' : Bucklist V = record l { iter = some r.addr; previter = some a } in
        let h' : Skmap V = record h { buck = set h.buck h.bit (some l') } in
        let kept : drop (suc k) h'.buck ≡ bs =
          ap (λ j. drop (suc k) (set h.buck j (some l'))) at
          ∙ drop-set h.buck k (some l')
          ∙ behind in
        let here' : get_or h'.buck k none ≡ some l' =
          ap (λ j. get_or (set h.buck j (some l')) k none) at
          ∙ get_or-set_self h.buck k (some l') none under in
        let run : next h ≡ ok (h', some (r.key, r.val)) =
          next-in h k l (l', some (r.key, r.val)) it at here (next-step l a r rs i e) in
        subst (λ m. Walk m ((r.key, r.val) ∷ (map pair_of rs ++ es))) (sym run)
          (more h' (r.key, r.val) _
            (bucket-Walk rs h' l' r.addr it at here'
              (omega (arith, length-set h.buck h.bit (some l'))) kept refl
              (after-next a l.nodes r rs d e) d
              (λ g b w. go g b (w ∙ length-set h.buck h.bit (some l')))))

  enter-over :
      (h : Skmap V) (k : ℕ)
      → k ≡ h.bsz
      → enter h k ≡ ok (record h { bit = k; iterating = false }, none)
  unfolding enter
  enter-over h k e = if-true (k == h.bsz) _ _ (rw e (==_refl h.bsz))

  enter-used :
      (h : Skmap V) (k : ℕ) (l : Bucklist V) (n : Node V) (ns : List (Node V))
      → k < h.bsz
      → get_or h.buck k none ≡ some l
      → l.nodes ≡ n ∷ ns
      → (let l' : Bucklist V = record l { iter = some n.addr; previter = none } in
          enter h k
          ≡ ok (
            record h { buck = set h.buck k (some l'); bit = k; iterating = true },
            some (n.key, n.val),
          ))
  unfolding enter enter_at
  enter-used h k l n ns lt here e =
      if-false (k == h.bsz) _ _ (ground (arith, lt))
      ∙ ap (enter_at h k) here
      ∙ ap (λ p. ok (record h { buck = set h.buck k (some p.0); bit = k; iterating = true }, p.1))
          (first-some l n ns e)

  skip-unused :
      (l : Bucklist V) (bs : List (Option (Bucklist V))) (k : ℕ)
      → l.nodes ≡ []
      → skip (some l ∷ bs) k ≡ skip bs (k + 1)
  unfolding skip is_used Bucklist.isempty
  skip-unused l bs k e = rw e refl

  skip-used :
      (l : Bucklist V) (bs : List (Option (Bucklist V))) (k : ℕ) (n : Node V) (ns : List (Node V))
      → l.nodes ≡ n ∷ ns
      → skip (some l ∷ bs) k ≡ k
  unfolding skip is_used Bucklist.isempty
  skip-used l bs k n ns e = rw e refl

  -- A bucket that is a list, empty or not, and then what is behind it.
  used-Walk :
      (es : List (Bytes × V)) (bs : List (Option (Bucklist V))) (k : ℕ) (ns : List (Node V))
      (h : Skmap V) (l : Bucklist V)
      → l.nodes ≡ ns
      → drop k h.buck ≡ some l ∷ bs
      → k < h.bsz
      → length h.buck ≡ h.bsz
      → Distinct l.nodes
      → Resumes es bs k h
      → Walk (enter h (skip (some l ∷ bs) k)) (map pair_of ns ++ es)
  used-Walk es bs k [] h l none_left e lt width d go =
      let (_, behind, _) = drop-get_or h.buck k (some l) bs e in
      let one : suc k ≡ k + 1 = omega arith in
      subst (λ j. Walk (enter h j) es) (ap (skip bs) one ∙ sym (skip-unused l bs k none_left))
        (go h refl refl behind)
  used-Walk es bs k (n ∷ ns) h l nodes e lt width d go =
      let (here, behind, under) = drop-get_or h.buck k (some l) bs e in
      let l' : Bucklist V = record l { iter = some n.addr; previter = none } in
      let h' : Skmap V = record h { buck = set h.buck k (some l'); bit = k; iterating = true } in
      let run : enter h (skip (some l ∷ bs) k) ≡ ok (h', some (n.key, n.val)) =
        ap (enter h) (skip-used l bs k n ns nodes) ∙ enter-used h k l n ns lt here nodes in
      let behind' : after n.addr l.nodes ≡ ok ns = ap (after n.addr) nodes ∙ after-head n ns in
      let kept : length h'.buck ≡ length h.buck = length-set h.buck k (some l') in
      subst (λ m. Walk m ((n.key, n.val) ∷ (map pair_of ns ++ es))) (sym run)
        (more h' (n.key, n.val) _
          (bucket-Walk es bs k ns h' l' n.addr refl refl
            (get_or-set_self h.buck k (some l') none under) (omega (arith, kept))
            (drop-set h.buck k (some l') ∙ behind) refl behind' d (λ g b w. go g b (w ∙ kept))))

  -- The walk from the first used bucket from `k` on.
  enter-Walk :
      (bs : List (Option (Bucklist V))) (h : Skmap V) (k : ℕ)
      → drop k h.buck ≡ bs
      → k + length bs ≡ h.bsz
      → length h.buck ≡ h.bsz
      → All (λ b. Distinct (nodes_of b)) bs
      → Walk (enter h (skip bs k)) (entries bs)
  unfolding skip entries is_used
  enter-Walk [] h k e size width d =
      subst (λ m. Walk m []) (sym (enter-over h k (omega (arith, size)))) (over _)
  enter-Walk (none ∷ bs) h k e size width (_, d) =
      let (_, behind, _) = drop-get_or h.buck k none bs e in
      let one : suc k ≡ k + 1 = omega arith in
      subst (λ j. Walk (enter h (skip bs j)) (entries bs)) one
        (enter-Walk bs h (suc k) behind (omega (arith, size)) width d)
  enter-Walk (some l ∷ bs) h k e size width (dl, d) =
      used-Walk (entries bs) bs k l.nodes h l refl e (omega (arith, size)) width dl (λ g b w behind.
        enter-Walk bs g (suc k) behind (omega (arith, size, b)) (w ∙ width ∙ sym b) d)

  -- The iteration that `first` starts and `next` goes on with ends, with no fault, when it has given
  -- every entry of the map once, in the order of the buckets and, in a bucket, of its list. The map
  -- is well formed, and no two nodes of a bucket have the same address.
  pub first-Walk :
      (h : Skmap V)
      → IsValid h
      → All (λ b. Distinct (nodes_of b)) h.buck
      → Walk (first h) (entries h.buck)
  unfolding first
  first-Walk h v d = enter-Walk h.buck h 0 refl (omega (arith, v.width)) v.width d
