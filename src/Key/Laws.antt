-- ===== src/Key/Laws.antt =====
-- What `pfxeq` and the hash functions read of a key: its folded bytes up to the first that the
-- table maps to 0, the end of the nick in `nick!user@host`.
use libsrsirc.Base.{
  ℕ, ◌≡◌, refl, ◌↔◌, inl, inr, Bool, true, not, [], ◌∷◌, Bytes, ◌==◌, if◌then◌else◌, Bool-cases,
  arith,
}
use libsrsirc.Cmap.{Casemap, cmap_at}
use libsrsirc.Cmap.Laws.{cmap_at-lt, bit_and_self, cmap_at-zero}
use libsrsirc.Key.{pfxeq, strhash_small, strhash_mid, small_loop, mid_loop, mix, next_shift}

pub fold_key : Casemap → Bytes → Bytes
fold_key m [] = []
fold_key m (c ∷ s) = if cmap_at m c == 0 then [] else cmap_at m c ∷ fold_key m s

pfxeq-fold_key : (m : Casemap) (a b : Bytes) → pfxeq a b m ≡ true → fold_key m a ≡ fold_key m b
unfolding pfxeq fold_key
pfxeq-fold_key m [] [] h = refl
pfxeq-fold_key m [] (y ∷ b) h = ground (arith, cmap_at-zero m)
pfxeq-fold_key m (x ∷ a) [] h = ground (arith, cmap_at-zero m)
pfxeq-fold_key m (x ∷ a) (y ∷ b) h =
    ground (arith, pfxeq-fold_key m a b, bit_and_self (cmap_at m x) (cmap_at-lt m x))

fold_key-pfxeq : (m : Casemap) (a b : Bytes) → fold_key m a ≡ fold_key m b → pfxeq a b m ≡ true
unfolding pfxeq fold_key
fold_key-pfxeq m [] [] h = ground arith
fold_key-pfxeq m [] (y ∷ b) h = ground (arith, cmap_at-zero m)
fold_key-pfxeq m (x ∷ a) [] h = ground (arith, cmap_at-zero m)
fold_key-pfxeq m (x ∷ a) (y ∷ b) h =
    ground (arith, fold_key-pfxeq m a b, bit_and_self (cmap_at m x) (cmap_at-lt m x))

-- `pfxeq` says true exactly when the two keys have the same folded bytes up to the first byte that
-- the table maps to 0, although it tests the two bytes by a bitwise `&`.
pub pfxeq_iff : (m : Casemap) (a b : Bytes) → (pfxeq a b m ≡ true) ↔ (fold_key m a ≡ fold_key m b)
pfxeq_iff m a b = (pfxeq-fold_key m a b, fold_key-pfxeq m a b)

pub pfxeq_refl : (m : Casemap) (a : Bytes) → pfxeq a a m ≡ true
pfxeq_refl m a = fold_key-pfxeq m a a refl

-- Equal keys compare alike with every other key.
pub pfxeq_congr : (m : Casemap) (a b c : Bytes) → pfxeq a b m ≡ true → pfxeq a c m ≡ pfxeq b c m
pfxeq_congr m a b c h = ground (arith, pfxeq_iff m a c, pfxeq_iff m b c, pfxeq-fold_key m a b h)

pub pfxeq_symm : (m : Casemap) (a b : Bytes) → pfxeq a b m ≡ pfxeq b a m
pfxeq_symm m a b = ground (arith, pfxeq_iff m a b, pfxeq_iff m b a)

-- The hash loops over a folded key, which holds no 0.
small_folded : Bytes → ℕ → ℕ → ℕ
small_folded [] res shift = res
small_folded (c ∷ s) res shift = small_folded s (mix res c (next_shift shift)) (next_shift shift)

small_loop-fold_key :
    (m : Casemap) (s : Bytes) (res shift : ℕ)
    → small_loop s m res shift ≡ small_folded (fold_key m s) res shift
unfolding small_loop small_folded fold_key
small_loop-fold_key m [] res shift = refl
small_loop-fold_key m (c ∷ s) res shift = elim (Bool-cases (cmap_at m c == 0)) [
  | inl e ↦ rw e
  | inr e ↦ rw e (small_loop-fold_key m s _ _)
]

mid_folded : Bytes → ℕ → ℕ → ℕ → Bool → ℕ × ℕ
mid_folded [] r0 r1 shift first = (r0, r1)
mid_folded (c ∷ s) r0 r1 shift first =
    let sh = next_shift shift in
    mid_folded s (if first then mix r0 c sh else r0) (if first then r1 else mix r1 c sh) sh
      (not first)

mid_loop-fold_key :
    (m : Casemap) (s : Bytes) (r0 r1 shift : ℕ) (first : Bool)
    → mid_loop s m r0 r1 shift first ≡ mid_folded (fold_key m s) r0 r1 shift first
unfolding mid_loop mid_folded fold_key
mid_loop-fold_key m [] r0 r1 shift first = refl
mid_loop-fold_key m (c ∷ s) r0 r1 shift first = elim (Bool-cases (cmap_at m c == 0)) [
  | inl e ↦ rw e
  | inr e ↦ rw e (mid_loop-fold_key m s _ _ _ _)
]

-- Keys that compare equal have the same hash, under both hash functions.
pub strhash-pfxeq :
    (m : Casemap) (a b : Bytes)
    → pfxeq a b m ≡ true
    → (strhash_small a m ≡ strhash_small b m) × (strhash_mid a m ≡ strhash_mid b m)
unfolding strhash_small strhash_mid
strhash-pfxeq m a b h =
    let e = pfxeq-fold_key m a b h in
    (
      rw (small_loop-fold_key, small_loop-fold_key m b, e),
      rw (mid_loop-fold_key, mid_loop-fold_key m b, e),
    )

pub pfxeq_congr_right :
    (m : Casemap) (a b c : Bytes) → pfxeq b c m ≡ true → pfxeq a b m ≡ pfxeq a c m
pfxeq_congr_right m a b c h =
    ground (arith, pfxeq_symm m a b, pfxeq_symm m a c, pfxeq_congr m b c a h)
