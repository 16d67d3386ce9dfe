-- ===== src/Skmap/Replace.antt =====
-- One bucket of a map is replaced: what keeps the map well formed, and what it stands for then.
use libsrsirc.Base.{
  ℕ, ◌+◌, ◌≤◌, ◌≡◌, refl, ◌∙◌, inl, inr, Option, none, Bytes, if◌then◌else◌, length, set,
  length-set, Bool-cases, ◌==◌, ==_iff, get_or-set, arith,
}
use libsrsirc.Key.{pfxeq}
use libsrsirc.Bucklist.{Bucklist, find_loop}
use libsrsirc.Bucklist.Lookup.{val_of, matches}
use libsrsirc.Skmap.{Skmap, home}
use libsrsirc.Skmap.View.{nodes_of, nodes_at, Fits, IsValid, view, total-set, home-lt, home_congr}

module _ {ℓ} {V : Type ℓ} where
  -- The bucket of `k` replaced, with a new count.
  abbrev pub replaced : Skmap V → Bytes → Option (Bucklist V) → ℕ → Skmap V
  replaced h k b c = record h { buck = set h.buck (home h k) b; count = c }

  module _ (h : Skmap V) (v : IsValid h) (k : Bytes) (b : Option (Bucklist V)) (c : ℕ) where
    home_kept : (q : Bytes) → home (replaced h k b c) q ≡ home h q
    unfolding home
    home_kept q = refl

    pub replaced-IsValid :
        Fits h.cmap b
        → ((q : Bytes)
            → matches h.cmap q (nodes_of b)
              ≤ (if pfxeq k q h.cmap then 1 else matches h.cmap q (nodes_at h (home h k))))
        → c + length (nodes_at h (home h k)) ≡ h.count + length (nodes_of b)
        → IsValid (replaced h k b c)
    replaced-IsValid fits few size =
        let i = home h k in
        let lt = home-lt v k in
        let at = λ (j : ℕ). get_or-set h.buck i j b none lt in
        record {
          some_bucket = v.some_bucket;
          width = length-set h.buck i b ∙ v.width;
          fits = λ j. elim (Bool-cases (i == j)) [
            | inl e ↦ rw (at j, e) fits
            | inr e ↦ rw (at j, e) (v.fits j)
          ];
          unique = λ q j. elim (Bool-cases (i == j)) [
            | inl e ↦ rw (at j, e) (ground (arith, few q, v.unique q i))
            | inr e ↦ rw (at j, e) (v.unique q j)
          ];
          placed = λ q j ne. elim (Bool-cases (i == j)) [
            | inl e ↦
                rw (at j, e) (ground (arith, few q, v.placed q i, home_congr h k q, home_kept q))
            | inr e ↦ rw (at j, e) (v.placed q j (λ p. ne (home_kept q ∙ p)))
          ];
          counted = omega (arith, total-set h.buck i b lt, v.counted);
        }

    pub replaced-view :
        (x : Option V)
        → ((q : Bytes)
            → val_of (find_loop h.cmap q (nodes_of b)) ≡ (
                if pfxeq k q h.cmap
                then x
                else val_of (find_loop h.cmap q (nodes_at h (home h k)))))
        → (q : Bytes) → view (replaced h k b c) q ≡ (if pfxeq k q h.cmap then x else view h q)
    unfolding view
    replaced-view x e q = elim (Bool-cases (home h k == home h q)) [
      | inl same ↦
          rw (home_kept q, get_or-set h.buck (home h k) (home h q) b none (home-lt v k), same)
            (ground (arith, e q, ==_iff (home h k) (home h q)))
      | inr other ↦
          rw (home_kept q, get_or-set h.buck (home h k) (home h q) b none (home-lt v k), other)
            (ground (arith, home_congr h k q))
    ]
