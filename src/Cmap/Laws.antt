-- ===== src/Cmap/Laws.antt =====
-- Facts about the character maps: they are total on bytes and fold as `tolower` does.
use libsrsirc.Base.{
  ℕ, zero, suc, ◌<◌, ◌≡◌, refl, sym, ap, ◌∙◌, ◌≢◌, ◌↔◌, Bool, true, ◌&&◌, ◌||◌, ◌==◌, ==_iff, ltb,
  bit_and, arith, List, [], ◌∷◌, get_or,
}
use libsrsirc.Base.Table.{holds_from, holds_from_each}
use libsrsirc.Cmap.{Casemap, rfc1459, strict_rfc1459, ascii, cmap_at, g_cmap, tolower}

-- The casemap whose `tolower` folds the letters that the table of this index folds.
pub twin : Casemap → Casemap
twin rfc1459 = strict_rfc1459
twin strict_rfc1459 = rfc1459
twin ascii = ascii

-- `!` and `@`, which the tables map to 0 so that a key ends where the nick ends.
abbrev pub IsPlain : ℕ → Type 0
IsPlain c = (c < 256) × (c ≢ b'!') × (c ≢ b'@')

upper_table :
    (m : Casemap)
    → holds_from
        (λ c. c == b'!' || c == b'@' || cmap_at m (tolower c (twin m)) == cmap_at m c)
        0
        256
      ≡ true
unfolding holds_from cmap_at tolower twin
upper_table rfc1459 = refl
upper_table strict_rfc1459 = refl
upper_table ascii = refl

lower_table :
    (m : Casemap)
    → holds_from
        (λ c. c == b'!' || c == b'@' || tolower (cmap_at m c) (twin m) == tolower c (twin m))
        0
        256
      ≡ true
unfolding holds_from cmap_at tolower twin
lower_table rfc1459 = refl
lower_table strict_rfc1459 = refl
lower_table ascii = refl

pub cmap_at-tolower :
    (m : Casemap) (c : ℕ) → IsPlain c → cmap_at m (tolower c (twin m)) ≡ cmap_at m c
cmap_at-tolower m c h =
    ground (arith, holds_from_each _ 0 256 c (omega arith) (omega arith) (upper_table m))

pub tolower-cmap_at :
    (m : Casemap) (c : ℕ) → IsPlain c → tolower (cmap_at m c) (twin m) ≡ tolower c (twin m)
tolower-cmap_at m c h =
    ground (arith, holds_from_each _ 0 256 c (omega arith) (omega arith) (lower_table m))

-- Two bytes other than `!` and `@` are equal under the table of a casemap exactly when `tolower`
-- makes them equal under the casemap's twin: ASCII is its own twin, and the table at the index of
-- each RFC 1459 casemap folds as `tolower` does at the other one.
pub cmap-tolower-twin :
    (m : Casemap) (a b : ℕ)
    → IsPlain a
    → IsPlain b
    → (cmap_at m a ≡ cmap_at m b) ↔ (tolower a (twin m) ≡ tolower b (twin m))
cmap-tolower-twin m a b ha hb = (
  λ e. sym (tolower-cmap_at m a ha) ∙ ap (λ c. tolower c (twin m)) e ∙ tolower-cmap_at m b hb,
  λ e. sym (cmap_at-tolower m a ha) ∙ ap (cmap_at m) e ∙ cmap_at-tolower m b hb,
)

-- A value of a table is a byte.
All_bytes : List ℕ → Bool
All_bytes [] = true
All_bytes (c ∷ cs) = ltb c 256 && All_bytes cs

get_or-lt : (t : List ℕ) (i : ℕ) → All_bytes t ≡ true → get_or t i 0 < 256
unfolding All_bytes
get_or-lt [] i h = omega arith
get_or-lt (c ∷ cs) zero h = ground arith
get_or-lt (c ∷ cs) (suc i) h = get_or-lt cs i (ground arith)

pub cmap_at-lt : (m : Casemap) (c : ℕ) → cmap_at m c < 256
unfolding cmap_at All_bytes
cmap_at-lt rfc1459 c = get_or-lt (g_cmap rfc1459) c refl
cmap_at-lt strict_rfc1459 c = get_or-lt (g_cmap strict_rfc1459) c refl
cmap_at-lt ascii c = get_or-lt (g_cmap ascii) c refl

bit_and_table : holds_from (λ x. bit_and x x == x) 0 256 ≡ true
unfolding holds_from
bit_and_table = refl

-- `x & x` is `x`, for a byte.
pub bit_and_self : (x : ℕ) → x < 256 → bit_and x x ≡ x
bit_and_self x h =
    (==_iff _ x).0 (holds_from_each _ 0 256 x (omega arith) (omega arith) bit_and_table)

pub cmap_at-zero : (m : Casemap) → cmap_at m 0 ≡ 0
unfolding cmap_at
cmap_at-zero rfc1459 = refl
cmap_at-zero strict_rfc1459 = refl
cmap_at-zero ascii = refl
