-- ===== src/Text/Lower.antt =====
-- `lsi_ut_strtolower` of libsrsirc/util.c on the bytes of its destination. With a `destsz` of 0 it
-- stores in front of the destination.
use libsrsirc.Base.{
  ℕ, zero, suc, ◌+◌, ◌-◌, ◌≡◌, refl, sym, ap, ◌∙◌, false, [], ◌∷◌, Bytes, map, ◌==◌, if◌then◌else◌,
  ◌&&◌, leb, set, set-set, Bool-cases, inl, inr, arith,
}
use libsrsirc.Base.Mem.{Mem, ok, fault}
use libsrsirc.Cmap.{Casemap, tolower, rangeinc}
use libsrsirc.Text.{first_byte, tail_of, str_ncpy, ncpy_loop}

-- The loop with `rem` rounds left; `i` is the pointer `ptr`.
lower_loop : ℕ → Bytes → ℕ → Bytes → Casemap → Bytes
lower_loop zero dest i str m = dest
lower_loop (suc rem) dest i str m =
    let c = first_byte str in
    let dest' = set dest i (tolower c m) in
    let rest = lower_loop rem dest' (i + 1) (tail_of str) m in if c == 0 then dest' else rest

unfoldable pub strtolower : Bytes → ℕ → Bytes → Casemap → Mem Bytes
unfolding lower_loop
strtolower dest zero str m = fault
strtolower dest (suc n) str m = ok (set (lower_loop (suc n) dest 0 str m) n 0)

tolower-zero : (c : ℕ) (m : Casemap) → (tolower c m == 0) ≡ (c == 0)
unfolding tolower rangeinc
tolower-zero c m = elim (Bool-cases (leb b'A' c && leb c (b'Z' + rangeinc m))) [
  | inl e ↦ rw (e, tolower) (ground (arith, e))
  | inr e ↦ rw (e, tolower) refl
]

first-map :
    (s : Bytes) (m : Casemap) → first_byte (map (λ c. tolower c m) s) ≡ tolower (first_byte s) m
unfolding tolower
first-map [] m = refl
first-map (c ∷ s) m = refl

tail-map :
    (s : Bytes) (m : Casemap)
    → tail_of (map (λ c. tolower c m) s) ≡ map (λ c. tolower c m) (tail_of s)
tail-map [] m = refl
tail-map (c ∷ s) m = refl

-- The store of a NUL that is at the end already.
last-set :
    (d : Bytes) (n i k : ℕ)
    → i + suc n ≡ k + 1
    → set d k 0 ≡ set (if n == 0 then set d i 0 else d) k 0
last-set d zero i k e =
    let same : i ≡ k = omega (arith, e) in
    sym (ap (λ j. set (set d j 0) k 0) same ∙ set-set d k 0 0)
last-set d (suc n) i k e = let more : (suc n == 0) ≡ false = ground arith in rw more refl

lower_loop-ncpy_loop :
    (n : ℕ) (dest : Bytes) (i k : ℕ) (str : Bytes) (m : Casemap)
    → i + n ≡ k + 1
    → set (lower_loop n dest i str m) k 0
      ≡ set (ncpy_loop n dest i (map (λ c. tolower c m) str)) k 0
unfolding lower_loop ncpy_loop
lower_loop-ncpy_loop zero dest i k str m e =
    let last : i - 1 ≡ k = omega (arith, e) in rw last (sym (set-set dest k 0 0))
lower_loop-ncpy_loop (suc n) dest i k str m e =
    let below =
      lower_loop-ncpy_loop n (set dest i (tolower (first_byte str) m)) (i + 1) k (tail_of str) m
        (omega (arith, e)) in
    let low = tolower-zero (first_byte str) m in
    elim (Bool-cases (first_byte str == 0)) [
      | inl end ↦
          rw (end, first-map str m, low ∙ end, lower_loop, ncpy_loop)
            (last-set (set dest i (tolower (first_byte str) m)) n i k e)
      | inr more ↦
          rw (more, first-map str m, tail-map str m, low ∙ more, lower_loop, ncpy_loop) below
    ]

-- In a buffer of at least one byte, the lower-case copy is the bounded copy of the lower-case string,
-- with a NUL in the buffer's last byte.
pub strtolower-str_ncpy :
    (dest : Bytes) (n : ℕ) (str : Bytes) (m : Casemap)
    → strtolower dest (suc n) str m
      ≡ ok (set (str_ncpy dest (map (λ c. tolower c m) str) (suc n)) n 0)
unfolding strtolower str_ncpy
strtolower-str_ncpy dest n str m =
    ap (λ d. ok d) (lower_loop-ncpy_loop (suc n) dest 0 n str m (omega arith))
