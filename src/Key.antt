-- ===== src/Key.antt =====
-- Keys of the hash map: the comparison `pfxeq` of libsrsirc/bucklist.c and the two hash functions
-- of libsrsirc/skmap.c. A key is a C string; what stands after its bytes is the NUL.
pub mod Laws
use libsrsirc.Base.{
  ℕ, ◌+◌, ◌*◌, ◌%◌, ◌^◌, bit_and, bit_xor, Bool, true, false, not, List, [], ◌∷◌, Bytes, ◌==◌,
  if◌then◌else◌,
}
use libsrsirc.Cmap.{Casemap, cmap_at}

-- The loop ends at the NUL, since every table maps 0 to 0: `c1 & c2` is then 0.
unfoldable pub pfxeq : Bytes → Bytes → Casemap → Bool
pfxeq [] [] m = cmap_at m 0 == cmap_at m 0
pfxeq [] (b ∷ n2) m = cmap_at m 0 == cmap_at m b
pfxeq (a ∷ n1) [] m = cmap_at m a == cmap_at m 0
pfxeq (a ∷ n1) (b ∷ n2) m =
    let c1 = cmap_at m a in
    let c2 = cmap_at m b in
    if not (bit_and c1 c2 == 0) then if not (c1 == c2) then false else pfxeq n1 n2 m else c1 == c2

-- `unsigned shift` counts modulo 2 ^ 32, and what is stored in a `uint8_t` is cut to a byte.
pub next_shift : ℕ → ℕ
next_shift shift = (shift + 1) % 2 ^ 32

pub mix : ℕ → ℕ → ℕ → ℕ
mix res cur shift = bit_xor res (cur * 2 ^ (shift % 3)) % 2 ^ 8

-- The loop of `strhash_small` over the key from `s` on.
small_loop : Bytes → Casemap → ℕ → ℕ → ℕ
small_loop [] m res shift = res
small_loop (c ∷ s) m res shift =
    let cur = cmap_at m c in
    let rest = small_loop s m (mix res cur (next_shift shift)) (next_shift shift) in
    if cur == 0 then res else rest

unfoldable pub strhash_small : Bytes → Casemap → ℕ
unfolding small_loop mix next_shift
strhash_small s m = small_loop s m 0xaa 0

-- The loop of `strhash_mid`: `first` is flipped before the element that it names is changed.
mid_loop : Bytes → Casemap → ℕ → ℕ → ℕ → Bool → ℕ × ℕ
mid_loop [] m r0 r1 shift first = (r0, r1)
mid_loop (c ∷ s) m r0 r1 shift first =
    let cur = cmap_at m c in
    let sh = next_shift shift in
    let rest =
      mid_loop s m (if first then mix r0 cur sh else r0) (if first then r1 else mix r1 cur sh) sh
        (not first) in
    if cur == 0 then (r0, r1) else rest

pub strhash_mid : Bytes → Casemap → ℕ
unfolding mid_loop mix next_shift
strhash_mid s m = let (r0, r1) = mid_loop s m 0xaa 0xaa 0 true in r0 * 2 ^ 8 + r1
