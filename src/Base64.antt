-- ===== src/Base64.antt =====
-- `lsi_com_base64` and `b64_core` of libsrsirc/common.c. `x >> k` is `x / 2 ^ k`, `x & (2 ^ k - 1)` is
-- `x % 2 ^ k`, and `|` of bits that do not overlap is `+`.
pub mod Decode
use libsrsirc.Base.{
  ℕ, ◌+◌, ◌*◌, ◌/◌, ◌%◌, Option, none, some, List, [], ◌∷◌, ◌++◌, Bytes, codes, if◌then◌else◌, leb,
  length, get_or, take, replicate, ◌-◌,
}

unfoldable pub b64_alpha : Bytes
b64_alpha = codes "ABCDEFGHIJKLMNOPQRSTUVWXYZabcdefghijklmnopqrstuvwxyz0123456789+/"

unfoldable pub alpha : ℕ → ℕ
unfolding b64_alpha
alpha q = get_or b64_alpha q 0

-- The four values of the three bytes `t`.
unfoldable pub quad : ℕ → ℕ → ℕ → List ℕ
quad t0 t1 t2 = t0 / 4 ∷ (t0 % 4 * 16 + t1 / 16) ∷ (t1 % 16 * 4 + t2 / 64) ∷ t2 % 64 ∷ []

abbrev pub map_alpha : List ℕ → Bytes
map_alpha [] = []
map_alpha (q ∷ qs) = alpha q ∷ map_alpha qs

-- The bytes that one round stores: `ntrip` is from 1 to 3, and the bytes of `t` behind it are 0.
unfoldable pub b64_core : ℕ → ℕ → ℕ → ℕ → Bytes
unfolding quad
b64_core t0 t1 t2 ntrip =
    let nquad = ntrip + 1 in map_alpha (take nquad (quad t0 t1 t2)) ++ replicate (4 - nquad) b'='

-- The loop over the input, three bytes a round.
unfoldable pub b64_loop : Bytes → Bytes
b64_loop [] = []
b64_loop (a ∷ []) = b64_core a 0 0 1
b64_loop (a ∷ b ∷ []) = b64_core a b 0 2
b64_loop (a ∷ b ∷ c ∷ input) = b64_core a b c 3 ++ b64_loop input

-- `none` is the result 0, "too big". No NUL is written.
unfoldable pub base64 : ℕ → Bytes → Option Bytes
base64 destsz input =
    let reslen = (length input + 2) / 3 * 4 in
    if leb destsz reslen then none else some (b64_loop input)
