-- ===== src/Base64/Decode.antt =====
-- A decoder written from RFC 4648, and the round trip.
use libsrsirc.Base.{
  ℕ, zero, suc, ◌+◌, ◌-◌, ◌*◌, ◌/◌, ◌%◌, ◌≤◌, ◌<◌, ◌≡◌, refl, true, false, ◌&&◌, not, none, some,
  [], ◌∷◌, ◌++◌, Bytes, ◌==◌, if◌then◌else◌, leb, length, All, length-append, arith,
}
use libsrsirc.Base64.{alpha, b64_core, b64_loop, base64}
use libsrsirc.Base.Table.{holds_from, holds_from_each}

-- The value of a character of the alphabet.
pub value : ℕ → ℕ
value c =
    if leb b'a' c
    then c - b'a' + 26
    else if leb b'A' c
    then c - b'A'
    else if leb b'0' c
    then c - b'0' + 52
    else if c == b'+'
    then 62
    else 63

pub decode : Bytes → Bytes
decode (w ∷ x ∷ y ∷ z ∷ s) =
    let a = value w * 4 + value x / 16 in
    let b = value x % 16 * 16 + value y / 4 in
    let c = value y % 4 * 64 + value z in
    let rest = decode s in
    if y == b'=' then a ∷ [] else if z == b'=' then a ∷ b ∷ [] else a ∷ b ∷ c ∷ rest
decode s = []

alpha_table : holds_from (λ q. value (alpha q) == q && not (alpha q == b'=')) 0 64 ≡ true
unfolding holds_from value alpha
alpha_table = refl

value-alpha : (q : ℕ) → q < 64 → (value (alpha q) ≡ q) × ((alpha q == b'=') ≡ false)
value-alpha q h =
    let t = holds_from_each _ 0 64 q (omega arith) (omega arith) alpha_table in
    (ground arith, ground arith)

abbrev pub IsByte : ℕ → Type 0
IsByte c = c < 256

decode-core_three :
    (a b c : ℕ) (s : Bytes)
    → IsByte a
    → IsByte b
    → IsByte c
    → decode (b64_core a b c 3 ++ s) ≡ a ∷ b ∷ c ∷ decode s
unfolding decode b64_core
decode-core_three a b c s ha hb hc =
    let q0 = value-alpha (a / 4) (omega arith) in
    let q1 = value-alpha (a % 4 * 16 + b / 16) (omega arith) in
    let q2 = value-alpha (b % 16 * 4 + c / 64) (omega arith) in
    let q3 = value-alpha (c % 64) (omega arith) in ground arith

decode-core_two : (a b : ℕ) → IsByte a → IsByte b → decode (b64_core a b 0 2) ≡ a ∷ b ∷ []
unfolding decode b64_core
decode-core_two a b ha hb =
    let q0 = value-alpha (a / 4) (omega arith) in
    let q1 = value-alpha (a % 4 * 16 + b / 16) (omega arith) in
    let q2 = value-alpha (b % 16 * 4 + 0 / 64) (omega arith) in ground arith

decode-core_one : (a : ℕ) → IsByte a → decode (b64_core a 0 0 1) ≡ a ∷ []
unfolding decode b64_core
decode-core_one a ha =
    let q0 = value-alpha (a / 4) (omega arith) in
    let q1 = value-alpha (a % 4 * 16 + 0 / 16) (omega arith) in ground arith

decode-b64_loop : (input : Bytes) → All IsByte input → decode (b64_loop input) ≡ input
unfolding b64_loop
decode-b64_loop [] h = unfold decode in refl
decode-b64_loop (a ∷ []) (ha, h) = decode-core_one a ha
decode-b64_loop (a ∷ b ∷ []) (ha, (hb, h)) = decode-core_two a b ha hb
decode-b64_loop (a ∷ b ∷ c ∷ input) h =
    rw (decode-core_three a b c (b64_loop input) h.0 h.1.0 h.1.1.0, decode-b64_loop input h.1.1.1)

length-core : (a b c n : ℕ) → n ≤ 3 → length (b64_core a b c n) ≡ 4
unfolding b64_core
length-core a b c zero h = refl
length-core a b c (suc zero) h = refl
length-core a b c (suc (suc zero)) h = refl
length-core a b c (suc (suc (suc zero))) h = refl
length-core a b c (suc (suc (suc (suc n)))) h = absurd (omega arith)

length-b64_loop : (input : Bytes) → length (b64_loop input) ≡ (length input + 2) / 3 * 4
unfolding b64_loop
length-b64_loop [] = refl
length-b64_loop (a ∷ []) = length-core a 0 0 1 (omega arith)
length-b64_loop (a ∷ b ∷ []) = length-core a b 0 2 (omega arith)
length-b64_loop (a ∷ b ∷ c ∷ input) = omega (
  arith,
  length-append {0} (b64_core a b c 3) (b64_loop input),
  length-core a b c 3,
  length-b64_loop input,
)

-- `base64` fails exactly when the destination has no room for the result and one byte more. Else
-- the result has the length that it announces, four bytes for each three begun, and the standard
-- decoder gives the input back.
pub decode-base64 :
    (destsz : ℕ) (input : Bytes)
    → All IsByte input
    → (base64 destsz input
        ≡ (if leb destsz ((length input + 2) / 3 * 4) then none else some (b64_loop input)))
      × (length (b64_loop input) ≡ (length input + 2) / 3 * 4)
      × (decode (b64_loop input) ≡ input)
unfolding base64
decode-base64 destsz input h = (refl, length-b64_loop input, decode-b64_loop input h)
