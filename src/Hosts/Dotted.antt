-- ===== src/Hosts/Dotted.antt =====
-- Which hosts are taken for an address of IPv4.
use libsrsirc.Base.{
  ℕ, ◌+◌, ◌≤◌, ◌≡◌, refl, sym, ◌∙◌, ◌↔◌, ◌⊎◌, false, [], ◌∷◌, All, Bytes, ◌==◌, Bool-cases, inl,
  inr, ==_iff, arith,
}
use libsrsirc.Proto.{has_byte}
use libsrsirc.Modes.{count_byte}
use libsrsirc.Hosts.{ipv4, is_digit, guess_loop, guess_hosttype}

-- A dot or a digit.
pub Numeric : ℕ → Type 0
Numeric c = (c ≡ b'.') ⊎ ((b'0' ≤ c) × (c ≤ b'9'))

guess_loop-ipv4 :
    (host : Bytes) (dc : ℕ)
    → guess_loop host dc ≡ ipv4 ↔ (All Numeric host × (dc + count_byte host b'.' ≡ 3))
unfolding guess_loop count_byte Numeric
guess_loop-ipv4 [] dc = (λ e. (tt, ground (arith, e)), λ (_, e). ground (arith, e))
guess_loop-ipv4 (c ∷ host) dc = elim (Bool-cases (c == b'.')) [
  | inl dot ↦
      let c46 : c ≡ b'.' = (==_iff c b'.').0 dot in
      let rest = guess_loop-ipv4 host (dc + 1) in
      (
        λ e.
            (let (h, n) = rest.0 (rw (dot, guess_loop) at e) in
              ((inl c46, h), rw (dot, count_byte) (omega (arith, n)))),
        λ (h, n). rw (dot, guess_loop) (rest.1 (h.1, omega (arith, rw (dot, count_byte) at n))),
      )
  | inr no_dot ↦
      let rest = guess_loop-ipv4 host dc in
      elim (Bool-cases (is_digit c)) [
        | inl digit ↦ (
          λ e.
              (let (h, n) = rest.0 (rw (no_dot, digit, guess_loop) at e) in
                (
                  (inr (ground (arith, digit), ground (arith, digit)), h),
                  rw (no_dot, count_byte) (omega (arith, n)),
                )),
          λ (h, n).
              rw (no_dot, digit, guess_loop)
                (rest.1 (h.1, omega (arith, rw (no_dot, count_byte) at n))),
        )
        | inr other ↦ (
          λ e. absurd (cc (rw (no_dot, other, guess_loop) at e)),
          λ (h, n). ground (arith, h.0, other, no_dot),
        )
      ]
]

Numeric-no_bracket : (host : Bytes) → All Numeric host → has_byte host b'[' ≡ false
unfolding has_byte Numeric
Numeric-no_bracket [] h = refl
Numeric-no_bracket (c ∷ host) (n, h) =
    let first : (c == b'[') ≡ false = ground (arith, n) in
    rw (first, has_byte) (Numeric-no_bracket host h)

-- A host is taken for an address of IPv4 exactly when it holds only digits and dots, three of them
-- dots.
pub guess_hosttype-ipv4 :
    (host : Bytes) → guess_hosttype host ≡ ipv4 ↔ (All Numeric host × (count_byte host b'.' ≡ 3))
unfolding guess_hosttype
guess_hosttype-ipv4 host = elim (Bool-cases (has_byte host b'[')) [
  | inl e ↦ (
    λ h. absurd (cc (rw (e, guess_hosttype) at h)),
    λ h. absurd (cc (sym e ∙ Numeric-no_bracket host h.0)),
  )
  | inr e ↦ (
    λ h.
        (let (hs, n) = (guess_loop-ipv4 host 0).0 (rw (e, guess_hosttype) at h) in
          (hs, omega (arith, n))),
    λ (hs, n). rw (e, guess_hosttype) ((guess_loop-ipv4 host 0).1 (hs, omega (arith, n))),
  )
]
