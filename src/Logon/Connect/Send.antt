-- ===== src/Logon/Connect/Send.antt =====
-- What `send_logon` writes to the server.
use libsrsirc.Base.{
  ℕ, zero, suc, ◌+◌, ◌-◌, ◌≤◌, ◌<◌, ◌≡◌, refl, sym, ap, ◌∙◌, Bool, true, false, not, [], ◌∷◌, ◌++◌,
  Bytes, ◌==◌, if◌then◌else◌, leb, ltb, length, take, take-all, length-append, append_assoc,
  Bool-cases, inl, inr, arith,
}
use libsrsirc.V3.Caps.{want_caps}
use libsrsirc.Logon.{Irc, Host}
use libsrsirc.Logon.Connect.{
  Account, add_part, cap_part, pass_part, nick_part, last_part, send_logon, irc_write,
}

-- The whole text of the logon: the capability request, the password and the lines that name the client.
pub logon_text : {W : Type 0} → Account → Irc W → Bytes
logon_text a x = cap_part x ++ (pass_part a ++ nick_part a x)

if-false : {A : Type 0} (b : Bool) (m n : A) → b ≡ false → (if b then m else n) ≡ n
if-false true m n e = absurd (cc e)
if-false false m n e = refl

take-append : (n : ℕ) (a b : Bytes) → length a ≤ n → take n (a ++ b) ≡ a ++ take (n - length a) b
take-append n [] b h = ap (λ k. take k b) (omega arith)
take-append zero (c ∷ a) b h = absurd (omega arith)
take-append (suc n) (c ∷ a) b h =
    ap (λ t. c ∷ t) (take-append n a b (omega arith) ∙ ap (λ k. a ++ take k b) (omega arith))

module _ {W : Type 0} (h : Host W) (x : Irc W) where
  -- The last part behind a text that fits with a byte to spare.
  last_part-fits :
      (n : ℕ) (buf part : Bytes)
      → length buf ≤ n
      → 0 < length part
      → last_part h x (buf, n + 1 - length buf) part ≡ (
          if leb (length (buf ++ part)) n
          then irc_write h x (buf ++ part)
          else if length (buf ++ part) == n + 1
          then irc_write h x (take n (buf ++ part))
          else (x, false))
  unfolding last_part add_part
  last_part-fits n buf part room some_part =
      let size = length-append buf part in
      let rem : (n + 1 - length buf == 0) ≡ false = ground arith in
      elim (Bool-cases (leb (length (buf ++ part)) n)) [
        | inl e ↦
            let fits : ltb (n + 1 - length buf) (length part) ≡ false = ground (arith, size) in
            let whole : take (n + 1 - length buf - 1) part ≡ part =
              take-all _ part (ground (arith, size)) in
            rw (e, rem, fits, last_part, whole) refl
        | inr e ↦ elim (Bool-cases (length (buf ++ part) == n + 1)) [
          | inl f ↦
              let fits : ltb (n + 1 - length buf) (length part) ≡ false = ground (arith, size) in
              let cut : take n (buf ++ part) ≡ buf ++ take (n + 1 - length buf - 1) part =
                take-append n buf part room ∙ ap (λ k. buf ++ take k part) (omega arith) in
              rw (e, f, rem, fits, last_part, cut) refl
          | inr f ↦
              let long : ltb (n + 1 - length buf) (length part) ≡ true = ground (arith, size) in
              rw (e, f, rem, long, last_part) refl
        ]
      ]

  -- Three parts in a buffer of `n + 1` bytes, of which the first two fit, or not.
  parts-room :
      (n : ℕ) (p1 p2 : Bytes)
      → length p1 + length p2 ≤ n
      → add_part (add_part ([], n + 1) p1) p2 ≡ (p1 ++ p2, n + 1 - length (p1 ++ p2))
  unfolding add_part
  parts-room n p1 p2 room =
      let first : take (n + 1 - 1) p1 ≡ p1 = take-all _ p1 (omega arith) in
      let second : take (n + 1 - length p1 - 1) p2 ≡ p2 = take-all _ p2 (omega arith) in
      let rem : n + 1 - length p1 - length p2 ≡ n + 1 - length (p1 ++ p2) =
        omega (arith, length-append p1 p2) in
      rw (first, second, rem) refl

  parts-full :
      (n : ℕ) (p1 p2 p3 : Bytes)
      → n < length p1 + length p2
      → last_part h x (add_part (add_part ([], n + 1) p1) p2) p3 ≡ (x, false)
  unfolding add_part last_part
  parts-full n p1 p2 p3 full =
      let none_left : (n + 1 - length p1 - length p2 == 0) ≡ true = ground arith in
      rw (none_left, last_part) refl

  parts-fit :
      (n : ℕ) (p1 p2 p3 : Bytes)
      → 0 < length p3
      → last_part h x (add_part (add_part ([], n + 1) p1) p2) p3 ≡ (
          if leb (length (p1 ++ (p2 ++ p3))) n
          then irc_write h x (p1 ++ (p2 ++ p3))
          else if length (p1 ++ (p2 ++ p3)) == n + 1
          then irc_write h x (take n (p1 ++ (p2 ++ p3)))
          else (x, false))
  parts-fit n p1 p2 p3 some_part =
      let total = length-append p1 (p2 ++ p3) in
      let later = length-append p2 p3 in
      elim (Bool-cases (leb (length p1 + length p2) n)) [
        | inl e ↦
            rw (parts-room n p1 p2 (ground arith), ← append_assoc p1 p2 p3)
              (last_part-fits n (p1 ++ p2) p3 (ground (arith, length-append p1 p2)) some_part)
        | inr e ↦
            let long : leb (length (p1 ++ (p2 ++ p3))) n ≡ false = ground (arith, total, later) in
            let longer : (length (p1 ++ (p2 ++ p3)) == n + 1) ≡ false =
              ground (arith, total, later) in
            parts-full n p1 p2 p3 (ground arith) ∙ sym (if-false _ _ _ long ∙ if-false _ _ _ longer)
      ]

  cap_part-small : length (cap_part x) ≤ 511
  unfolding cap_part
  cap_part-small = elim (Bool-cases (want_caps x.v3.caps)) [
    | inl e ↦ rw (e, cap_part) (omega arith)
    | inr e ↦ rw (e, cap_part) (omega arith)
  ]

  nick_part-some : (a : Account) → 0 < length (nick_part a x)
  unfolding nick_part
  nick_part-some a = elim (Bool-cases x.service) [
    | inl e ↦ rw (e, nick_part) (omega arith)
    | inr e ↦ rw (e, nick_part) (omega arith)
  ]

  -- Online, a logon of at most 511 bytes is written as a whole in one write; one of 512 bytes is written without its last
  -- byte; and a longer one is refused, with nothing written.
  pub send_logon-fits :
      (a : Account)
      → x.v3.con.online ≡ true
      → send_logon h a x ≡ (
          if leb (length (logon_text a x)) 511
          then irc_write h x (logon_text a x)
          else if length (logon_text a x) == 512
          then irc_write h x (take 511 (logon_text a x))
          else (x, false))
  unfolding send_logon logon_text add_part
  send_logon-fits a on =
      let open_part : (512 - length (cap_part x) == 0) ≡ false = ground (arith, cap_part-small) in
      if-false (not x.v3.con.online) _ _ (ap not on)
      ∙ if-false _ _ _ open_part
      ∙ parts-fit 511 (cap_part x) (pass_part a) (nick_part a x) (nick_part-some a)
