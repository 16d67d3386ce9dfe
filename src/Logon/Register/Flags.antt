-- ===== src/Logon/Register/Flags.antt =====
-- Which flags a dispatch can give while logging on.
use libsrsirc.Base.{
  ℕ, ◌≡◌, refl, sym, subst, ◌⊎◌, inl, inr, Bool, true, false, not, ◌&&◌, ◌||◌, ◌==◌, ◌%◌, bit_or,
  bit_and, some, none, List, [], ◌∷◌, Bytes, if◌then◌else◌, get_or, drop, All, Bool-cases, ==_iff,
  arith,
}
use libsrsirc.Base.Mem.{Mem, ok}
use libsrsirc.Proto.{Tokarr, has_byte}
use libsrsirc.Msg.{HndTables, same, handle, count_args}
use libsrsirc.Msg.Outcomes.{Among, among}
use libsrsirc.Msg.Kept.{Joins, handle-Joins}
use libsrsirc.Logon.{Irc}
use libsrsirc.Logon.Register.Sound.{ends_logon, ends_sasl, results_of, Slot}

-- The joined results that are not odd.
abbrev pub evens_of : Bytes → List ℕ
evens_of cmd =
    if ends_logon cmd then 0 ∷ 512 ∷ [] else if ends_sasl cmd then 0 ∷ 1024 ∷ [] else 0 ∷ 4096 ∷ []

-- A test of each number of a list.
every : (ℕ → Bool) → List ℕ → Bool
every p [] = true
every p (x ∷ xs) = p x && every p xs

every-has_byte :
    (p : ℕ → Bool) (xs : List ℕ) (r : ℕ) → every p xs ≡ true → has_byte xs r ≡ true → p r ≡ true
unfolding every has_byte
every-has_byte p [] r e h = absurd (cc h)
every-has_byte p (x ∷ xs) r e h = elim (Bool-cases (x == r)) [
  | inl f ↦ subst (λ n. p n ≡ true) ((==_iff x r).0 f) (ground arith)
  | inr f ↦ every-has_byte p xs r (ground arith) (ground arith)
]

every-Among : (p : ℕ → Bool) (xs : List ℕ) (r : ℕ) → every p xs ≡ true → Among xs r → p r ≡ true
every-Among p xs r e (among _ h) = every-has_byte p xs r e h

-- Joining a result with one of `es` gives one of `es`, or is odd.
joins : List ℕ → ℕ → ℕ → Bool
joins es r e = bit_or e r % 2 == 1 || has_byte es (bit_or e r)

closed : List ℕ → List ℕ → Bool
closed es rs = every (λ r. every (joins es r) es) rs

closed-Among :
    (es rs : List ℕ) (e r : ℕ)
    → closed es rs ≡ true
    → Among es e
    → Among rs r
    → ((bit_or e r % 2 == 1) ≡ true) ⊎ Among es (bit_or e r)
unfolding closed joins
closed-Among es rs e r c he hr =
    let j = every-Among (joins es r) es e (every-Among (λ r. every (joins es r) es) rs r c hr) he in
    elim (Bool-cases (bit_or e r % 2 == 1)) [ inl o ↦ inl o | inr o ↦ inr (among _ (ground arith)) ]

closed_of : (cmd : Bytes) → closed (evens_of cmd) (results_of cmd) ≡ true
unfolding closed every joins has_byte
closed_of cmd = elim (Bool-cases (ends_logon cmd)) [
  | inl e ↦ rw e refl
  | inr e ↦ elim (Bool-cases (ends_sasl cmd)) [ inl f ↦ rw (e, f) refl | inr f ↦ rw (e, f) refl ]
]

same-eq : (a b : Bytes) → same a b ≡ true → a ≡ b
unfolding same
same-eq [] [] h = refl
same-eq [] (y ∷ b) h = cc h
same-eq (x ∷ a) [] h = cc h
same-eq (x ∷ a) (y ∷ b) h = ground (arith, same-eq a b)

zero_even : (cmd : Bytes) → Among (evens_of cmd) 0
unfolding has_byte
zero_even cmd = elim (Bool-cases (ends_logon cmd)) [
  | inl e ↦ rw e (among 0 refl)
  | inr e ↦ elim (Bool-cases (ends_sasl cmd)) [
    | inl f ↦ rw (e, f) (among 0 refl)
    | inr f ↦ rw (e, f) (among 0 refl)
  ]
]

lacks_flag : ℕ → ℕ → Bool
lacks_flag f r = bit_and r f == 0

-- Only a command that ends the logon gives the flag of it, and so for the authentication.
pub flag-ends_logon :
    (cmd : Bytes) (r : ℕ)
    → Among (evens_of cmd) r
    → not (bit_and r 512 == 0) ≡ true
    → ends_logon cmd ≡ true
unfolding every lacks_flag
flag-ends_logon cmd r a h = elim (Bool-cases (ends_logon cmd)) [
  | inl e ↦ e
  | inr e ↦ elim (Bool-cases (ends_sasl cmd)) [
    | inl f ↦
        absurd
          (ground (arith, every-Among (lacks_flag 512) (0 ∷ 1024 ∷ []) r refl (rw (e, f) at a)))
    | inr f ↦
        absurd
          (ground (arith, every-Among (lacks_flag 512) (0 ∷ 4096 ∷ []) r refl (rw (e, f) at a)))
  ]
]

pub flag-ends_sasl :
    (cmd : Bytes) (r : ℕ)
    → Among (evens_of cmd) r
    → not (bit_and r 1024 == 0) ≡ true
    → ends_sasl cmd ≡ true
unfolding every lacks_flag
flag-ends_sasl cmd r a h = elim (Bool-cases (ends_logon cmd)) [
  | inl e ↦ absurd (ground (arith, every-Among (lacks_flag 1024) (0 ∷ 512 ∷ []) r refl (rw e at a)))
  | inr e ↦ elim (Bool-cases (ends_sasl cmd)) [
    | inl f ↦ f
    | inr f ↦
        absurd
          (ground (arith, every-Among (lacks_flag 1024) (0 ∷ 4096 ∷ []) r refl (rw (e, f) at a)))
  ]
]

module _ {W : Type 0} where
  Slot-Joins :
      (msg : Tokarr) (ac : ℕ) (cmd : Bytes)
      → Joins (Slot {W = W} (λ n. false)) (λ c r. Among (evens_of c) r) msg ac cmd
  Slot-Joins msg ac cmd s w res p taken found e =
      let a = p taken refl w msg ac true in
      closed-Among (evens_of cmd) (results_of cmd) res _ (closed_of cmd) e (
        subst (λ c. Among (results_of c) (s.hndfn w msg ac true).1) (sym (same-eq cmd s.cmd found))
          a)

  -- A dispatch by sound handlers, if it does not fail, gives the results of the message's command.
  pub handle-evens :
      (t : HndTables (Mem (Irc W))) (w w' : Mem (Irc W)) (r : ℕ) (msg : Tokarr)
      → All (Slot (λ n. false)) t.msghnds
      → handle t w msg true ≡ ok (w', r)
      → (cmd : Bytes) × (get_or msg 1 none ≡ some cmd)
        × (((r % 2 == 1) ≡ true) ⊎ Among (evens_of cmd) r)
  handle-evens t w w' r msg h run =
      handle-Joins (Slot (λ n. false)) (λ c r. Among (evens_of c) r) t w w' r msg
        (λ cmd. Slot-Joins msg (count_args (drop 2 msg) 2) cmd) h zero_even run
