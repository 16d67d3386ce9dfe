-- ===== src/Logon/Isupport/Results.antt =====
-- The results of the handler of 005.
use libsrsirc.Base.{
  ℕ, ◌≡◌, refl, sym, subst, ◌⊎◌, inl, inr, Bool-cases, ◌+◌, ◌||◌, not, ◌==◌, ◌%◌, bit_or, Bool,
  true, false, some, none, Option, [], ◌∷◌, Bytes, if◌then◌else◌, length, take, drop, ◌-◌,
}
use libsrsirc.Text.Ident.Pieces.{before, behind}
use libsrsirc.Base.Mem.{Mem, ok, fault, ◌>>=◌}
use libsrsirc.Proto.{Tokarr}
use libsrsirc.Modes.{ModeTypes}
use libsrsirc.Msg.Outcomes.{Gives, common, handler_rules, result, faulty, common_9}
use libsrsirc.Logon.{Irc, Host}
use libsrsirc.Logon.Isupport.{
  handle_005_prefix, prefix_pair, needed, apply_attr, one_attr, enable_tracking, attr_loop,
  handle_005,
}

-- An attribute is handled with 0 or 9.
data Small {A : Type 0} : Mem (A × (ℕ × Bool)) → Type 0 where
  s_fault : Small fault
  s_zero : (x : A) (c : Bool) → Small (ok (x, (0, c)))
  s_err : (x : A) (c : Bool) → Small (ok (x, (9, c)))

needed-Small :
    {A : Type 0} (val : Option Bytes) (f : Bytes → A × (ℕ × Bool))
    → ((v : Bytes) → Small (ok (f v)))
    → Small (needed val f)
unfolding needed
needed-Small none f p = s_fault
needed-Small (some v) f p = p v

Small-if :
    {A : Type 0} (b : Bool) (m n : Mem (A × (ℕ × Bool)))
    → Small m
    → Small n
    → Small (if b then m else n)
Small-if true m n p q = p
Small-if false m n p q = q

Small-pair : {A : Type 0} (x : A) (r : ℕ) (c : Bool) → (r ≡ 0) ⊎ (r ≡ 9) → Small (ok (x, (r, c)))
Small-pair x r c (inl e) = subst (λ r. Small (ok (x, (r, c)))) (sym e) (s_zero x c)
Small-pair x r c (inr e) = subst (λ r. Small (ok (x, (r, c)))) (sym e) (s_err x c)

prefix_pair-result :
    (t : ModeTypes) (str : Bytes) (p : Option Bytes)
    → ((prefix_pair t str p).1 ≡ 0) ⊎ ((prefix_pair t str p).1 ≡ 9)
unfolding prefix_pair
prefix_pair-result t str none = inr refl
prefix_pair-result t str (some p) =
    elim (Bool-cases (length str == 0 || not (length str == length p))) [
      | inl e ↦ inr (rw (e, prefix_pair) refl)
      | inr e ↦ inl (rw (e, prefix_pair) refl)
    ]

prefix-result :
    (t : ModeTypes) (val : Bytes)
    → ((handle_005_prefix t val).1 ≡ 0) ⊎ ((handle_005_prefix t val).1 ≡ 9)
unfolding handle_005_prefix
prefix-result t [] = inr refl
prefix-result t (c ∷ val) =
    prefix_pair-result t (before b')' (take 31 val)) (behind b')' (take 31 val))

module _ {W : Type 0} (h : Host W) where
  apply_attr-Small : (x : Irc W) (nam : Bytes) (val : Option Bytes) → Small (apply_attr h x nam val)
  unfolding apply_attr
  apply_attr-Small x nam val =
      search (Small-if, needed-Small, s_zero, Small-pair, prefix-result x.types) depth 12

  one_attr-Small : (x : Irc W) (z : ℕ) (arg : Bytes) → Small (one_attr h x z arg)
  unfolding one_attr
  one_attr-Small x z arg = search (apply_attr-Small)

  enable_tracking-Gives : (x : Irc W) (have : Bool) → Gives common (ok (enable_tracking h x 0 have))
  unfolding enable_tracking
  enable_tracking-Gives x have = search (handler_rules)

  step-Gives :
      (k : Irc W → ℕ → Bool → Mem (Irc W × ℕ))
      → ((x : Irc W) (c : Bool) → Gives common (k x 0 c))
      → (m : Mem (Irc W × (ℕ × Bool))) → Small m
      → Gives common (
          m >>= λ r. elim (bit_or 0 r.1.0 % 2 == 1) [
            | true ↦ ok (r.0, bit_or 0 r.1.0)
            | false ↦ k r.0 (bit_or 0 r.1.0) r.1.1
          ])
  step-Gives k rest _ s_fault = faulty
  step-Gives k rest _ (s_zero x c) = rest x c
  step-Gives k rest _ (s_err x c) = result x 9 common_9

  attr_loop-Gives :
      (args : Tokarr) (z : ℕ) (x : Irc W) (have : Bool) → Gives common (attr_loop h args z x 0 have)
  unfolding attr_loop
  attr_loop-Gives [] z x have = enable_tracking-Gives x have
  attr_loop-Gives (none ∷ args) z x have = faulty
  attr_loop-Gives (some arg ∷ args) z x have =
      step-Gives (λ x' r c. attr_loop h args (z + 1) x' r (have || c))
        (λ x' c. attr_loop-Gives args (z + 1) x' (have || c)) (one_attr h x z arg)
        (one_attr-Small x z arg)

  pub handle_005-Gives :
      (x : Irc W) (msg : Tokarr) (nargs : ℕ) (logon : Bool)
      → Gives common (handle_005 h x msg nargs logon)
  unfolding handle_005
  handle_005-Gives x msg nargs logon = attr_loop-Gives (take (nargs - 4) (drop 3 msg)) 3 x false
