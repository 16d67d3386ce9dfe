-- ===== src/Logon/Connect/Rounds.antt =====
-- One round of the logon's loop: what the server must have sent for it to get further.
use libsrsirc.Base.{
  ℕ, ◌≡◌, refl, sym, ◌∙◌, ◌⊎◌, inl, inr, Bool, true, false, not, ◌&&◌, ◌||◌, ◌==◌, ◌%◌, Option,
  some, none, Bytes, get_or, All, Bool-cases, Option-cases, arith,
}
use libsrsirc.Base.Mem.{Mem, ok, fault, ◌>>=◌}
use libsrsirc.Proto.{Tokarr}
use libsrsirc.Msg.{HndTables, handle}
use libsrsirc.Msg.Outcomes.{Among}
use libsrsirc.Msg.Res.{starttls_over}
use libsrsirc.Logon.{Irc, Host}
use libsrsirc.Logon.Register.Sound.{ends_logon, ends_sasl, Slot}
use libsrsirc.Logon.Register.Flags.{evens_of, flag-ends_logon, flag-ends_sasl, handle-evens}
use libsrsirc.Logon.Connect.{
  Account, Turn, LogonState, Progress, going, finished, has_flag, fail, send_logon, late_logon,
  take_flags, handled, step,
}

-- A message whose command passes the test was read.
pub got : (Bytes → Bool) → Option (Option Tokarr) → Bool
got test (some (some msg)) = elim (get_or msg 1 none) [ none ↦ false | some cmd ↦ test cmd ]
got test (some none) = false
got test none = false

-- A state is no further than `before` and a read allow.
pub record Fair {W : Type 0} (before : LogonState W) (read : Option (Option Tokarr))
    (after : LogonState W) : Type 0 where
  pub by_logon : after.logged_on ≡ true → (before.logged_on || got ends_logon read) ≡ true
  pub by_sasl : after.sasl_authed ≡ true → (before.sasl_authed || got ends_sasl read) ≡ true

-- A round does not end with success.
pub data Rounds {W : Type 0} (st : LogonState W) (read : Option (Option Tokarr))
    : Mem (Progress W) → Type 0 where
  r_fault : Rounds st read fault
  r_failed : (x : Irc W) → Rounds st read (ok (finished x false))
  r_going : (st' : LogonState W) → Fair st read st' → Rounds st read (ok (going st'))

or_flag : (b c d : Bool) → (b || c) ≡ true → (c ≡ true → d ≡ true) → (b || d) ≡ true
or_flag true c d h f = refl
or_flag false c d h f = f h

got-cmd :
    (test : Bytes → Bool) (msg : Tokarr) (cmd : Bytes)
    → get_or msg 1 none ≡ some cmd
    → got test (some (some msg)) ≡ test cmd
unfolding got
got-cmd test msg cmd e = rw (e, got) refl

Mem-cases : {A : Type 0} (m : Mem A) → (m ≡ fault) ⊎ ((v : A) × (m ≡ ok v))
Mem-cases fault = inl refl
Mem-cases (ok v) = inr (v, refl)

module _ {W : Type 0} (h : Host W) (a : Account) where
  fail-Rounds :
      (st : LogonState W) (read : Option (Option Tokarr)) (x : Irc W) → Rounds st read (fail h x)
  unfolding fail
  fail-Rounds st read x = r_failed _

  late_logon-Rounds :
      (st st' : LogonState W) (read : Option (Option Tokarr)) (flags : ℕ)
      → Fair st read st'
      → Rounds st read (late_logon h a flags st')
  unfolding late_logon
  late_logon-Rounds st st' read flags f =
      elim (Bool-cases (has_flag flags starttls_over && not st'.logon_sent)) [
        | inr e ↦ rw (e, late_logon) (r_going st' f)
        | inl e ↦ elim (Bool-cases (send_logon h a st'.irc).1) [
          | inl g ↦
              rw (e, g, late_logon)
                (r_going _ record { by_logon = f.by_logon; by_sasl = f.by_sasl })
          | inr g ↦ rw (e, g, late_logon) (fail-Rounds st read _)
        ]
      ]

  take_flags-Rounds :
      (st : LogonState W) (x : Irc W) (flags : ℕ) (msg : Tokarr) (cmd : Bytes)
      → get_or msg 1 none ≡ some cmd
      → ((flags % 2 == 1) ≡ true) ⊎ Among (evens_of cmd) flags
      → Rounds st (some (some msg)) (take_flags h a st x flags)
  unfolding take_flags has_flag got
  take_flags-Rounds st x flags msg cmd e r = elim (Bool-cases (flags % 2 == 1)) [
    | inl o ↦ rw (o, take_flags) (fail-Rounds st (some (some msg)) x)
    | inr o ↦
        let even : Among (evens_of cmd) flags = elim r [
          | inl o' ↦ absurd (cc (sym o ∙ o'))
          | inr m ↦ m
        ] in
        rw (o, take_flags)
          (late_logon-Rounds st _ (some (some msg)) flags record {
            by_logon = λ l.
                or_flag _ _ _ l
                  (λ f. got-cmd ends_logon msg cmd e ∙ flag-ends_logon cmd flags even f);
            by_sasl = λ l.
                or_flag _ _ _ l
                  (λ f. got-cmd ends_sasl msg cmd e ∙ flag-ends_sasl cmd flags even f);
          })
  ]

  flags-Rounds :
      (st : LogonState W) (msg : Tokarr) (cmd : Bytes) (w : Mem (Irc W)) (flags : ℕ)
      → get_or msg 1 none ≡ some cmd
      → ((flags % 2 == 1) ≡ true) ⊎ Among (evens_of cmd) flags
      → Rounds st (some (some msg)) (w >>= λ x. take_flags h a st x flags)
  flags-Rounds st msg cmd fault flags e r = r_fault
  flags-Rounds st msg cmd (ok x) flags e r = take_flags-Rounds st x flags msg cmd e r

  module _ (t : HndTables (Mem (Irc W))) (sound : All (Slot (λ n. false)) t.msghnds) where
    handled-Rounds :
        (st : LogonState W) (x : Irc W) (msg : Tokarr)
        → Rounds st (some (some msg)) (handled h a st (handle t (ok x) msg true))
    unfolding handled
    handled-Rounds st x msg = elim (Mem-cases (handle t (ok x) msg true)) [
      | inl e ↦ rw (e, handled) r_fault
      | inr ((w, flags), e) ↦
          let (cmd, is_cmd, r) = handle-evens t (ok x) w flags msg sound e in
          rw (e, handled) (flags-Rounds st msg cmd w flags is_cmd r)
    ]

    pub step-Rounds : (turn : Turn W) (st : LogonState W) → Rounds st turn.read (step h a t turn st)
    unfolding step
    step-Rounds turn st = elim (Bool-cases turn.late) [
      | inl e ↦ rw (e, step) (fail-Rounds st turn.read _)
      | inr e ↦ elim (Option-cases turn.read) [
        | inl f ↦ rw (e, f, step) (fail-Rounds st _ _)
        | inr (none, f) ↦
            rw (e, f, step)
              (r_going _
                record { by_logon = λ l. ground (arith, l); by_sasl = λ l. ground (arith, l) })
        | inr (some msg, f) ↦ elim (Bool-cases turn.allowed) [
          | inl g ↦ rw (e, f, g, step) (handled-Rounds st _ msg)
          | inr g ↦ rw (e, f, g, step) (fail-Rounds st _ _)
        ]
      ]
    ]
