-- ===== src/V3/Handlers/Results.antt =====
-- Which results the handlers of the capabilities can have.
use libsrsirc.Base.{
  ℕ, ◌≡◌, refl, ◌==◌, ◌%◌, Bool, true, false, Option-cases, inl, inr, Bytes, List, Bool-cases,
  bit_and, not, if◌then◌else◌, [], ◌∷◌, arith,
}
use libsrsirc.Base.Mem.{ok, ◌>>=◌}
use libsrsirc.Proto.{Tokarr, has_byte}
use libsrsirc.Msg.Outcomes.{
  Gives, Among, common, sasl_results, handler_rules, result, Gives-then, among,
}
use libsrsirc.Conn.{Sockets}
use libsrsirc.V3.Caps.{check_caps, mk_capreq}
use libsrsirc.Msg.Res.{cap_err, more_caps}
use libsrsirc.V3.Handlers.{
  V3State, or_io_err, conclude_sasl_cap, handle_cap_ls, handle_cap_ack, handle_cap_nak,
  request_caps, behind_ls, behind_ack, behind_nak, handle_cap, handle_authenticate, handle_903,
  handle_saslerr, handle_691,
}

module _ {W : Type 0} (s : Sockets W) where
  or_io_err-Among :
      (allowed : List ℕ) (p : V3State W × Bool) (r : ℕ)
      → Among allowed r
      → Among allowed 17
      → Among allowed (or_io_err s p r).1
  or_io_err-Among allowed (v, true) r h k = h
  or_io_err-Among allowed (v, false) r h k = k

  pub conclude-Gives :
      (v : V3State W) → Gives common (conclude_sasl_cap s v >>= λ c. ok (or_io_err s c 0))
  conclude-Gives v = search (handler_rules, or_io_err-Among)

  pub handle_saslerr-Among : (v : V3State W) (nargs : ℕ) → Among common (handle_saslerr s v nargs).1
  unfolding handle_saslerr
  handle_saslerr-Among v nargs = search (handler_rules)

  pub handle_691-Gives : (v : V3State W) (nargs : ℕ) → Gives common (handle_691 s v nargs)
  unfolding handle_691
  handle_691-Gives v nargs = search (handler_rules, or_io_err-Among) depth 10

  pub handle_903-Among :
      (v : V3State W) (logon : Bool) → Among sasl_results (handle_903 s v logon).1
  unfolding handle_903
  handle_903-Among v logon = search (handler_rules, or_io_err-Among) depth 10

  pub handle_authenticate-Among :
      (v : V3State W) (msg : Tokarr) (nargs : ℕ)
      → Among common (handle_authenticate s v msg nargs).1
  unfolding handle_authenticate
  handle_authenticate-Among v msg nargs = elim (Option-cases v.sasl_msg) [
    | inl e ↦ rw (e, handle_authenticate) (search (handler_rules) depth 10)
    | inr (t, e) ↦ rw (e, handle_authenticate) (search (handler_rules, or_io_err-Among) depth 10)
  ]

  -- What a `CAP LS` can give before its end is known.
  abbrev ls_results : List ℕ
  ls_results = 0 ∷ 9 ∷ 2048 ∷ []

  ls_0 : Among ls_results 0
  unfolding has_byte
  ls_0 = among 0 refl

  ls_9 : Among ls_results 9
  unfolding has_byte
  ls_9 = among 9 refl

  ls_2048 : Among ls_results 2048
  unfolding has_byte
  ls_2048 = among 2048 refl

  odd_ls : (r : ℕ) → Among ls_results r → (r % 2 == 1) ≡ true → Among common r
  unfolding has_byte
  odd_ls r (among _ h) odd = among r (ground arith)

  handle_cap_ls-Gives :
      (v : V3State W) (msg : Tokarr) (nargs : ℕ) (logon : Bool)
      → Gives ls_results (handle_cap_ls s v msg nargs logon)
  unfolding handle_cap_ls
  handle_cap_ls-Gives v msg nargs false = search (handler_rules, ls_0)
  handle_cap_ls-Gives v msg nargs true = search (handler_rules, ls_0, ls_9, ls_2048) depth 10

  request_caps-Among : (v : V3State W) (q : Bytes × Bool) → Among common (request_caps s v q).1
  unfolding request_caps
  request_caps-Among v (names, true) = search (handler_rules, or_io_err-Among)
  request_caps-Among v (names, false) = search (handler_rules, or_io_err-Among)

  behind_ls-Among :
      (v : V3State W) (r : ℕ) → Among ls_results r → Among common (behind_ls s (v, r)).1
  unfolding behind_ls
  behind_ls-Among v r a = elim (Bool-cases (r % 2 == 1)) [
    | inl e ↦ rw (e, behind_ls) (odd_ls r a e)
    | inr e ↦
        let rest : Among common
            (if not (bit_and r more_caps == 0)
              then (v, 0)
              else if check_caps v.caps true
              then request_caps s v (mk_capreq v.caps 119)
              else (v, cap_err)).1 =
          search (handler_rules, request_caps-Among) in
        rw (e, behind_ls) rest
  ]

  handle_cap_ack-Gives :
      (v : V3State W) (msg : Tokarr) (nargs : ℕ) → Gives common (handle_cap_ack s v msg nargs)
  unfolding handle_cap_ack
  handle_cap_ack-Gives v msg nargs = search (handler_rules) depth 10

  behind_ack-Gives : (v : V3State W) (r : ℕ) → Among common r → Gives common (behind_ack s (v, r))
  unfolding behind_ack
  behind_ack-Gives v r a = search (handler_rules, or_io_err-Among) depth 10

  behind_nak-Among : (p : V3State W × ℕ) → Among common p.1 → Among common (behind_nak s p).1
  unfolding behind_nak
  behind_nak-Among (v, r) a = search (handler_rules)

  handle_cap_nak-Among : (v : V3State W) (nargs : ℕ) → Among common (handle_cap_nak s v nargs).1
  unfolding handle_cap_nak
  handle_cap_nak-Among v nargs = search (handler_rules)

  handle_cap_ls-behind :
      (v : V3State W) (msg : Tokarr) (nargs : ℕ) (logon : Bool)
      → Gives common (handle_cap_ls s v msg nargs logon >>= λ r. ok (behind_ls s r))
  handle_cap_ls-behind v msg nargs logon =
      Gives-then ls_results common _ _ (handle_cap_ls-Gives v msg nargs logon)
        (λ x r a. result _ _ (behind_ls-Among x r a))

  handle_cap_ack-behind :
      (v : V3State W) (msg : Tokarr) (nargs : ℕ)
      → Gives common (handle_cap_ack s v msg nargs >>= λ r. behind_ack s r)
  handle_cap_ack-behind v msg nargs =
      Gives-then common common _ _ (handle_cap_ack-Gives v msg nargs)
        (λ x r a. behind_ack-Gives x r a)

  pub handle_cap-Gives :
      (v : V3State W) (msg : Tokarr) (nargs : ℕ) (logon : Bool)
      → Gives common (handle_cap s v msg nargs logon)
  unfolding handle_cap
  handle_cap-Gives v msg nargs logon =
      search
        (
          handler_rules, handle_cap_ls-behind, handle_cap_ack-behind, behind_nak-Among,
          handle_cap_nak-Among,
        )
        depth 14
