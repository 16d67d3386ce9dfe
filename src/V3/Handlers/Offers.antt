-- ===== src/V3/Handlers/Offers.antt =====
-- What a `CAP LS` that is handled without an error says about the capabilities that are required.
use libsrsirc.Base.{
  ℕ, [], ◌%◌, ◌≤◌, ◌≡◌, refl, sym, ap, subst, ◌∙◌, Bool, true, false, none, some, Bytes, codes,
  ◌==◌, get_or, Bool-cases, inl, inr, ltb, ◌++◌, arith,
}
use libsrsirc.Base.Mem.{ok}
use libsrsirc.Proto.{Tokarr}
use libsrsirc.Msg.{same}
use libsrsirc.Conn.{Sockets}
use libsrsirc.V3.Caps.{Cap, find_cap, lacks_cap, check_caps, mk_capreq}
use libsrsirc.V3.Caps.Want.{is_compact, check_caps-find_cap}
use libsrsirc.V3.Handlers.{
  V3State, starred, arg_at, updated_caps, send_line, or_io_err, request_caps, behind_ls,
  handle_cap_ls, handle_cap,
}

pub arg_at-some :
    (msg : Tokarr) (i : ℕ) (t : Bytes) → get_or msg i none ≡ some t → arg_at msg i ≡ ok t
arg_at-some msg i t h = rw (h, arg_at) refl

module _ {W : Type 0} (s : Sockets W) where
  or_io_err-caps : (p : V3State W × Bool) (r : ℕ) → (or_io_err s p r).0.caps ≡ p.0.caps
  or_io_err-caps (v, true) r = refl
  or_io_err-caps (v, false) r = refl

  request_caps-caps : (v : V3State W) (q : Bytes × Bool) → (request_caps s v q).0.caps ≡ v.caps
  unfolding request_caps send_line
  request_caps-caps v (names, true) =
      or_io_err-caps (send_line s (record v { capreq = names }) (codes "CAP REQ :" ++ names)) 0
  request_caps-caps v (names, false) =
      or_io_err-caps (send_line s (record v { capreq = [] }) (codes "CAP END\r\n")) 0

  behind_ls-check :
      (v : V3State W)
      → ((behind_ls s (v, 0)).1 % 2 == 1) ≡ false
      → check_caps (behind_ls s (v, 0)).0.caps true ≡ true
  unfolding behind_ls
  behind_ls-check v h = elim (Bool-cases (check_caps v.caps true)) [
    | inl e ↦ rw e (ap (λ cs. check_caps cs true) (request_caps-caps v (mk_capreq v.caps 119)) ∙ e)
    | inr e ↦ cc (rw (e, behind_ls) at h)
  ]

  handle_cap-behind_ls :
      (v : V3State W) (msg : Tokarr) (nargs : ℕ) (line : Bytes)
      → 5 ≤ nargs
      → get_or msg 3 none ≡ some (codes "LS")
      → get_or msg 4 none ≡ some line
      → starred line ≡ false
      → handle_cap s v msg nargs true
        ≡ ok (behind_ls s (record v { caps = updated_caps v.caps line true }, 0))
  unfolding handle_cap handle_cap_ls same
  handle_cap-behind_ls v msg nargs line n ls star plain =
      let few : ltb nargs 4 ≡ false = ground arith in
      let few' : ltb nargs 5 ≡ false = ground arith in
      simp (few, arg_at-some msg 3 (codes "LS") ls, few', arg_at-some msg 4 line star, plain)

  ok_inj : (p q : V3State W × ℕ) → ok p ≡ ok q → p ≡ q
  ok_inj p q h = cc

  -- While logging on, the last line of a `CAP LS` is handled without an error only if every
  -- capability that is found and required is on offer. The line has its argument and does not begin
  -- with a star, and no capability stands behind a gap in the table.
  pub handle_cap-find_cap :
      (v v' : V3State W) (msg : Tokarr) (nargs r : ℕ) (line name : Bytes) (c : Cap)
      → 5 ≤ nargs
      → get_or msg 3 none ≡ some (codes "LS")
      → get_or msg 4 none ≡ some line
      → starred line ≡ false
      → handle_cap s v msg nargs true ≡ ok (v', r)
      → (r % 2 == 1) ≡ false
      → is_compact v'.caps ≡ true
      → find_cap v'.caps name ≡ some c
      → c.musthave ≡ true
      → c.offered ≡ true
  unfolding lacks_cap
  handle_cap-find_cap v v' msg nargs r line name c n ls star plain h even k f must =
      let v0 : V3State W = record v { caps = updated_caps v.caps line true } in
      let run : ok (behind_ls s (v0, 0)) ≡ ok (v', r) =
        sym (handle_cap-behind_ls v msg nargs line n ls star plain) ∙ h in
      let passed =
        subst (λ (p : V3State W × ℕ). (p.1 % 2 == 1) ≡ false → check_caps p.0.caps true ≡ true)
          (ok_inj _ _ run) (behind_ls-check v0) even in
      let lack : lacks_cap true c ≡ false = check_caps-find_cap v'.caps true name c k passed f in
      ground arith
