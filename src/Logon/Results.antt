-- ===== src/Logon/Results.antt =====
-- Which results the handlers of the core can have.
use libsrsirc.Base.{ℕ, Bool, true, false, none, [], ◌∷◌, Bytes, Option-cases, inl, inr, get_or}
use libsrsirc.Base.Mem.{Mem}
use libsrsirc.Proto.{Tokarr}
use libsrsirc.Msg.Outcomes.{Gives, Among, common_3, common, logon_results, handler_rules}
use libsrsirc.Logon.{
  Irc, Host, reply, try_nick, handle_001, handle_002, handle_003, handle_004, handle_ping,
  handle_bad_nick, handle_464, handle_383, handle_484, handle_465, handle_466, handle_error,
  handle_nick, handle_mode,
}

module _ {W : Type 0} (h : Host W) (x : Irc W) (msg : Tokarr) (nargs : ℕ) (logon : Bool) where
  abbrev Common : (Irc W → Tokarr → ℕ → Bool → Mem (Irc W × ℕ)) → Type 0
  Common f = Gives common (f x msg nargs logon)

  pub handle_001-Gives : Common (handle_001 h)
  unfolding handle_001
  handle_001-Gives = search (handler_rules) depth 10

  pub handle_002-Gives : Common (handle_002 h)
  unfolding handle_002
  handle_002-Gives = search (handler_rules) depth 10

  pub handle_003-Gives : Common (handle_003 h)
  unfolding handle_003
  handle_003-Gives = search (handler_rules) depth 10

  pub handle_464-Gives : Common (handle_464 h)
  unfolding handle_464
  handle_464-Gives = search (handler_rules) depth 10

  pub handle_484-Gives : Common (handle_484 h)
  unfolding handle_484
  handle_484-Gives = search (handler_rules) depth 10

  pub handle_465-Gives : Common (handle_465 h)
  unfolding handle_465
  handle_465-Gives = search (handler_rules) depth 10

  pub handle_466-Gives : Common (handle_466 h)
  unfolding handle_466
  handle_466-Gives = search (handler_rules) depth 10

  pub handle_error-Gives : Common (handle_error h)
  unfolding handle_error
  handle_error-Gives = search (handler_rules) depth 10

  pub handle_mode-Gives : Common (handle_mode h)
  unfolding handle_mode
  handle_mode-Gives = search (handler_rules) depth 10

  pub handle_004-Gives : Gives logon_results (handle_004 h x msg nargs logon)
  unfolding handle_004
  handle_004-Gives = search (handler_rules) depth 12

  pub handle_383-Gives : Gives logon_results (handle_383 h x msg nargs logon)
  unfolding handle_383
  handle_383-Gives = search (handler_rules) depth 10

  pub handle_nick-Gives : Common (handle_nick h)
  unfolding handle_nick
  handle_nick-Gives = elim (Option-cases (get_or msg 0 none)) [
    | inl e ↦ rw (e, handle_nick) (search (handler_rules))
    | inr (pfx, e) ↦ rw (e, handle_nick) (search (handler_rules) depth 10)
  ]

module _ {W : Type 0} (h : Host W) (x : Irc W) where
  reply-Among : (line : Bytes) → Among common (reply h x line).1
  unfolding reply
  reply-Among line = search (handler_rules)

  try_nick-Among : (nick : Bytes) → Among common (try_nick h x nick).1
  unfolding try_nick reply
  try_nick-Among [] = common_3
  try_nick-Among (c ∷ nick) = search (handler_rules)

  pub handle_ping-Gives :
      (msg : Tokarr) (nargs : ℕ) (logon : Bool) → Gives common (handle_ping h x msg nargs logon)
  unfolding handle_ping
  handle_ping-Gives msg nargs false = search (handler_rules)
  handle_ping-Gives msg nargs true = search (handler_rules, reply-Among) depth 10

  pub handle_bad_nick-Gives :
      (msg : Tokarr) (nargs : ℕ) (logon : Bool) → Gives common (handle_bad_nick h x msg nargs logon)
  unfolding handle_bad_nick
  handle_bad_nick-Gives msg nargs false = search (handler_rules)
  handle_bad_nick-Gives msg nargs true = elim (Option-cases x.cb_mut_nick) [
    | inl e ↦ rw (e, handle_bad_nick) (search (handler_rules))
    | inr (mut, e) ↦ rw (e, handle_bad_nick) (search (handler_rules, try_nick-Among))
  ]
