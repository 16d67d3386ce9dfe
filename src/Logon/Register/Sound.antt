-- ===== src/Logon/Register/Sound.antt =====
-- The registered handlers end the logon only at 004 and 383, and the authentication only at 903.
use libsrsirc.Base.{
  ℕ, ◌≡◌, refl, Bool, true, false, not, ◌&&◌, ◌||◌, List, [], ◌∷◌, ◌++◌, Bytes, codes,
  if◌then◌else◌, take, All, All-append, Bool-cases, inl, inr, arith,
}
use libsrsirc.Base.Mem.{Mem, ok, fault}
use libsrsirc.Proto.{Tokarr, has_byte}
use libsrsirc.Msg.{MsgHnd, is_free, same, reghnd, unregall}
use libsrsirc.Msg.Outcomes.{
  Among, among, Gives, faulty, result, common, logon_results, sasl_results, Gives-then,
}
use libsrsirc.Msg.Kept.{reghnd-All, unregall-All}
use libsrsirc.V3.Handlers.{
  V3State, handle_cap, handle_authenticate, handle_903, handle_saslerr, handle_691,
}
use libsrsirc.V3.StartTls.{handle_670}
use libsrsirc.V3.Handlers.Results.{
  handle_cap-Gives, handle_authenticate-Among, handle_903-Among, handle_saslerr-Among,
  handle_691-Gives,
}
use libsrsirc.V3.StartTls.Results.{handle_670-Gives}
use libsrsirc.Logon.{Irc, Host}
use libsrsirc.Logon.Results.{
  handle_001-Gives, handle_002-Gives, handle_003-Gives, handle_004-Gives, handle_ping-Gives,
  handle_bad_nick-Gives, handle_464-Gives, handle_383-Gives, handle_484-Gives, handle_465-Gives,
  handle_466-Gives, handle_error-Gives, handle_nick-Gives, handle_mode-Gives,
}
use libsrsirc.Logon.Isupport.Results.{handle_005-Gives}
use libsrsirc.Logon.Register.{
  Handler, lift, lifted, on_v3, register_all, busy_handlers, core_handlers, v3_handlers, imh_regall,
  v3_regall,
}

abbrev pub ends_logon : Bytes → Bool
ends_logon cmd = same cmd (codes "004") || same cmd (codes "383")

abbrev pub ends_sasl : Bytes → Bool
ends_sasl cmd = same cmd (codes "903")

-- The results that the handlers of a command may have.
abbrev pub results_of : Bytes → List ℕ
results_of cmd =
    if ends_logon cmd then logon_results else if ends_sasl cmd then sasl_results else common

-- Each list of results has 1, which a fault gives.
one_of : (cmd : Bytes) → Among (results_of cmd) 1
unfolding has_byte
one_of cmd = elim (Bool-cases (ends_logon cmd)) [
  | inl e ↦ rw e (among 1 refl)
  | inr e ↦ elim (Bool-cases (ends_sasl cmd)) [
    | inl f ↦ rw (e, f) (among 1 refl)
    | inr f ↦ rw (e, f) (among 1 refl)
  ]
]

module _ {W : Type 0} where
  -- A slot that is taken by a module that is not `stale` holds a handler with the results of
  -- its command.
  abbrev pub Slot : (Bytes → Bool) → MsgHnd (Mem (Irc W)) → Type 0
  Slot stale s =
      is_free s.cmd ≡ false
      → stale s.module_name ≡ false
      → (w : Mem (Irc W)) (msg : Tokarr) (nargs : ℕ) (logon : Bool)
      → Among (results_of s.cmd) (s.hndfn w msg nargs logon).1

  -- A handler has the results of the command that it is registered for.
  abbrev Entry : Bytes × Handler W → Type 0
  Entry (cmd, f) =
      (x : Irc W) (msg : Tokarr) (nargs : ℕ) (logon : Bool)
      → Gives (results_of (take 31 cmd)) (f x msg nargs logon)

  lifted-Among :
      (allowed : List ℕ) (m : Mem (Irc W × ℕ))
      → Among allowed 1
      → Gives allowed m
      → Among allowed (lifted m).1
  unfolding lifted
  lifted-Among allowed _ one faulty = one
  lifted-Among allowed _ one (result x r a) = a

  lift-Among :
      (cmd : Bytes) (f : Handler W) (w : Mem (Irc W)) (msg : Tokarr) (nargs : ℕ) (logon : Bool)
      → Entry (cmd, f)
      → Among (results_of (take 31 cmd)) (lift f w msg nargs logon).1
  unfolding lift
  lift-Among cmd f fault msg nargs logon e = one_of (take 31 cmd)
  lift-Among cmd f (ok x) msg nargs logon e =
      lifted-Among _ (f x msg nargs logon) (one_of (take 31 cmd)) (e x msg nargs logon)

  register_all-Slot :
      (stale : Bytes → Bool) (memory : Bool) (junk : MsgHnd (Mem (Irc W))) (m : Bytes)
      (hs : List (Bytes × Handler W)) (table : List (MsgHnd (Mem (Irc W))))
      → All Entry hs
      → All (Slot stale) table
      → All (Slot stale) (register_all memory junk m hs table).0
  unfolding register_all
  register_all-Slot stale memory junk m [] table e h = h
  register_all-Slot stale memory junk m ((cmd, f) ∷ hs) table (e, es) h =
      let r = reghnd memory junk table cmd (lift f) m in
      let kept : All (Slot stale) r.0 =
        reghnd-All (Slot stale) memory junk table cmd (lift f) m
          (λ taken fresh w msg nargs logon. lift-Among cmd f w msg nargs logon e) (λ taken. cc) h in
      elim (Bool-cases r.1) [
        | inl g ↦ rw (g, register_all) (register_all-Slot stale memory junk m hs r.0 es kept)
        | inr g ↦ rw (g, register_all) kept
      ]

  pub unregall-Slot :
      (stale : Bytes → Bool) (table : List (MsgHnd (Mem (Irc W)))) (m : Bytes)
      → All (Slot (λ n. same n m || stale n)) table
      → All (Slot stale) (unregall table m)
  unregall-Slot stale table m h =
      unregall-All (Slot (λ n. same n m || stale n)) (Slot stale) table m (λ s p taken. cc)
        (λ s e p taken fresh. p taken (other s e taken fresh)) h
    where
      other :
          (s : MsgHnd (Mem (Irc W)))
          → (not (is_free s.cmd) && same s.module_name m) ≡ false
          → is_free s.cmd ≡ false
          → stale s.module_name ≡ false
          → (same s.module_name m || stale s.module_name) ≡ false
      other s e taken fresh = ground arith

  on_v3-Gives :
      (f : V3State W → Tokarr → ℕ → Bool → Mem (V3State W × ℕ)) (allowed : List ℕ) (x : Irc W)
      (msg : Tokarr) (nargs : ℕ) (logon : Bool)
      → Gives allowed (f x.v3 msg nargs logon)
      → Gives allowed (on_v3 f x msg nargs logon)
  on_v3-Gives f allowed x msg nargs logon g =
      Gives-then allowed allowed _ _ g (λ v r a. result _ r a)

  ok-Gives : (allowed : List ℕ) (p : V3State W × ℕ) → Among allowed p.1 → Gives allowed (ok p)
  ok-Gives allowed (v, r) a = result v r a

  module _ (h : Host W) where
    busy-Entry : All Entry (busy_handlers h)
    unfolding busy_handlers same
    busy-Entry = (
      handle_ping-Gives h,
      (
        handle_bad_nick-Gives h,
        (
          handle_bad_nick-Gives h,
          (handle_bad_nick-Gives h, (handle_bad_nick-Gives h, (handle_464-Gives h, tt))),
        ),
      ),
    )

    core-Entry : All Entry (core_handlers h)
    unfolding core_handlers same
    core-Entry = (
      handle_nick-Gives h,
      (
        handle_error-Gives h,
        (
          handle_mode-Gives h,
          (
            handle_001-Gives h,
            (
              handle_002-Gives h,
              (
                handle_003-Gives h,
                (
                  handle_004-Gives h,
                  (
                    handle_383-Gives h,
                    (
                      handle_484-Gives h,
                      (handle_465-Gives h, (handle_466-Gives h, (handle_005-Gives h, tt))),
                    ),
                  ),
                ),
              ),
            ),
          ),
        ),
      ),
    )

    v3-Entry : All Entry (v3_handlers h)
    unfolding v3_handlers same
    v3-Entry =
        let s = h.sockets in
        let err = λ (x : Irc W) (msg : Tokarr) (nargs : ℕ) (logon : Bool).
          on_v3-Gives (λ v m n l. ok (handle_saslerr s v n)) common x msg nargs logon
            (ok-Gives common _ (handle_saslerr-Among s x.v3 nargs)) in
        (
          λ x msg nargs logon.
              on_v3-Gives (λ v m n l. handle_670 s h.tls v) common x msg nargs logon
                (handle_670-Gives s h.tls x.v3),
          (
            λ x msg nargs logon.
                on_v3-Gives (λ v m n l. handle_691 s v n) common x msg nargs logon
                  (handle_691-Gives s x.v3 nargs),
            (
              λ x msg nargs logon.
                  on_v3-Gives (λ v m n l. ok (handle_903 s v l)) sasl_results x msg nargs logon
                    (ok-Gives sasl_results _ (handle_903-Among s x.v3 logon)),
              (
                err,
                (
                  err,
                  (
                    err,
                    (
                      err,
                      (
                        λ x msg nargs logon.
                            on_v3-Gives (λ v m n l. handle_cap s v m n l) common x msg nargs logon
                              (handle_cap-Gives s x.v3 msg nargs logon),
                        (
                          λ x msg nargs logon.
                              on_v3-Gives (λ v m n l. ok (handle_authenticate s v m n)) common x msg
                                nargs logon
                                (ok-Gives common _ (handle_authenticate-Among s x.v3 msg nargs)),
                          tt,
                        ),
                      ),
                    ),
                  ),
                ),
              ),
            ),
          ),
        )

  pub imh_regall-Slot :
      (h : Host W) (stale : Bytes → Bool) (memory : Bool) (junk : MsgHnd (Mem (Irc W)))
      (table : List (MsgHnd (Mem (Irc W)))) (dumb : Bool)
      → All (Slot stale) table
      → All (Slot stale) (imh_regall h memory junk table dumb).0
  unfolding imh_regall
  imh_regall-Slot h stale memory junk table true s =
      register_all-Slot stale memory junk (codes "core") (core_handlers h) table (core-Entry h) s
  imh_regall-Slot h stale memory junk table false s =
      register_all-Slot stale memory junk (codes "core") (busy_handlers h ++ core_handlers h) table
        (All-append Entry (busy_handlers h) (core_handlers h) (busy-Entry h) (core-Entry h)) s

  pub v3_regall-Slot :
      (h : Host W) (stale : Bytes → Bool) (memory : Bool) (junk : MsgHnd (Mem (Irc W)))
      (table : List (MsgHnd (Mem (Irc W)))) (dumb : Bool)
      → All (Slot stale) table
      → All (Slot stale) (v3_regall h memory junk table dumb).0
  unfolding v3_regall
  v3_regall-Slot h stale memory junk table true s =
      register_all-Slot stale memory junk (codes "v3") [] table tt s
  v3_regall-Slot h stale memory junk table false s =
      register_all-Slot stale memory junk (codes "v3") (v3_handlers h) table (v3-Entry h) s
