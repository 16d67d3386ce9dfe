-- ===== src/Logon/Connect/Complete.antt =====
-- What the server must have sent before `irc_connect` says that the client is logged on.
use libsrsirc.Base.{
  ◌≡◌, refl, sym, ◌∙◌, inl, inr, Bool, true, false, not, ◌&&◌, ◌||◌, Option, some, none, List, [],
  ◌∷◌, Bytes, codes, if◌then◌else◌, All, Bool-cases, arith, is_some,
}
use libsrsirc.Base.Mem.{Mem, ok, fault, ◌>>=◌}
use libsrsirc.Msg.{MsgHnd, HndTables, same, is_free, unregall}
use libsrsirc.Conn.{Conn, conn_write}
use libsrsirc.Logon.{Irc, Host}
use libsrsirc.Logon.Register.{imh_regall}
use libsrsirc.Logon.Register.Sound.{
  ends_logon, ends_sasl, Slot, unregall-Slot, imh_regall-Slot, v3_regall-Slot,
}
use libsrsirc.Logon.Connect.Rounds.{got, Fair, Rounds, r_fault, r_failed, r_going, step-Rounds}
use libsrsirc.Logon.Connect.{
  Account, Turn, LogonState, Progress, going, finished, irc_reset, send_logon, step, waits,
  logon_loop, begun, connected, registered, irc_connect, cleared, irc_write, last_part, begin,
  with_con, reset_state,
}

chain :
    (b b' g r : Bool) → (b' ≡ true → (b || g) ≡ true) → (b' || r) ≡ true → (b || (g || r)) ≡ true
chain true b' g r f h = refl
chain false true true r f h = refl
chain false true false r f h = absurd (cc (f refl))
chain false false true r f h = refl
chain false false false r f h = h

pick-false : {A : Type 0} (b : Bool) (m n v : A) → b ≡ false → (if b then m else n) ≡ v → n ≡ v
pick-false true m n v d e = absurd (cc d)
pick-false false m n v d e = e

done_logon : (b c : Bool) → (not b || c) ≡ false → b ≡ true
done_logon true c h = refl
done_logon false c h = absurd (cc h)

done_sasl : (b u s : Bool) → (not b || (u && not s)) ≡ false → u ≡ true → s ≡ true
done_sasl b u true h e = refl
done_sasl true true false h e = absurd (cc h)
done_sasl false true false h e = absurd (cc h)
done_sasl b false false h e = absurd (cc e)

no_answer : {A : Type 0} {P : Type 0} {r : A} → ok none ≡ ok (some r) → P
no_answer h = cc

no_result : {A : Type 0} {P : Type 0} {r : A} → fault ≡ ok r → P
no_result h = cc

not_failed :
    {A P : Type 0} (r s : A × Bool) → r.1 ≡ false → s.1 ≡ true → ok (some r) ≡ ok (some s) → P
not_failed r s e f h = absurd (cc (e, f, h))

-- One of the turns read such a message.
pub received : {W : Type 0} → (Bytes → Bool) → List (Turn W) → Bool
received test [] = false
received test (t ∷ ts) = got test t.read || received test ts

-- What the server has said if the loop ends with success.
abbrev Said : {W : Type 0} → Bool → LogonState W → List (Turn W) → Type 0
Said using_sasl st ts =
    ((st.logged_on || received ends_logon ts) ≡ true)
    × (using_sasl ≡ true → (st.sasl_authed || received ends_sasl ts) ≡ true)

module _ {W : Type 0} (h : Host W) (a : Account) (t : HndTables (Mem (Irc W)))
    (sound : All (Slot (λ n. false)) t.msghnds) (using_sasl : Bool) where
  earlier :
      (turn : Turn W) (ts : List (Turn W)) (st st' : LogonState W)
      → Fair st turn.read st'
      → Said using_sasl st' ts
      → Said using_sasl st (turn ∷ ts)
  unfolding received
  earlier turn ts st st' f (l, s) = (
    chain st.logged_on st'.logged_on (got ends_logon turn.read) _ f.by_logon l,
    λ u. chain st.sasl_authed st'.sasl_authed (got ends_sasl turn.read) _ f.by_sasl (s u),
  )

  over :
      (ts : List (Turn W)) (st : LogonState W) → waits using_sasl st ≡ false → Said using_sasl st ts
  unfolding waits
  over ts st e = (
    ground (arith, done_logon st.logged_on (using_sasl && not st.sasl_authed) e),
    λ u. ground (arith, done_sasl st.logged_on using_sasl st.sasl_authed e u),
  )

  round-Said :
      (turn : Turn W) (ts : List (Turn W)) (st : LogonState W) (x : Irc W) (m : Mem (Progress W))
      → Rounds st turn.read m
      → ((st' : LogonState W)
          → logon_loop h a t using_sasl ts st' ≡ ok (some (x, true))
          → Said using_sasl st' ts)
      → (m >>= λ p. elim p [
        | finished y r ↦ ok (some (y, r))
        | going st' ↦
            if waits using_sasl st'
            then logon_loop h a t using_sasl ts st'
            else ok (some (st'.irc, true))
      ])
        ≡ ok (some (x, true))
      → Said using_sasl st (turn ∷ ts)
  round-Said turn ts st x _ r_fault rest e = no_result e
  round-Said turn ts st x _ (r_failed y) rest e = not_failed (y, false) (x, true) refl refl e
  round-Said turn ts st x _ (r_going st' f) rest e = elim (Bool-cases (waits using_sasl st')) [
    | inl w ↦ earlier turn ts st st' f (rest st' (rw w at e))
    | inr w ↦ earlier turn ts st st' f (over ts st' w)
  ]

  logon_loop-Said :
      (ts : List (Turn W)) (st : LogonState W) (x : Irc W)
      → logon_loop h a t using_sasl ts st ≡ ok (some (x, true))
      → Said using_sasl st ts
  unfolding logon_loop
  logon_loop-Said [] st x e = no_answer e
  logon_loop-Said (turn ∷ ts) st x e =
      round-Said turn ts st x (step h a t turn st) (step-Rounds h a t sound turn st)
        (λ st' e'. logon_loop-Said ts st' x e') e

-- The module is one of the three that register handlers.
abbrev pub is_own : Bytes → Bool
is_own n = same n (codes "track") || (same n (codes "core") || (same n (codes "v3") || false))

-- A slot that is free, whatever is in it but its command, or taken by one of the library's modules.
abbrev pub Own : {W : Type 0} → MsgHnd (Mem (Irc W)) → Type 0
Own s = is_free s.cmd ≡ false → is_own s.module_name ≡ true

module _ {W : Type 0} (h : Host W) where
  Own-Slot : (table : List (MsgHnd (Mem (Irc W)))) → All Own table → All (Slot is_own) table
  Own-Slot [] o = tt
  Own-Slot (s ∷ ss) (e, o) = (λ taken other. absurd (cc (sym other ∙ e taken)), Own-Slot ss o)

  registered-Slot :
      (memory : Bool) (junk : MsgHnd (Mem (Irc W))) (table : List (MsgHnd (Mem (Irc W))))
      (dumb : Bool)
      → All (Slot (λ n. same n (codes "core") || (same n (codes "v3") || false))) table
      → (registered h memory junk table dumb).1 ≡ true
      → All (Slot (λ n. false)) (registered h memory junk table dumb).0
  unfolding registered
  registered-Slot memory junk table dumb s =
      let core = imh_regall h memory junk (unregall table (codes "core")) dumb in
      let core_sound : All (Slot (λ n. same n (codes "v3") || false)) core.0 =
        imh_regall-Slot h _ memory junk _ dumb
          (unregall-Slot (λ n. same n (codes "v3") || false) table (codes "core") s) in
      elim (Bool-cases core.1) [
        | inl e ↦
            rw (e, registered)
              (λ yes.
                v3_regall-Slot h (λ n. false) memory junk _ dumb
                  (unregall-Slot (λ n. false) core.0 (codes "v3") core_sound))
        | inr e ↦ rw (e, registered) (λ yes. absurd (cc yes))
      ]

  -- Sending the logon leaves what is configured for SASL.
  record Alike (x : Irc W) (r : Irc W × Bool) : Type 0 where
    mech : r.0.v3.sasl_mech ≡ x.v3.sasl_mech
    msg : r.0.v3.sasl_msg ≡ x.v3.sasl_msg

  untouched : (x : Irc W) (b : Bool) → Alike x (x, b)
  untouched x b = record { mech = refl; msg = refl }

  irc_write-Alike : (x : Irc W) (line : Bytes) → Alike x (irc_write h x line)
  unfolding irc_write irc_reset
  irc_write-Alike x line = elim (Bool-cases (conn_write h.sockets x.v3.con line).1) [
    | inl e ↦ rw (e, irc_write) record { mech = refl; msg = refl }
    | inr e ↦ rw (e, irc_write) record { mech = refl; msg = refl }
  ]

  Alike-if :
      (x : Irc W) (b : Bool) (r s : Irc W × Bool)
      → Alike x r
      → Alike x s
      → Alike x (if b then r else s)
  Alike-if x true r s p q = p
  Alike-if x false r s p q = q

  Alike-first :
      (x : Irc W) (b : Bool) (r s : (Irc W × Bool) × Bool)
      → Alike x r.0
      → Alike x s.0
      → Alike x (if b then r else s).0
  Alike-first x true r s p q = p
  Alike-first x false r s p q = q

  send_logon-Alike : (a : Account) (x : Irc W) → Alike x (send_logon h a x)
  unfolding send_logon last_part
  send_logon-Alike a x = search (Alike-if, untouched, irc_write-Alike) depth 10

  begin-Alike : (a : Account) (x : Irc W) → Alike x (begin h a x).0
  unfolding begin
  begin-Alike a x =
      Alike-first x x.v3.starttls_first
        (
          (
            with_con h x (conn_write h.sockets x.v3.con (codes "STARTTLS\r\n")).0,
            (conn_write h.sockets x.v3.con (codes "STARTTLS\r\n")).1,
          ),
          false,
        )
        (send_logon h a x, true) record { mech = refl; msg = refl } (send_logon-Alike a x)

  -- What the server has said if a connection succeeds.
  abbrev Replied : Bool → List (Turn W) → Type 0
  Replied using_sasl turns =
      (received ends_logon turns ≡ true) × (using_sasl ≡ true → received ends_sasl turns ≡ true)

  module _ (a : Account) (t : HndTables (Mem (Irc W))) (sound : All (Slot (λ n. false)) t.msghnds)
      (turns : List (Turn W)) where
    begun-Replied :
        (r : (Irc W × Bool) × Bool) (x x' : Irc W)
        → Alike x r.0
        → begun h a t turns r ≡ ok (some (x', true))
        → Replied (is_some x.v3.sasl_mech && is_some x.v3.sasl_msg) turns
    unfolding begun
    begun-Replied ((y, false), sent) x x' k e =
        not_failed (irc_reset h y, false) (x', true) refl refl e
    begun-Replied ((y, true), sent) x x' k e =
        let (l, s) = logon_loop-Said h a t sound _ turns _ x' e in
        (l, λ u. s (rw (k.mech, k.msg) u))

    connected-Replied :
        (x x' : Irc W) (opened : Option (Conn W))
        → x.v3.dumb ≡ false
        → connected h a t turns x opened ≡ ok (some (x', true))
        → Replied (is_some x.v3.sasl_mech && is_some x.v3.sasl_msg) turns
    unfolding connected
    connected-Replied x x' none d e = not_failed (x, false) (x', true) refl refl e
    connected-Replied x x' (some con) d e =
        begun-Replied (begin h a (with_con h x con)) (with_con h x con) x'
          (begin-Alike a (with_con h x con)) (pick-false x.v3.dumb _ _ _ d e)

-- If `irc_connect` says, not in the dumb mode, that a client that does not ask for tracking is logged
-- on, the server has sent a 004 or a 383 by then; and, where SASL is configured, a 903. This holds
-- whatever else is read, and for every table of handlers whose taken slots only the library has
-- registered.
pub irc_connect-received :
    {W : Type 0} (h : Host W) (a : Account) (memory : Bool) (junk : MsgHnd (Mem (Irc W)))
    (t : HndTables (Mem (Irc W))) (opened : Option (Conn W)) (turns : List (Turn W)) (x x' : Irc W)
    → All Own t.msghnds
    → x.v3.dumb ≡ false
    → x.tracking ≡ false
    → irc_connect h a memory junk t opened turns x ≡ ok (some (x', true))
    → (received ends_logon turns ≡ true)
      × ((is_some x.v3.sasl_mech && is_some x.v3.sasl_msg) ≡ true → received ends_sasl turns ≡ true)
unfolding irc_connect cleared reset_state
irc_connect-received h a memory junk t opened turns x x' own d untracked e =
    let table = unregall t.msghnds (codes "track") in
    let kept = unregall-Slot _ t.msghnds (codes "track") (Own-Slot h t.msghnds own) in
    elim (Bool-cases (registered h memory junk table x.v3.dumb).1) [
      | inr r ↦ not_failed (_, false) (x', true) refl refl (rw (r, irc_connect) at e)
      | inl r ↦
          connected-Replied h a
            (record t { msghnds = (registered h memory junk table x.v3.dumb).0 })
            (registered-Slot h memory junk table x.v3.dumb kept r) turns (cleared h x) x' opened d
            (rw (r, irc_connect) at e)
    ]
