-- ===== src/Msg/Dispatch.antt =====
-- Dispatch as a run over the handlers of the command.
use libsrsirc.Base.{
  ℕ, zero, suc, ◌+◌, ◌-◌, ◌≤◌, ◌<◌, ◌%◌, ◌≡◌, refl, sym, ap, ◌∙◌, bit_or, Bool, true, false, none,
  some, List, [], ◌∷◌, Bytes, ◌==◌, if◌then◌else◌, get_or, drop, arith,
}
use native.Mathlib.Nat.{zero-add, suc-add}
use libsrsirc.Base.Mem.{ok}
use libsrsirc.Proto.{Tokarr}
use libsrsirc.Msg.{
  MsgHnd, UMsgHnd, HndTables, same, is_free, user_err, dispatch_uhnd, dispatch_sys, count_args,
  handle, handle_cmd, pre_part, after_sys,
}

module _ {ℓ} {A : Type ℓ} (cmd_of : A → Bytes) where
  -- The slots that are registered for the command, in the order of the table.
  pub for_cmd : Bytes → List A → List A
  for_cmd cmd [] = []
  for_cmd cmd (x ∷ xs) =
      if is_free (cmd_of x)
      then for_cmd cmd xs
      else if same cmd (cmd_of x)
      then x ∷ for_cmd cmd xs
      else for_cmd cmd xs

module _ {ℓ} {W : Type ℓ} (msg : Tokarr) (ac : ℕ) where
  -- The user's handlers, each called until one denies.
  pub run_users : Bool → W → List (UMsgHnd W) → W × Bool
  run_users pre w [] = (w, true)
  run_users pre w (s ∷ ss) = elim (s.hndfn w msg ac pre).1 [
    | false ↦ ((s.hndfn w msg ac pre).0, false)
    | true ↦ run_users pre (s.hndfn w msg ac pre).0 ss
  ]

  -- The system's handlers, whose results are joined, until the join says that we can't proceed.
  pub run_sys : Bool → W → ℕ → List (MsgHnd W) → W × ℕ
  run_sys logon w res [] = (w, res)
  run_sys logon w res (s ∷ ss) = elim (bit_or res (s.hndfn w msg ac logon).1 % 2 == 1) [
    | true ↦ ((s.hndfn w msg ac logon).0, bit_or res (s.hndfn w msg ac logon).1)
    | false ↦ run_sys logon (s.hndfn w msg ac logon).0 (bit_or res (s.hndfn w msg ac logon).1) ss
  ]

  dispatch_uhnd-run :
      (w : W) (ss : List (UMsgHnd W)) (cmd : Bytes) (pre : Bool)
      → dispatch_uhnd w ss cmd msg ac pre ≡ run_users pre w (for_cmd (λ s. s.cmd) cmd ss)
  unfolding dispatch_uhnd run_users for_cmd
  dispatch_uhnd-run w [] cmd pre = refl
  dispatch_uhnd-run w (s ∷ ss) cmd pre =
      ground (
        arith,
        dispatch_uhnd-run w ss cmd pre,
        dispatch_uhnd-run (s.hndfn w msg ac pre).0 ss cmd pre,
      )

  dispatch_sys-run :
      (w : W) (res : ℕ) (ss : List (MsgHnd W)) (cmd : Bytes) (logon : Bool)
      → dispatch_sys w res ss cmd msg ac logon ≡ run_sys logon w res (for_cmd (λ s. s.cmd) cmd ss)
  unfolding dispatch_sys run_sys for_cmd
  dispatch_sys-run w res [] cmd logon = refl
  dispatch_sys-run w res (s ∷ ss) cmd logon = ground (
    arith,
    dispatch_sys-run w res ss cmd logon,
    dispatch_sys-run (s.hndfn w msg ac logon).0 (bit_or res (s.hndfn w msg ac logon).1) ss cmd
        logon,
  )

module _ {ℓ} {W : Type ℓ} (t : HndTables W) (cmd : Bytes) (msg : Tokarr) (ac : ℕ) where
  -- The end of a dispatch: the user's post handlers, unless a handler failed.
  run_post : W × ℕ → W × ℕ
  run_post (w, res) =
      let users = run_users msg ac false w (for_cmd (λ s. s.cmd) cmd t.uposthnds) in
      if res % 2 == 1 then (w, res) else (users.0, if users.1 then res else bit_or res user_err)

  -- A dispatch as a run over the handlers of the command: the system's alone while logging on,
  -- else the user's pre handlers, the system's and the user's post handlers, each stage only if
  -- the one before it did not fail.
  pub run_all : Bool → W → W × ℕ
  unfolding run_post
  run_all true w = run_sys msg ac true w 0 (for_cmd (λ s. s.cmd) cmd t.msghnds)
  run_all false w =
      let users = run_users msg ac true w (for_cmd (λ s. s.cmd) cmd t.uprehnds) in
      if users.1
      then run_post (run_sys msg ac false users.0 0 (for_cmd (λ s. s.cmd) cmd t.msghnds))
      else (users.0, user_err)

  after_sys_logon : (r : W × ℕ) → after_sys t cmd msg ac true r ≡ r
  unfolding after_sys
  after_sys_logon (w, res) = ground arith

  after_sys-run : (r : W × ℕ) → after_sys t cmd msg ac false r ≡ run_post r
  unfolding after_sys run_post
  after_sys-run (w, res) = rw dispatch_uhnd-run (ground arith)

  pre_part-run : (logon : Bool) (w : W) → pre_part t w cmd msg ac logon ≡ run_all logon w
  unfolding pre_part run_all
  pre_part-run true w = after_sys_logon _ ∙ dispatch_sys-run msg ac w 0 t.msghnds cmd true
  pre_part-run false w =
      rw (dispatch_uhnd-run msg ac w t.uprehnds cmd true) (simp (after_sys-run, dispatch_sys-run))

count_args-low : (ts : Tokarr) (k : ℕ) → k ≤ count_args ts k
unfolding count_args
count_args-low [] k = omega arith
count_args-low (none ∷ ts) k = omega arith
count_args-low (some t ∷ ts) k = omega (arith, count_args-low ts (k + 1))

counted-some :
    (ts : Tokarr) (k i : ℕ) → k + i < count_args ts k → (a : Bytes) × (get_or ts i none ≡ some a)
unfolding count_args
counted-some [] k i h = absurd (omega arith)
counted-some (none ∷ ts) k i h = absurd (omega arith)
counted-some (some t ∷ ts) k zero h = (t, refl)
counted-some (some t ∷ ts) k (suc i) h = counted-some ts (k + 1) i (omega arith)

counted-none : (ts : Tokarr) (k i : ℕ) → k + i ≡ count_args ts k → get_or ts i none ≡ none
unfolding count_args
counted-none [] k i h = refl
counted-none (none ∷ ts) k zero h = refl
counted-none (none ∷ ts) k (suc i) h = absurd (omega arith)
counted-none (some t ∷ ts) k zero h = absurd (omega (arith, count_args-low ts (k + 1)))
counted-none (some t ∷ ts) k (suc i) h = counted-none ts (k + 1) i (omega arith)

pub get_or-drop : (msg : Tokarr) (k i : ℕ) → get_or (drop k msg) i none ≡ get_or msg (k + i) none
get_or-drop msg zero i = rw zero-add refl
get_or-drop [] (suc k) i = refl
get_or-drop (x ∷ msg) (suc k) i = rw suc-add (get_or-drop msg k i)

-- `ac` is the number of the elements of the array before the first empty one behind the command.
abbrev pub IsCount : Tokarr → ℕ → Type 0
IsCount msg ac =
    (2 ≤ ac)
    × ((i : ℕ) → 2 ≤ i → i < ac → (a : Bytes) × (get_or msg i none ≡ some a))
    × (get_or msg ac none ≡ none)

pub count_args-IsCount : (msg : Tokarr) → IsCount msg (count_args (drop 2 msg) 2)
count_args-IsCount msg =
    let n = count_args (drop 2 msg) 2 in
    let low : 2 ≤ n = count_args-low (drop 2 msg) 2 in
    (
      low,
      λ i le lt.
          let (a, e) = counted-some (drop 2 msg) 2 (i - 2) (omega arith) in
          (a, ap (λ k. get_or msg k none) (omega arith) ∙ sym (get_or-drop msg 2 (i - 2)) ∙ e),
      ap (λ k. get_or msg k none) (omega arith)
          ∙ sym (get_or-drop msg 2 (n - 2))
          ∙ counted-none (drop 2 msg) 2 (n - 2) (omega arith),
    )

-- A message with a command is handled by the handlers that the tables hold for that command, in the
-- order of the tables and stage by stage. The number of arguments that they are given is the index of
-- the first empty element of the array behind the command.
pub handle-run {ℓ} :
    {W : Type ℓ} (t : HndTables W) (w : W) (msg : Tokarr) (logon : Bool) (cmd : Bytes)
    → get_or msg 1 none ≡ some cmd
    → (ac : ℕ) × IsCount msg ac × (handle t w msg logon ≡ ok (run_all t cmd msg ac logon w))
unfolding handle handle_cmd
handle-run t w msg logon cmd e = (
  count_args (drop 2 msg) 2,
  count_args-IsCount msg,
  rw e (ap ok (pre_part-run t cmd msg _ logon w)),
)
