-- ===== src/Msg.antt =====
-- The message handler tables and the dispatch of libsrsirc/msg.c. A table is an array of slots; a
-- slot with an empty command is free. `W` is what a handler may change: the rest of the context,
-- without the tables; that the handler of 005 may register others while it runs is left out.
-- Handler functions are arguments of the model, and so is what a grown array holds before it is
-- written (`junk`). The log messages are left out.
pub mod Tables
pub mod Res
pub mod Dispatch
pub mod Outcomes
pub mod Kept
use libsrsirc.Base.{
  ℕ, zero, suc, ◌+◌, ◌%◌, bit_or, Bool, true, false, not, ◌&&◌, Option, none, some, List, [], ◌∷◌,
  ◌++◌, Bytes, ◌==◌, if◌then◌else◌, length, take, drop, get_or, replicate,
}
use libsrsirc.Base.Mem.{Mem, ok, fault}
use libsrsirc.Proto.{Tokarr}

abbrev pub cant_proceed : ℕ
cant_proceed = 1

abbrev pub user_err : ℕ
user_err = 65

-- `strcmp(a, b) == 0`
unfoldable pub same : Bytes → Bytes → Bool
same [] [] = true
same [] (b ∷ bs) = false
same (a ∷ as') [] = false
same (a ∷ as') (b ∷ bs) = a == b && same as' bs

abbrev pub is_free : Bytes → Bool
is_free [] = true
is_free (c ∷ cmd) = false

-- `struct msghnd`, whose command has 32 bytes.
pub record MsgHnd {ℓ} (W : Type ℓ) : Type ℓ where
  pub cmd : Bytes
  pub hndfn : W → Tokarr → ℕ → Bool → W × ℕ
  pub module_name : Bytes

-- `struct umsghnd`
pub record UMsgHnd {ℓ} (W : Type ℓ) : Type ℓ where
  pub cmd : Bytes
  pub hndfn : W → Tokarr → ℕ → Bool → W × Bool

module _ {ℓ} {A : Type ℓ} (cmd_of : A → Bytes) where
  -- The search for a free slot, and the write there; `none` where every slot is taken.
  unfoldable pub fill_free : A → List A → Option (List A)
  fill_free new [] = none
  fill_free new (x ∷ xs) = elim (is_free (cmd_of x)) [
    | true ↦ some (new ∷ xs)
    | false ↦ elim (fill_free new xs) [ none ↦ none | some ys ↦ some (x ∷ ys) ]
  ]

  -- The array behind a doubling: the copy, `new` in the first slot behind it, and free slots.
  unfoldable pub grown : A → A → List A → List A
  grown new blank [] = []
  grown new blank (x ∷ xs) = (x ∷ xs) ++ new ∷ replicate (length xs) blank

  -- A registration in one array, with what its `MALLOC` does.
  unfoldable pub register : Bool → A → A → List A → List A × Bool
  unfolding fill_free grown
  register memory new blank xs = elim (fill_free new xs) [
    | some ys ↦ (ys, true)
    | none ↦ if memory then (grown new blank xs, true) else (xs, false)
  ]

module _ {ℓ} {W : Type ℓ} where
  unfoldable pub reghnd :
      Bool
      → MsgHnd W
      → List (MsgHnd W)
      → Bytes
      → (W → Tokarr → ℕ → Bool → W × ℕ)
      → Bytes
      → List (MsgHnd W) × Bool
  unfolding register
  reghnd memory junk msghnds cmd hndfn module_name =
      register (λ s. s.cmd) memory
        (record { cmd = take 31 cmd; hndfn = hndfn; module_name = module_name })
        (record junk { cmd = [] }) msghnds

  -- The array is the pre or the post array, as `pre` says.
  pub reguhnd :
      Bool
      → UMsgHnd W
      → List (UMsgHnd W)
      → Bytes
      → (W → Tokarr → ℕ → Bool → W × Bool)
      → List (UMsgHnd W) × Bool
  unfolding register
  reguhnd memory junk harr cmd hndfn =
      register (λ s. s.cmd) memory (record { cmd = take 31 cmd; hndfn = hndfn })
        (record junk { cmd = [] }) harr

  unfoldable pub unregall : List (MsgHnd W) → Bytes → List (MsgHnd W)
  unregall [] m = []
  unregall (s ∷ ss) m =
      (if not (is_free s.cmd) && same s.module_name m then record s { cmd = [] } else s)
      ∷ unregall ss m

  -- The loop of `dispatch_uhnd`: `false` where a handler denied.
  pub dispatch_uhnd : W → List (UMsgHnd W) → Bytes → Tokarr → ℕ → Bool → W × Bool
  dispatch_uhnd w [] cmd msg ac pre = (w, true)
  dispatch_uhnd w (s ∷ ss) cmd msg ac pre = elim (is_free s.cmd) [
    | true ↦ dispatch_uhnd w ss cmd msg ac pre
    | false ↦ elim (same cmd s.cmd) [
      | false ↦ dispatch_uhnd w ss cmd msg ac pre
      | true ↦ elim (s.hndfn w msg ac pre).1 [
        | false ↦ ((s.hndfn w msg ac pre).0, false)
        | true ↦ dispatch_uhnd (s.hndfn w msg ac pre).0 ss cmd msg ac pre
      ]
    ]
  ]

  -- The loop of `handle` over the system's handlers, from the result `res` on.
  unfoldable pub dispatch_sys : W → ℕ → List (MsgHnd W) → Bytes → Tokarr → ℕ → Bool → W × ℕ
  dispatch_sys w res [] cmd msg ac logon = (w, res)
  dispatch_sys w res (s ∷ ss) cmd msg ac logon = elim (is_free s.cmd) [
    | true ↦ dispatch_sys w res ss cmd msg ac logon
    | false ↦ elim (same cmd s.cmd) [
      | false ↦ dispatch_sys w res ss cmd msg ac logon
      | true ↦ elim (bit_or res (s.hndfn w msg ac logon).1 % 2 == 1) [
        | true ↦ ((s.hndfn w msg ac logon).0, bit_or res (s.hndfn w msg ac logon).1)
        | false ↦
            dispatch_sys (s.hndfn w msg ac logon).0 (bit_or res (s.hndfn w msg ac logon).1) ss cmd
              msg ac logon
      ]
    ]
  ]

-- `while (ac < COUNTOF(*msg) && (*msg)[ac]) ac++;`
unfoldable pub count_args : Tokarr → ℕ → ℕ
count_args [] ac = ac
count_args (none ∷ ts) ac = ac
count_args (some t ∷ ts) ac = count_args ts (ac + 1)

-- The three tables of the context.
pub record HndTables {ℓ} (W : Type ℓ) : Type ℓ where
  pub uprehnds : List (UMsgHnd W)
  pub msghnds : List (MsgHnd W)
  pub uposthnds : List (UMsgHnd W)

module _ {ℓ} {W : Type ℓ} where
  unfoldable pub after_sys : HndTables W → Bytes → Tokarr → ℕ → Bool → W × ℕ → W × ℕ
  after_sys t cmd msg ac logon (w, res) =
      if res % 2 == 1
      then (w, res)
      else if logon
      then (w, res)
      else if (dispatch_uhnd w t.uposthnds cmd msg ac false).1
      then ((dispatch_uhnd w t.uposthnds cmd msg ac false).0, res)
      else ((dispatch_uhnd w t.uposthnds cmd msg ac false).0, bit_or res user_err)

  unfoldable pub sys_part : HndTables W → W → Bytes → Tokarr → ℕ → Bool → W × ℕ
  unfolding after_sys
  sys_part t w cmd msg ac logon =
      after_sys t cmd msg ac logon (dispatch_sys w 0 t.msghnds cmd msg ac logon)

  unfoldable pub pre_part : HndTables W → W → Bytes → Tokarr → ℕ → Bool → W × ℕ
  unfolding sys_part
  pre_part t w cmd msg ac true = sys_part t w cmd msg ac true
  pre_part t w cmd msg ac false =
      if (dispatch_uhnd w t.uprehnds cmd msg ac true).1
      then sys_part t (dispatch_uhnd w t.uprehnds cmd msg ac true).0 cmd msg ac false
      else ((dispatch_uhnd w t.uprehnds cmd msg ac true).0, user_err)

  unfoldable pub handle_cmd : HndTables W → W → Tokarr → Bool → Option Bytes → Mem (W × ℕ)
  unfolding pre_part
  handle_cmd t w msg logon none = fault
  handle_cmd t w msg logon (some cmd) = ok (pre_part t w cmd msg (count_args (drop 2 msg) 2) logon)

  -- The result and what the handlers left. A message with no command is compared through NULL.
  unfoldable pub handle : HndTables W → W → Tokarr → Bool → Mem (W × ℕ)
  unfolding handle_cmd
  handle t w msg logon = handle_cmd t w msg logon (get_or msg 1 none)
