-- ===== src/Msg/Kept.antt =====
-- A property of every slot of a handler table, through registrations.
use libsrsirc.Base.{
  zero, suc, ◌≡◌, refl, subst, Bool, true, false, none, some, List, [], ◌∷◌, Bytes, take, length,
  replicate, All, All-append, ℕ, ◌⊎◌, bit_or, ◌%◌, ◌==◌, get_or, drop, Bool-cases, Option-cases,
  inl, inr, not, ◌&&◌,
}
use libsrsirc.Base.Mem.{ok, fault}
use libsrsirc.Proto.{Tokarr}
use libsrsirc.Msg.{
  MsgHnd, is_free, same, fill_free, grown, register, reghnd, unregall, dispatch_sys, pre_part,
  sys_part, after_sys, handle_cmd, handle, HndTables, count_args,
}

some_inj {ℓ} : {A : Type ℓ} {x y : A} → some x ≡ some y → x ≡ y
some_inj h = cc

no_none {ℓ κ} : {A : Type ℓ} {P : Type κ} {x : A} → none ≡ some x → P
no_none h = cc

even_result {κ} : {b : Bool} {Q : Type κ} → b ≡ false → (b ≡ true) ⊎ Q → Q
even_result e (inl t) = absurd (cc e)
even_result e (inr q) = q

module _ {ℓ κ} {A : Type ℓ} (cmd_of : A → Bytes) (P : A → Type κ) where
  fill_free-All :
      (new : A) (xs ys : List A) → P new → All P xs → fill_free cmd_of new xs ≡ some ys → All P ys
  unfolding fill_free
  fill_free-All new [] ys n h e = no_none e
  fill_free-All new (x ∷ xs) ys n (hx, h) e = elim (Bool-cases (is_free (cmd_of x))) [
    | inl f ↦ subst (All P) (some_inj (rw (f, fill_free) at e)) (n, h)
    | inr f ↦ elim (Option-cases (fill_free cmd_of new xs)) [
      | inl g ↦ no_none (rw (f, g, fill_free) at e)
      | inr (zs, g) ↦
          subst (All P) (some_inj (rw (f, g, fill_free) at e)) (hx, fill_free-All new xs zs n h g)
    ]
  ]

  All-replicate : (n : ℕ) (x : A) → P x → All P (replicate n x)
  All-replicate zero x p = tt
  All-replicate (suc n) x p = (p, All-replicate n x p)

  grown-All :
      (new blank : A) (xs : List A) → P new → P blank → All P xs → All P (grown cmd_of new blank xs)
  unfolding grown
  grown-All new blank [] n b h = tt
  grown-All new blank (x ∷ xs) n b h =
      All-append P (x ∷ xs) _ h (n, All-replicate (length xs) blank b)

  register-All :
      (memory : Bool) (new blank : A) (xs : List A)
      → P new
      → P blank
      → All P xs
      → All P (register cmd_of memory new blank xs).0
  unfolding register
  register-All memory new blank xs n b h = elim (Option-cases (fill_free cmd_of new xs)) [
    | inr (ys, e) ↦ rw (e, register) (fill_free-All new xs ys n h e)
    | inl e ↦ elim (Bool-cases memory) [
      | inl m ↦ rw (e, m, register) (grown-All new blank xs n b h)
      | inr m ↦ rw (e, m, register) h
    ]
  ]

module _ {ℓ κ} {W : Type ℓ} (P : MsgHnd W → Type κ) where
  -- A registration keeps what holds of every slot, of the new one and of a free one.
  pub reghnd-All :
      (memory : Bool) (junk : MsgHnd W) (ss : List (MsgHnd W)) (cmd : Bytes)
      (f : W → Tokarr → ℕ → Bool → W × ℕ) (m : Bytes)
      → P (record { cmd = take 31 cmd; hndfn = f; module_name = m })
      → P (record junk { cmd = [] })
      → All P ss
      → All P (reghnd memory junk ss cmd f m).0
  unfolding reghnd
  reghnd-All memory junk ss cmd f m n b h = register-All (λ s. s.cmd) P memory _ _ ss n b h

module _ {ℓ κ} {W : Type ℓ} (P Q : MsgHnd W → Type κ) where
  -- Unregistering a module frees its slots, and leaves the others.
  pub unregall-All :
      (ss : List (MsgHnd W)) (m : Bytes)
      → ((s : MsgHnd W) → P s → Q (record s { cmd = [] }))
      → ((s : MsgHnd W) → (not (is_free s.cmd) && same s.module_name m) ≡ false → P s → Q s)
      → All P ss
      → All Q (unregall ss m)
  unfolding unregall
  unregall-All [] m free other h = tt
  unregall-All (s ∷ ss) m free other (hs, h) =
      elim (Bool-cases (not (is_free s.cmd) && same s.module_name m)) [
        | inl e ↦ (rw (e, unregall) (free s hs), unregall-All ss m free other h)
        | inr e ↦ (rw (e, unregall) (other s e hs), unregall-All ss m free other h)
      ]

module _ {ℓ κ} {W : Type ℓ} (P : MsgHnd W → Type κ) (E : Bytes → ℕ → Type 0) (msg : Tokarr)
    (ac : ℕ) where
  -- The slots of a command take the joined result from one of the results in `E` to another, or to an
  -- odd one.
  abbrev pub Joins : Bytes → Type (ℓ ⊔ κ)
  Joins cmd =
      (s : MsgHnd W) (w : W) (res : ℕ)
      → P s
      → is_free s.cmd ≡ false
      → same cmd s.cmd ≡ true
      → E cmd res
      → ((bit_or res (s.hndfn w msg ac true).1 % 2 == 1) ≡ true)
        ⊎ E cmd (bit_or res (s.hndfn w msg ac true).1)

  dispatch_sys-Joins :
      (w : W) (res : ℕ) (ss : List (MsgHnd W)) (cmd : Bytes)
      → Joins cmd
      → All P ss
      → E cmd res
      → (((dispatch_sys w res ss cmd msg ac true).1 % 2 == 1) ≡ true)
        ⊎ E cmd (dispatch_sys w res ss cmd msg ac true).1
  unfolding dispatch_sys
  dispatch_sys-Joins w res [] cmd j h e = inr e
  dispatch_sys-Joins w res (s ∷ ss) cmd j (hs, h) e = elim (Bool-cases (is_free s.cmd)) [
    | inl f ↦ rw (f, dispatch_sys) (dispatch_sys-Joins w res ss cmd j h e)
    | inr f ↦ elim (Bool-cases (same cmd s.cmd)) [
      | inr g ↦ rw (f, g, dispatch_sys) (dispatch_sys-Joins w res ss cmd j h e)
      | inl g ↦ elim (Bool-cases (bit_or res (s.hndfn w msg ac true).1 % 2 == 1)) [
        | inl k ↦ rw (f, g, k, dispatch_sys) (inl k)
        | inr k ↦
            rw (f, g, k, dispatch_sys)
              (dispatch_sys-Joins (s.hndfn w msg ac true).0 (bit_or res (s.hndfn w msg ac true).1)
                ss cmd j h (even_result k (j s w res hs f g e)))
      ]
    ]
  ]

  after_sys-same : (t : HndTables W) (cmd : Bytes) (r : W × ℕ) → after_sys t cmd msg ac true r ≡ r
  unfolding after_sys
  after_sys-same t cmd (w, res) = elim (Bool-cases (res % 2 == 1)) [
    | inl e ↦ rw (e, after_sys) refl
    | inr e ↦ rw (e, after_sys) refl
  ]

  pre_part-Joins :
      (t : HndTables W) (w : W) (cmd : Bytes)
      → Joins cmd
      → All P t.msghnds
      → E cmd 0
      → (((pre_part t w cmd msg ac true).1 % 2 == 1) ≡ true)
        ⊎ E cmd (pre_part t w cmd msg ac true).1
  unfolding pre_part sys_part
  pre_part-Joins t w cmd j h e = rw after_sys-same (dispatch_sys-Joins w 0 t.msghnds cmd j h e)

ok_inj {ℓ} : {A : Type ℓ} {x y : A} → ok x ≡ ok y → x ≡ y
ok_inj h = cc

no_fault {ℓ κ} : {A : Type ℓ} {Q : Type κ} {x : A} → fault ≡ ok x → Q
no_fault h = cc

module _ {ℓ κ} {W : Type ℓ} (P : MsgHnd W → Type κ) (E : Bytes → ℕ → Type 0) where
  -- What a dispatch while logging on gives.
  pub handle-Joins :
      (t : HndTables W) (w w' : W) (r : ℕ) (msg : Tokarr)
      → ((cmd : Bytes) → Joins P E msg (count_args (drop 2 msg) 2) cmd)
      → All P t.msghnds
      → ((cmd : Bytes) → E cmd 0)
      → handle t w msg true ≡ ok (w', r)
      → (cmd : Bytes) × (get_or msg 1 none ≡ some cmd) × (((r % 2 == 1) ≡ true) ⊎ E cmd r)
  unfolding handle handle_cmd
  handle-Joins t w w' r msg j h e run = elim (Option-cases (get_or msg 1 none)) [
    | inl g ↦ no_fault (rw (g, handle, handle_cmd) at run)
    | inr (cmd, g) ↦
        let same_run : pre_part t w cmd msg (count_args (drop 2 msg) 2) true ≡ (w', r) =
          ok_inj (rw (g, handle, handle_cmd) at run) in
        (
          cmd,
          g,
          subst (λ (p : W × ℕ). ((p.1 % 2 == 1) ≡ true) ⊎ E cmd p.1) same_run
              (pre_part-Joins P E msg _ t w cmd (j cmd) h (e cmd)),
        )
  ]
