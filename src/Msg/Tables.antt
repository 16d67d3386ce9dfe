-- ===== src/Msg/Tables.antt =====
-- What a registration and an unregistration do to the handlers that a table holds.
use libsrsirc.Base.{
  ℕ, zero, suc, ◌≡◌, ◌⊎◌, refl, ap, sym, Bool, true, false, ◌||◌, is_some, none, some, List, [],
  ◌∷◌, ◌++◌, Bytes, if◌then◌else◌, ◌∙◌, Bool-cases, Option-cases, inl, inr, length, take, replicate,
  append-nil, arith,
}
use libsrsirc.Proto.{Tokarr}
use libsrsirc.Msg.{is_free, fill_free, grown, register, MsgHnd, reghnd, unregall, same}

module _ {ℓ} {A : Type ℓ} (cmd_of : A → Bytes) where
  -- The slots that are not free, in the order of the table.
  pub taken : List A → List A
  taken [] = []
  taken (x ∷ xs) = if is_free (cmd_of x) then taken xs else x ∷ taken xs

  taken-blank : (n : ℕ) (blank : A) → is_free (cmd_of blank) ≡ true → taken (replicate n blank) ≡ []
  unfolding taken
  taken-blank zero blank h = refl
  taken-blank (suc n) blank h = rw h (taken-blank n blank h)

  taken-append : (xs ys : List A) → taken (xs ++ ys) ≡ taken xs ++ taken ys
  unfolding taken
  taken-append [] ys = refl
  taken-append (x ∷ xs) ys = ground (arith, taken-append xs ys)

  some_inj : {xs ys : List A} → some xs ≡ some ys → xs ≡ ys
  some_inj h = cc

  no_none {κ} : {P : Type κ} {x : List A} → none ≡ some x → P
  no_none h = cc

  -- What a successful search has done: one free slot was overwritten.
  record Filled (new : A) (xs ys : List A) : Type ℓ where
    pre : List A
    slot : A
    post : List A
    before : xs ≡ pre ++ slot ∷ post
    after : ys ≡ pre ++ new ∷ post
    free : is_free (cmd_of slot) ≡ true

  fill_free-Filled :
      (new : A) (xs ys : List A) → fill_free cmd_of new xs ≡ some ys → Filled new xs ys
  unfolding fill_free
  fill_free-Filled new [] ys h = cc
  fill_free-Filled new (x ∷ xs) ys h = elim (Bool-cases (is_free (cmd_of x))) [
    | inl e ↦ record {
      pre = [];
      slot = x;
      post = xs;
      before = refl;
      after = sym (some_inj (rw (e, fill_free) at h));
      free = e;
    }
    | inr e ↦ elim (Option-cases (fill_free cmd_of new xs)) [
      | inl n ↦ no_none (rw (e, n, fill_free) at h)
      | inr (zs, n) ↦
          let f = fill_free-Filled new xs zs n in
          record {
            pre = x ∷ f.pre;
            slot = f.slot;
            post = f.post;
            before = ap (λ t. x ∷ t) f.before;
            after = sym (some_inj (rw (e, n, fill_free) at h)) ∙ ap (λ t. x ∷ t) f.after;
            free = f.free;
          }
    ]
  ]

  module _ (new blank : A) (used : is_free (cmd_of new) ≡ false)
      (empty : is_free (cmd_of blank) ≡ true) where
    -- The new one stands somewhere among the others, which keep their order.
    abbrev Inserted : List A → List A → Type ℓ
    Inserted xs ys =
        (pre : List A) × (post : List A) × (xs ≡ pre ++ post) × (ys ≡ pre ++ new ∷ post)

    fill_free-Inserted :
        (xs ys : List A) → fill_free cmd_of new xs ≡ some ys → Inserted (taken xs) (taken ys)
    unfolding taken
    fill_free-Inserted xs ys h =
        let f = fill_free-Filled new xs ys h in
        (
          taken f.pre,
          taken f.post,
          ap taken f.before
              ∙ taken-append f.pre (f.slot ∷ f.post)
              ∙ ap (λ t. taken f.pre ++ t) (rw f.free refl),
          ap taken f.after
              ∙ taken-append f.pre (new ∷ f.post)
              ∙ ap (λ t. taken f.pre ++ t) (rw used refl),
        )

    grown-Inserted :
        (x : A) (xs : List A) → Inserted (taken (x ∷ xs)) (taken (grown cmd_of new blank (x ∷ xs)))
    unfolding grown taken
    grown-Inserted x xs = (
      taken (x ∷ xs),
      [],
      sym (append-nil (taken (x ∷ xs))),
      taken-append (x ∷ xs) (new ∷ replicate (length xs) blank)
          ∙ ap (λ t. taken (x ∷ xs) ++ t)
              (rw used (ap (λ t. new ∷ t) (taken-blank (length xs) blank empty))),
    )

    register-cases :
        (memory : Bool) (x : A) (xs : List A)
        → (let r = register cmd_of memory new blank (x ∷ xs) in
            (r.1 ≡ (is_some (fill_free cmd_of new (x ∷ xs)) || memory))
            × (((r.1 ≡ false) × (r.0 ≡ x ∷ xs))
                ⊎ ((r.1 ≡ true) × Inserted (taken (x ∷ xs)) (taken r.0))))
    unfolding register
    register-cases memory x xs = elim (Option-cases (fill_free cmd_of new (x ∷ xs))) [
      | inr (ys, e) ↦ rw (e, register) (refl, inr (refl, fill_free-Inserted (x ∷ xs) ys e))
      | inl e ↦ elim (Bool-cases memory) [
        | inl m ↦ rw (e, m, register) (refl, inr (refl, grown-Inserted x xs))
        | inr m ↦ rw (e, m, register) (refl, inl (refl, refl))
      ]
    ]

module _ {ℓ} {W : Type ℓ} where
  -- The handlers of a table.
  abbrev pub handlers : List (MsgHnd W) → List (MsgHnd W)
  handlers = taken (λ s. s.cmd)

  -- Some slot of the table is free.
  pub has_free : List (MsgHnd W) → Bool
  has_free [] = false
  has_free (s ∷ ss) = is_free s.cmd || has_free ss

  has_free-fill :
      (new : MsgHnd W) (ss : List (MsgHnd W))
      → is_some (fill_free (λ s. s.cmd) new ss) ≡ has_free ss
  unfolding has_free fill_free
  has_free-fill new [] = refl
  has_free-fill new (s ∷ ss) = ground (arith, has_free-fill new ss)

  -- Registering a handler for a command fails exactly when no slot is free and there is no memory for
  -- a larger table, and then the table stays as it was. Else the table, which is never empty, holds
  -- the handlers that it held, in their order, and somewhere among them the new one, for the first 31
  -- bytes of the command.
  pub reghnd-handlers :
      (memory : Bool) (junk s : MsgHnd W) (ss : List (MsgHnd W)) (c : ℕ) (cmd : Bytes)
      (f : W → Tokarr → ℕ → Bool → W × ℕ) (m : Bytes)
      → (let r = reghnd memory junk (s ∷ ss) (c ∷ cmd) f m in
          let new : MsgHnd W = record { cmd = take 31 (c ∷ cmd); hndfn = f; module_name = m } in
          (r.1 ≡ (has_free (s ∷ ss) || memory))
          × (((r.1 ≡ false) × (r.0 ≡ s ∷ ss))
              ⊎ ((r.1 ≡ true)
                  × ((pre : List (MsgHnd W)) × (post : List (MsgHnd W)) × (handlers (s ∷ ss)
                        ≡ pre ++ post)
                      × (handlers r.0 ≡ pre ++ new ∷ post)))))
  unfolding reghnd
  reghnd-handlers memory junk s ss c cmd f m =
      let (e, p) =
        register-cases (λ (t : MsgHnd W). t.cmd)
          (record { cmd = take 31 (c ∷ cmd); hndfn = f; module_name = m })
          (record junk { cmd = [] }) refl refl memory s ss in
      (e ∙ ap (λ b. b || memory) (has_free-fill _ (s ∷ ss)), p)

  -- The handlers that another module registered.
  pub others : Bytes → List (MsgHnd W) → List (MsgHnd W)
  others m [] = []
  others m (s ∷ ss) = if same s.module_name m then others m ss else s ∷ others m ss

  -- Unregistering a module frees the slots of its handlers, and keeps the others in their order.
  pub unregall-others :
      (ss : List (MsgHnd W)) (m : Bytes) → handlers (unregall ss m) ≡ others m (handlers ss)
  unfolding unregall taken others
  unregall-others [] m = refl
  unregall-others (s ∷ ss) m = ground (arith, unregall-others ss m)
