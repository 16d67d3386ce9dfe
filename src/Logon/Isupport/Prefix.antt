-- ===== src/Logon/Isupport/Prefix.antt =====
-- What the values of a 005 leave in the tables of modes.
use libsrsirc.Base.{
  ℕ, zero, suc, ◌+◌, ◌-◌, ◌≤◌, ◌<◌, ◌≡◌, refl, ap, ◌∙◌, Bool, true, false, not, ◌&&◌, ◌||◌, bit_or,
  ◌%◌, Option, none, some, List, [], ◌∷◌, ◌++◌, Bytes, ◌==◌, codes, length, take, drop, take-all,
  length-take, length-append, Lacks, All, Bool-cases, inl, inr, arith,
}
use libsrsirc.Base.Mem.{Mem, ok, fault, ◌>>=◌}
use libsrsirc.Proto.{Tokarr}
use libsrsirc.Text.Ident.Pieces.{before, behind}
use libsrsirc.Modes.{ModeTypes}
use libsrsirc.Logon.{Irc, Host}
use libsrsirc.Logon.Isupport.{
  prefix_pair, handle_005_prefix, classes, handle_005_chanmodes, same_nocase, apply_attr, needed,
  store_attr, attr_value, value_of, one_attr, enable_tracking, attr_loop, handle_005,
}

before-first :
    (c : ℕ) (s r : Bytes)
    → Lacks c s
    → (before c (s ++ c ∷ r) ≡ s) × (behind c (s ++ c ∷ r) ≡ some r)
unfolding before behind
before-first c [] r z = ground arith
before-first c (x ∷ s) r (ne, z) = ground (arith, before-first c s r z)

-- A value that puts the modes between parentheses and as many symbols behind them, at most 15, is
-- read as these modes and symbols.
pub handle_005_prefix-some :
    (t : ModeTypes) (modes syms : Bytes)
    → Lacks b')' modes
    → length modes ≡ length syms
    → 0 < length modes
    → length modes ≤ 15
    → handle_005_prefix t (b'(' ∷ modes ++ b')' ∷ syms)
      ≡ (record t { pfx_modes = modes; pfx_syms = syms }, 0)
unfolding handle_005_prefix prefix_pair
handle_005_prefix-some t modes syms z same pos small =
    let size = length-append modes (b')' ∷ syms) in
    let (e, f) = before-first b')' modes syms z in
    let nonempty : (length modes == 0 || not (length modes == length syms)) ≡ false =
      ground arith in
    let cut =
      ap (λ v. prefix_pair t (before b')' v) (behind b')' v))
        (take-all 31 (modes ++ b')' ∷ syms) (omega (arith, size))) in
    let copied : prefix_pair t modes (some syms)
        ≡ (record t { pfx_modes = modes; pfx_syms = syms }, 0) =
      rw (prefix_pair, nonempty, take-all 31 modes (omega arith), take-all 31 syms (omega arith))
        refl in
    cut ∙ rw (e, f) copied

-- The tables of modes as the readers of a MODE rely on them: each mode with a prefix has its
-- symbol, there is one, and there are the four classes of modes.
pub record IsPaired (t : ModeTypes) : Type 0 where
  pub same_length : length t.pfx_modes ≡ length t.pfx_syms
  pub some_prefix : 0 < length t.pfx_modes
  pub four_classes : length t.chanmodes ≡ 4

length-take_same :
    (n : ℕ) (a b : Bytes) → length a ≡ length b → length (take n a) ≡ length (take n b)
length-take_same n a b e = omega (arith, length-take n a, length-take n b)

length-take_pos : (n : ℕ) (a : Bytes) → 0 < length a → 0 < length (take (suc n) a)
length-take_pos n [] h = h
length-take_pos n (x ∷ a) h = omega arith

prefix_pair-IsPaired :
    (t : ModeTypes) (str : Bytes) (p : Option Bytes) → IsPaired t → IsPaired (prefix_pair t str p).0
unfolding prefix_pair
prefix_pair-IsPaired t str none v = v
prefix_pair-IsPaired t str (some p) v =
    elim (Bool-cases (length str == 0 || not (length str == length p))) [
      | inl e ↦ rw (e, prefix_pair) v
      | inr e ↦
          rw (e, prefix_pair)
            record {
              same_length = length-take_same 31 str p (ground arith);
              some_prefix = length-take_pos 30 str (ground arith);
              four_classes = v.four_classes;
            }
    ]

handle_005_prefix-IsPaired :
    (t : ModeTypes) (val : Bytes) → IsPaired t → IsPaired (handle_005_prefix t val).0
unfolding handle_005_prefix
handle_005_prefix-IsPaired t [] v = v
handle_005_prefix-IsPaired t (c ∷ val) v =
    prefix_pair-IsPaired t (before b')' (take 31 val)) (behind b')' (take 31 val)) v

length-classes : (n : ℕ) (ts : List Bytes) → length (classes n ts) ≡ n
unfolding classes
length-classes zero ts = refl
length-classes (suc n) [] = ap suc (length-classes n [])
length-classes (suc n) (t ∷ ts) = ap suc (length-classes n ts)

handle_005_chanmodes-IsPaired :
    (t : ModeTypes) (val : Bytes) → IsPaired t → IsPaired (handle_005_chanmodes t val)
unfolding handle_005_chanmodes
handle_005_chanmodes-IsPaired t val v = record {
  same_length = v.same_length;
  some_prefix = v.some_prefix;
  four_classes = length-classes 4 _;
}

module _ {W : Type 0} (h : Host W) where
  -- It was handled, and the tables stay paired.
  abbrev Handled : {A : Type 0} → Mem (Irc W × A) → Type 0
  Handled fault = ⊥
  Handled (ok (x, r)) = IsPaired x.types

  apply_attr-Handled :
      (x : Irc W) (nam val : Bytes) → IsPaired x.types → Handled (apply_attr h x nam (some val))
  unfolding apply_attr needed
  apply_attr-Handled x nam val v = elim (Bool-cases (same_nocase nam (codes "CASEMAPPING"))) [
    | inl e ↦ rw (e, apply_attr) v
    | inr e ↦ elim (Bool-cases (same_nocase nam (codes "PREFIX"))) [
      | inl f ↦ rw (e, f, apply_attr) (handle_005_prefix-IsPaired x.types val v)
      | inr f ↦ elim (Bool-cases (same_nocase nam (codes "CHANMODES"))) [
        | inl g ↦ rw (e, f, g, apply_attr) (handle_005_chanmodes-IsPaired x.types val v)
        | inr g ↦ elim (Bool-cases (same_nocase nam (codes "CHANTYPES"))) [
          | inl k ↦ rw (e, f, g, k, apply_attr) v
          | inr k ↦ rw (e, f, g, k, apply_attr) v
        ]
      ]
    ]
  ]

  tracked-Handled :
      (x : Irc W) (ret : ℕ) (have : Bool)
      → IsPaired x.types
      → Handled (ok (enable_tracking h x ret have))
  unfolding enable_tracking
  tracked-Handled x ret have v = elim (Bool-cases (have && (x.tracking && not x.tracking_enab))) [
    | inl e ↦ rw (e, enable_tracking) v
    | inr e ↦ rw (e, enable_tracking) v
  ]

  -- The rest of the loop, unless the result says that we can't proceed.
  step-Handled :
      (ret : ℕ) (k : Irc W → ℕ → Bool → Mem (Irc W × ℕ))
      → ((x : Irc W) (r : ℕ) (c : Bool) → IsPaired x.types → Handled (k x r c))
      → (m : Mem (Irc W × (ℕ × Bool))) → Handled m
      → Handled (
          m >>= λ r. elim (bit_or ret r.1.0 % 2 == 1) [
            | true ↦ ok (r.0, bit_or ret r.1.0)
            | false ↦ k r.0 r.1.0 r.1.1
          ])
  step-Handled ret k rest fault f = f
  step-Handled ret k rest (ok (x, (r, c))) v = elim (Bool-cases (bit_or ret r % 2 == 1)) [
    | inl e ↦ rw (e, ◌>>=◌, Handled) v
    | inr e ↦ rw (e, ◌>>=◌, Handled) (rest x r c v)
  ]

  Handled-ok :
      {A : Type 0} (m : Mem (Irc W × A))
      → Handled m
      → (x : Irc W) × (r : A) × (m ≡ ok (x, r)) × IsPaired x.types
  Handled-ok fault f = absurd f
  Handled-ok (ok (x, r)) v = (x, r, refl, v)

  -- The arguments are there.
  abbrev Present : Tokarr → Type 0
  Present = All (λ a. (t : Bytes) × (a ≡ some t))

  module _ (copies : (z : ℕ) → h.attr_dup z ≡ true) where
    one_attr-Handled :
        (x : Irc W) (z : ℕ) (arg : Bytes) → IsPaired x.types → Handled (one_attr h x z arg)
    unfolding one_attr attr_value
    one_attr-Handled x z arg v =
        let nam = before b'=' arg in
        let m = store_attr h x.m005attrs z nam (some (value_of arg)) in
        rw (copies z, attr_value)
          (apply_attr-Handled (record x { m005attrs = m }) nam (value_of arg) v)

    attr_loop-Handled :
        (args : Tokarr) (z : ℕ) (x : Irc W) (ret : ℕ) (have : Bool)
        → Present args
        → IsPaired x.types
        → Handled (attr_loop h args z x ret have)
    unfolding attr_loop
    attr_loop-Handled [] z x ret have p v = tracked-Handled x ret have v
    attr_loop-Handled (none ∷ args) z x ret have ((t, e), p) v = absurd (cc e)
    attr_loop-Handled (some arg ∷ args) z x ret have (_, p) v =
        step-Handled ret (λ x' r c. attr_loop h args (z + 1) x' (bit_or ret r) (have || c))
          (λ x' r c v'. attr_loop-Handled args (z + 1) x' (bit_or ret r) (have || c) p v')
          (one_attr h x z arg) (one_attr-Handled x z arg v)

    -- A 005 whose arguments are there and can be copied is handled, whatever they say: there are
    -- still four classes of modes, and each mode with a prefix has its symbol.
    pub handle_005-IsPaired :
        (x : Irc W) (msg : Tokarr) (nargs : ℕ) (logon : Bool)
        → Present (take (nargs - 4) (drop 3 msg))
        → IsPaired x.types
        → (x' : Irc W) × (r : ℕ) × (handle_005 h x msg nargs logon ≡ ok (x', r)) × IsPaired x'.types
    unfolding handle_005
    handle_005-IsPaired x msg nargs logon p v =
        Handled-ok _ (attr_loop-Handled (take (nargs - 4) (drop 3 msg)) 3 x 0 false p v)
