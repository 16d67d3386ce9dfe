-- ===== src/Logon/UserModes.antt =====
-- What a MODE for the client itself does to the user modes that the context holds.
use libsrsirc.Base.{
  ℕ, ◌+◌, ◌≤◌, ◌≡◌, refl, sym, ap, ◌∙◌, Bool, true, false, ◌||◌, some, [], ◌∷◌, ◌++◌, Bytes, ◌==◌,
  if◌then◌else◌, ltb, length, none, take-all, length-append, get_or, Bool-cases, inl, inr, ==_iff,
  arith,
}
use libsrsirc.Base.Mem.{ok}
use libsrsirc.Proto.{Tokarr, has_byte}
use libsrsirc.Ucbase.{remove_byte}
use libsrsirc.Ucbase.Once.{Once, remove_byte-Once}
use libsrsirc.V3.Handlers.Offers.{arg_at-some}
use libsrsirc.Logon.{Irc, Host, same_nick, umode_loop, handle_mode}

-- Whether a mode is set after the changes `p`, if `was` says whether it was before: the last change
-- of the mode decides, under the last sign before it.
pub set_after : Bytes → Bool → ℕ → Bool → Bool
set_after [] enab c was = was
set_after (x ∷ p) enab c was =
    if x == b'+' || x == b'-'
    then set_after p (x == b'+') c was
    else set_after p enab c (if x == c then enab else was)

append-Once :
    (s : Bytes) (c : ℕ)
    → Once s
    → has_byte s c ≡ false
    → Once (s ++ c ∷ []) × ((q : ℕ) → has_byte (s ++ c ∷ []) q ≡ (has_byte s q || c == q))
unfolding has_byte
append-Once [] c o new = ((refl, tt), λ q. ground arith)
append-Once (x ∷ s) c (lacks, o) new =
    let (o', has) = append-Once s c o (ground arith) in
    ((ground (arith, has x), o'), λ q. ground (arith, has q))

-- A user mode that is set already, or not set, is skipped.
kept_mode :
    (u : Bytes) (c : ℕ) (enab : Bool)
    → has_byte u c ≡ enab
    → (q : ℕ) → has_byte u q ≡ (if c == q then enab else has_byte u q)
kept_mode u c enab e q = elim (Bool-cases (c == q)) [
  | inl f ↦ rw f (ap (has_byte u) (sym ((==_iff c q).0 f)) ∙ e)
  | inr f ↦ rw f refl
]

-- What the loop makes of the modes `u` with the changes `p`.
abbrev Changed : Bytes → Bool → Bytes → (ℕ → Bool) → Type 0
Changed p enab u was =
    Once (umode_loop p enab u)
    × ((q : ℕ) → has_byte (umode_loop p enab u) q ≡ set_after p enab q (was q))

go_on :
    (p : Bytes) (enab : Bool) (u : Bytes) (was : ℕ → Bool)
    → Changed p enab u (has_byte u)
    → ((q : ℕ) → has_byte u q ≡ was q)
    → Changed p enab u was
go_on p enab u was (o, has) e = (o, λ q. has q ∙ ap (set_after p enab q) (e q))

umode_loop-Changed :
    (p : Bytes) (enab : Bool) (u : Bytes)
    → Once u
    → length u + length p ≤ 63
    → Changed p enab u (has_byte u)
unfolding umode_loop set_after
umode_loop-Changed [] enab u o room = (o, λ q. refl)
umode_loop-Changed (c ∷ p) true u o room = elim (Bool-cases (c == b'+' || c == b'-')) [
  | inl e ↦ rw (e, umode_loop, set_after) (umode_loop-Changed p (c == b'+') u o (omega arith))
  | inr e ↦ elim (Bool-cases (has_byte u c)) [
    | inl h ↦
        rw (e, h, umode_loop, set_after)
          (go_on p true u _ (umode_loop-Changed p true u o (omega arith)) (kept_mode u c true h))
    | inr h ↦
        let (o', has) = append-Once u c o h in
        let size : length (u ++ c ∷ []) ≡ length u + 1 = length-append u (c ∷ []) in
        rw (e, h, umode_loop, set_after, take-all 63 (u ++ c ∷ []) (omega (arith, size)))
          (go_on p true (u ++ c ∷ []) _ (umode_loop-Changed p true _ o' (omega (arith, size)))
            (λ q. ground (arith, has q)))
  ]
]
umode_loop-Changed (c ∷ p) false u o room = elim (Bool-cases (c == b'+' || c == b'-')) [
  | inl e ↦ rw (e, umode_loop, set_after) (umode_loop-Changed p (c == b'+') u o (omega arith))
  | inr e ↦ elim (Bool-cases (has_byte u c)) [
    | inr h ↦
        rw (e, h, umode_loop, set_after)
          (go_on p false u _ (umode_loop-Changed p false u o (omega arith)) (kept_mode u c false h))
    | inl h ↦
        let (o', small, has) = remove_byte-Once u c o in
        rw (e, h, umode_loop, set_after)
          (go_on p false (remove_byte u c) _ (umode_loop-Changed p false _ o' (omega arith))
            (λ q. ground (arith, has q)))
  ]
]

-- A MODE with the client as its target changes the user modes one by one: where there is room for
-- the changes, each mode is set afterwards as its last change says, or as it was if it has none, and
-- no mode is held twice. Nothing else in the context changes.
pub handle_mode-Once :
    {W : Type 0} (h : Host W) (x : Irc W) (msg : Tokarr) (nargs : ℕ) (logon : Bool)
    (target modes : Bytes)
    → 4 ≤ nargs
    → get_or msg 2 none ≡ some target
    → get_or msg 3 none ≡ some modes
    → same_nick h.signed target x.mynick x.casemap ≡ true
    → Once x.myumodes
    → length x.myumodes + length modes ≤ 63
    → (u : Bytes) × (handle_mode h x msg nargs logon ≡ ok (record x { myumodes = u }, 0))
      × Once u
      × ((q : ℕ) → has_byte u q ≡ set_after modes true q (has_byte x.myumodes q))
unfolding handle_mode
handle_mode-Once h x msg nargs logon target modes n t m me o room =
    let few : ltb nargs 4 ≡ false = ground arith in
    let (o', has) = umode_loop-Changed modes true x.myumodes o room in
    (
      umode_loop modes true x.myumodes,
      simp (few, arg_at-some msg 2 target t, arg_at-some msg 3 modes m, me),
      o',
      has,
    )
