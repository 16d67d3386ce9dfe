-- ===== src/Track/Names/Lists.antt =====
-- The list of names of a 353, entry by entry.
use mathlib.Core.Path.{fun_ext}
use libsrsirc.Base.{
  append-nil, ℕ, zero, suc, ◌≤◌, ◌≡◌, refl, sym, ap, ◌∙◌, true, false, Option, none, some, List, [],
  ◌∷◌, ◌++◌, All, Lacks, Bytes, ◌==◌, if◌then◌else◌, length, take-all, length-append, arith,
}
use libsrsirc.Base.Mem.{Mem, fault}
use libsrsirc.Proto.{has_byte, space}
use libsrsirc.Ucbase.Store.{Ctx, St, ◌>>=◌, done}
use libsrsirc.Track.{enter_chan}
use libsrsirc.Track.Names.{split_space, entry_round, names_loop}

-- A name with a prefix symbol or none.
pub record Name : Type 0 where
  pub symbol : Option ℕ
  pub nick : Bytes

abbrev pub mark : Option ℕ → Bytes
mark none = []
mark (some b) = b ∷ []

abbrev pub word : Name → Bytes
word n = mark n.symbol ++ n.nick

abbrev pub FirstOk : Bytes → Bytes → Type 0
FirstOk syms [] = ⊥
FirstOk syms (b ∷ s) = has_byte syms b ≡ false

abbrev pub SymbolOk : Bytes → Option ℕ → Type 0
SymbolOk syms none = Unit
SymbolOk syms (some b) = has_byte syms b ≡ true

-- A nick has no space and at most 63 bytes, and does not begin with a symbol.
pub record IsName (syms : Bytes) (n : Name) : Type 0 where
  pub no_space : Lacks space n.nick
  pub short : length n.nick ≤ 63
  pub plain : FirstOk syms n.nick
  pub known : SymbolOk syms n.symbol

-- Each name in turn, until one fails; then what comes `last`.
pub enter_names : ℕ → St ℕ → List Name → St ℕ
enter_names c last [] = last
enter_names c last (n ∷ ns) =
    let rest = enter_names c last ns in
    enter_chan c n.nick (mark n.symbol) >>= λ res. if res == 0 then rest else done res

-- The names with a space between them, and with one behind each.
pub spaced : List Name → Bytes
spaced [] = []
spaced (n ∷ []) = word n
spaced (n ∷ n' ∷ ns) = word n ++ (space ∷ spaced (n' ∷ ns))

pub trailed : List Name → Bytes
trailed [] = []
trailed (n ∷ ns) = word n ++ (space ∷ trailed ns)

split_space-end : (s : Bytes) → Lacks space s → split_space s ≡ (s, none)
unfolding split_space
split_space-end [] _ = refl
split_space-end (b ∷ s) (ne, h) = ground (arith, split_space-end s h)

split_space-more : (s t : Bytes) → Lacks space s → split_space (s ++ (space ∷ t)) ≡ (s, some t)
unfolding split_space
split_space-more [] t _ = refl
split_space-more (b ∷ s) t (ne, h) = ground (arith, split_space-more s t h)

module _ (syms : Bytes) (c : ℕ) where
  -- A round on a name, with what the text behind its nick is split into.
  name_round :
      (n : Name) (tail : Bytes) (more : Option Bytes) (f : ℕ)
      → IsName syms n
      → split_space (n.nick ++ tail) ≡ (n.nick, more)
      → (x : Ctx)
      → names_loop (suc f) syms c (word n ++ tail) x
        ≡ (enter_chan c n.nick (mark n.symbol) >>= λ res.
              if res == 0
              then (elim more [ none ↦ done 0 | some rest ↦ names_loop f syms c rest ])
              else done res)
            x
  unfolding names_loop entry_round
  name_round n tail more f h e x = go n.symbol n.nick h.plain h.known h.short e
    where
      go :
          (o : Option ℕ) (s : Bytes)
          → FirstOk syms s
          → SymbolOk syms o
          → length s ≤ 63
          → split_space (s ++ tail) ≡ (s, more)
          → names_loop (suc f) syms c ((mark o ++ s) ++ tail) x
            ≡ (enter_chan c s (mark o) >>= λ res.
                  if res == 0
                  then (elim more [ none ↦ done 0 | some rest ↦ names_loop f syms c rest ])
                  else done res)
                x
      go o [] p k l q = absurd p
      go none (b ∷ s) p k l q = rw (p, q, take-all 63 (b ∷ s) l)
      go (some d) (b ∷ s) p k l q = rw (k, q, take-all 63 (b ∷ s) l)

  abbrev then_loop : St ℕ → Name → Ctx → Mem (ℕ × Ctx)
  then_loop k n = enter_chan c n.nick (mark n.symbol) >>= λ res. if res == 0 then k else done res

  loop-spaced :
      (ns : List Name) (n : Name) (f : ℕ)
      → All (IsName syms) (n ∷ ns)
      → length ns ≤ f
      → names_loop (suc f) syms c (spaced (n ∷ ns)) ≡ enter_names c (done 0) (n ∷ ns)
  unfolding spaced enter_names
  loop-spaced [] n f (h, _) le = fun_ext λ x.
      ap (λ s. names_loop (suc f) syms c s x) (sym (append-nil (word n)))
      ∙ name_round n [] none f h
          (ap split_space (append-nil n.nick) ∙ split_space-end n.nick h.no_space) x
  loop-spaced (n' ∷ ns) n zero (h, hs) le = absurd (omega arith)
  loop-spaced (n' ∷ ns) n (suc f) (h, hs) le = fun_ext λ x.
      name_round n (space ∷ spaced (n' ∷ ns)) (some (spaced (n' ∷ ns))) (suc f) h
        (split_space-more n.nick (spaced (n' ∷ ns)) h.no_space) x
      ∙ ap (λ k. then_loop k n x) (loop-spaced ns n' f hs (omega arith))

  loop-trailed :
      (ns : List Name) (f : ℕ)
      → All (IsName syms) ns
      → length ns ≤ f
      → names_loop (suc f) syms c (trailed ns) ≡ enter_names c (λ x. fault) ns
  unfolding trailed enter_names names_loop
  loop-trailed [] f h le = refl
  loop-trailed (n ∷ ns) zero h le = absurd (omega arith)
  loop-trailed (n ∷ ns) (suc f) (h, hs) le = fun_ext λ x.
      name_round n (space ∷ trailed ns) (some (trailed ns)) (suc f) h
        (split_space-more n.nick (trailed ns) h.no_space) x
      ∙ ap (λ k. then_loop k n x) (loop-trailed ns f hs (omega arith))

  length-spaced :
      (ns : List Name) (n : Name)
      → All (IsName syms) (n ∷ ns)
      → length ns ≤ length (spaced (n ∷ ns))
  unfolding spaced
  length-spaced [] n h = omega arith
  length-spaced (n' ∷ ns) n (h, hs) =
      omega (arith, length-append (word n) (space ∷ spaced (n' ∷ ns)), length-spaced ns n' hs)

  length-trailed : (ns : List Name) → length ns ≤ length (trailed ns)
  unfolding trailed
  length-trailed [] = omega arith
  length-trailed (n ∷ ns) =
      omega (arith, length-append (word n) (space ∷ trailed ns), length-trailed ns)

  -- A list of names with a space between them puts each of them into the channel in turn, with its
  -- symbol, until one fails; the rounds are enough. A list with a space behind each name does so too,
  -- and where none fails the loop then reads behind the end of the text. A name is at most 63 bytes
  -- long, has no space and does not begin with one of the server's symbols.
  pub names_loop-enter_names :
      (n : Name) (ns : List Name)
      → All (IsName syms) (n ∷ ns)
      → (let p = spaced (n ∷ ns) in
          names_loop (suc (length p)) syms c p ≡ enter_names c (done 0) (n ∷ ns))
        × (let p = trailed (n ∷ ns) in
            names_loop (suc (length p)) syms c p ≡ enter_names c (λ x. fault) (n ∷ ns))
  names_loop-enter_names n ns h = (
    loop-spaced ns n (length (spaced (n ∷ ns))) h (length-spaced ns n h),
    loop-trailed (n ∷ ns) (length (trailed (n ∷ ns))) h (length-trailed (n ∷ ns)),
  )
