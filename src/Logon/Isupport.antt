-- ===== src/Logon/Isupport.antt =====
-- The handler of 005 of libsrsirc/irc_msghnd.c, which reads what the server supports. `strtok` cuts
-- as the C library does: a run of delimiters is one.
pub mod Prefix
pub mod Classes
pub mod Results
use libsrsirc.Base.{
  ℕ, zero, suc, ◌+◌, ◌-◌, ◌%◌, bit_or, Bool, true, false, not, ◌&&◌, ◌||◌, Option, none, some, List,
  [], ◌∷◌, ◌++◌, Bytes, codes, ◌==◌, if◌then◌else◌, leb, length, take, drop,
}
use libsrsirc.Base.Mem.{Mem, ok, fault, ◌>>=◌}
use libsrsirc.Cmap.{Casemap, rfc1459, strict_rfc1459, ascii}
use libsrsirc.Text.Ident.Pieces.{before, behind}
use libsrsirc.Proto.{Tokarr}
use libsrsirc.Skmap
use libsrsirc.Skmap.{Skmap}
use libsrsirc.Modes.{ModeTypes}
use libsrsirc.Msg.Res.{proto_err}
use libsrsirc.Logon.{Irc, Host}

fold_ascii : ℕ → ℕ
fold_ascii c = if leb b'A' c && leb c b'Z' then c + 32 else c

-- `lsi_b_strcasecmp(a, b) == 0`
pub same_nocase : Bytes → Bytes → Bool
unfolding fold_ascii
same_nocase [] [] = true
same_nocase [] (b ∷ bs) = false
same_nocase (a ∷ as') [] = false
same_nocase (a ∷ as') (b ∷ bs) = fold_ascii a == fold_ascii b && same_nocase as' bs

pub casemap_of : Bytes → Casemap
casemap_of val =
    if same_nocase val (codes "ascii")
    then ascii
    else if same_nocase val (codes "strict-rfc1459")
    then strict_rfc1459
    else rfc1459

-- The symbols `p` behind the modes `str`.
pub prefix_pair : ModeTypes → Bytes → Option Bytes → ModeTypes × ℕ
prefix_pair t str none = (t, proto_err)
prefix_pair t str (some p) =
    if length str == 0 || not (length str == length p)
    then (t, proto_err)
    else (record t { pfx_modes = take 31 str; pfx_syms = take 31 p }, 0)

-- The first byte is skipped, whatever it is; the rest is copied to an array of 32 bytes.
pub handle_005_prefix : ModeTypes → Bytes → ModeTypes × ℕ
unfolding prefix_pair
handle_005_prefix t [] = (t, proto_err)
handle_005_prefix t (c ∷ val) =
    prefix_pair t (before b')' (take 31 val)) (behind b')' (take 31 val))

-- The end of a token, which is not empty.
pub flush : Bytes → List Bytes → List Bytes
flush [] rest = rest
flush (c ∷ cur) rest = (c ∷ cur) ∷ rest

-- The tokens that `strtok` gives one after another, with `cur` read of the first.
pub strtok_all : ℕ → Bytes → Bytes → List Bytes
unfolding flush
strtok_all d cur [] = flush cur []
strtok_all d cur (c ∷ s) = elim (c == d) [
  | true ↦ flush cur (strtok_all d [] s)
  | false ↦ strtok_all d (cur ++ c ∷ []) s
]

-- The first tokens in `n` arrays of 64 bytes; those without a token are empty.
pub classes : ℕ → List Bytes → List Bytes
classes zero ts = []
classes (suc n) [] = [] ∷ classes n []
classes (suc n) (t ∷ ts) = take 63 t ∷ classes n ts

pub handle_005_chanmodes : ModeTypes → Bytes → ModeTypes
unfolding strtok_all classes
handle_005_chanmodes t val = record t { chanmodes = classes 4 (strtok_all b',' [] (take 63 val)) }

-- A value that is read; it is NULL where there was no memory for it.
needed : {A : Type 0} → Option Bytes → (Bytes → A) → Mem A
needed none f = fault
needed (some v) f = ok (f v)

-- What stands behind the first `=`, if there is one.
value_of : Bytes → Bytes
value_of arg = elim (behind b'=' arg) [ none ↦ [] | some v ↦ v ]

module _ {W : Type 0} (h : Host W) where
  -- What an attribute changes besides the map, with the result, and whether it is the casemapping.
  apply_attr : Irc W → Bytes → Option Bytes → Mem (Irc W × (ℕ × Bool))
  unfolding needed handle_005_prefix handle_005_chanmodes casemap_of same_nocase
  apply_attr x nam val =
      if same_nocase nam (codes "CASEMAPPING")
      then needed val (λ v. (record x { casemap = casemap_of v }, (0, true)))
      else if same_nocase nam (codes "PREFIX")
      then needed val
          (λ v. let r = handle_005_prefix x.types v in (record x { types = r.0 }, (r.1, false)))
      else if same_nocase nam (codes "CHANMODES")
      then needed val (λ v. (record x { types = handle_005_chanmodes x.types v }, (0, false)))
      else if same_nocase nam (codes "CHANTYPES")
      then needed val (λ v. (record x { m005chantypes = take 15 v }, (0, false)))
      else ok (x, (0, false))

  -- The attribute replaces what the map had under its name.
  store_attr : Skmap Bytes → ℕ → Bytes → Option Bytes → Skmap Bytes
  store_attr m z nam val = (Skmap.put (h.attr_put z) (Skmap.del m nam).0 (some nam) val).0

  -- A copy of the value behind the first `=`.
  attr_value : ℕ → Bytes → Option Bytes
  unfolding value_of
  attr_value z arg = if h.attr_dup z then some (value_of arg) else none

  one_attr : Irc W → ℕ → Bytes → Mem (Irc W × (ℕ × Bool))
  unfolding apply_attr store_attr attr_value
  one_attr x z arg =
      let nam = before b'=' arg in
      let val = attr_value z arg in
      apply_attr (record x { m005attrs = store_attr x.m005attrs z nam val }) nam val

  -- Tracking, if it was asked for, waits for the casemapping.
  enable_tracking : Irc W → ℕ → Bool → Irc W × ℕ
  enable_tracking x ret have =
      if have && (x.tracking && not x.tracking_enab)
      then (record x { tracking_enab = h.trk }, ret)
      else (x, ret)

  -- The loop over the attributes, the first of which has the index `z`.
  attr_loop : Tokarr → ℕ → Irc W → ℕ → Bool → Mem (Irc W × ℕ)
  unfolding one_attr enable_tracking
  attr_loop [] z x ret have = ok (enable_tracking x ret have)
  attr_loop (none ∷ args) z x ret have = fault
  attr_loop (some arg ∷ args) z x ret have = one_attr x z arg >>= λ r.
      elim (bit_or ret r.1.0 % 2 == 1) [
        | true ↦ ok (r.0, bit_or ret r.1.0)
        | false ↦ attr_loop args (z + 1) r.0 (bit_or ret r.1.0) (have || r.1.1)
      ]

  pub handle_005 : Irc W → Tokarr → ℕ → Bool → Mem (Irc W × ℕ)
  unfolding attr_loop
  handle_005 x msg nargs logon = attr_loop (take (nargs - 4) (drop 3 msg)) 3 x 0 false
