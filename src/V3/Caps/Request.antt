-- ===== src/V3/Caps/Request.antt =====
-- A request for capabilities, from `lsi_v3_mk_capreq` of libsrsirc/v3.c, and its acknowledgement.
use libsrsirc.Base.{
  ℕ, suc, ◌+◌, ◌≤◌, ◌<◌, ◌≡◌, refl, sym, ap, ◌∙◌, Bool, true, false, not, ◌&&◌, ◌||◌, Option, none,
  some, List, [], ◌∷◌, ◌++◌, Bytes, if◌then◌else◌, length, length-append, append_assoc, append-nil,
  Bool-cases, inl, inr, arith,
}
use libsrsirc.Msg.{same}
use libsrsirc.Proto.{space, has_byte}
use libsrsirc.Proto.RoundTrip.{ncat_fits, ncat_twice}
use libsrsirc.Proto.Words.{is_word}
use libsrsirc.Text.Ident.Pieces.{before, behind}
use libsrsirc.V3.Caps.{Cap, Caps, find_cap, capreq_loop, mk_capreq, update_token, update_caps}
use libsrsirc.V3.Caps.Want.{same_eq}
use libsrsirc.V3.Caps.Update.{
  cap_line, all_tokens, update_tokens, update_caps-tokens, map_cap, with_token, find_marked,
  find_cap-update_token,
}

-- The names of the capabilities on offer.
unfoldable pub offered_names : Caps → List Bytes
offered_names [] = []
offered_names (none ∷ cs) = []
offered_names (some c ∷ cs) = if c.offered then c.name ∷ offered_names cs else offered_names cs

-- What the names add to a request.
tail_line : Bool → List Bytes → Bytes
tail_line first [] = []
tail_line true (w ∷ ws) = w ++ tail_line false ws
tail_line false (w ∷ ws) = space ∷ (w ++ tail_line false ws)

abbrev is_empty : List Bytes → Bool
is_empty [] = true
is_empty (w ∷ ws) = false

capreq_loop-names :
    (destsz : ℕ) (dest : Bytes) (first : Bool) (cs : Caps)
    → length dest + length (tail_line first (offered_names cs)) < destsz
    → capreq_loop destsz dest first cs
      ≡ (dest ++ tail_line first (offered_names cs), first && is_empty (offered_names cs))
unfolding capreq_loop offered_names tail_line
capreq_loop-names destsz dest true [] room = rw (append-nil dest) refl
capreq_loop-names destsz dest false [] room = rw (append-nil dest) refl
capreq_loop-names destsz dest true (none ∷ cs) room = rw (append-nil dest) refl
capreq_loop-names destsz dest false (none ∷ cs) room = rw (append-nil dest) refl
capreq_loop-names destsz dest true (some c ∷ cs) room = elim (Bool-cases c.offered) [
  | inl e ↦
      let rest = tail_line false (offered_names cs) in
      let room' : length dest + length (c.name ++ rest) < destsz = rw e at room in
      let size = length-append {0} c.name rest in
      rw (e, ncat_fits destsz dest c.name (omega (arith, room', size)))
        (capreq_loop-names destsz (dest ++ c.name) false cs
            (omega (arith, room', size, length-append {0} dest c.name))
          ∙ ap (λ t. (t, false)) (append_assoc dest c.name rest))
  | inr e ↦ rw e (capreq_loop-names destsz dest true cs (rw e at room))
]
capreq_loop-names destsz dest false (some c ∷ cs) room = elim (Bool-cases c.offered) [
  | inl e ↦
      let rest = tail_line false (offered_names cs) in
      let room' : length dest + suc (length (c.name ++ rest)) < destsz = rw e at room in
      let size = length-append {0} c.name rest in
      rw (e, ncat_twice destsz dest (space ∷ []) c.name (omega (arith, room', size)))
        (capreq_loop-names destsz (dest ++ space ∷ c.name) false cs
            (omega (arith, room', size, length-append {0} dest (space ∷ c.name)))
          ∙ ap (λ t. (t, false)) (append_assoc dest (space ∷ c.name) rest))
  | inr e ↦ rw e (capreq_loop-names destsz dest false cs (rw e at room))
]

cap_line-tail : (w : Bytes) (ws : List Bytes) → cap_line w ws ≡ tail_line true (w ∷ ws)
unfolding cap_line tail_line
cap_line-tail w [] = sym (append-nil w)
cap_line-tail w (v ∷ ws) = ap (λ t. w ++ space ∷ t) (cap_line-tail v ws)

-- The name of a capability as it can be requested: a word without `=`.
unfoldable pub all_names : List Bytes → Bool
all_names [] = true
all_names (w ∷ ws) = is_word w && (not (has_byte w b'=') && all_names ws)

pub has_name : List Bytes → Bytes → Bool
has_name [] name = false
has_name (w ∷ ws) name = same w name || has_name ws name

abbrev pub enabled : Cap → Cap
enabled c = record c { enabled = true }

no_value : (w : Bytes) → has_byte w b'=' ≡ false → (before b'=' w ≡ w) × (behind b'=' w ≡ none)
unfolding before behind has_byte
no_value [] h = (refl, refl)
no_value (c ∷ w) h = ground (arith, no_value w)

all_tokens-names : (ws : List Bytes) → all_names ws ≡ true → all_tokens ws ≡ true
unfolding all_names all_tokens
all_tokens-names [] h = refl
all_tokens-names (w ∷ ws) h = ground (arith, all_tokens-names ws)

-- What is found once the capabilities of the names are enabled.
abbrev pub find_enabled : Caps → List Bytes → Bytes → Option Cap
find_enabled caps ws name =
    if has_name ws name then map_cap enabled (find_cap caps name) else find_cap caps name

enabled_twice : (o : Option Cap) → map_cap enabled (map_cap enabled o) ≡ map_cap enabled o
enabled_twice none = refl
enabled_twice (some c) = refl

find_cap-token :
    (caps : Caps) (w name : Bytes)
    → has_byte w b'=' ≡ false
    → find_cap (update_token caps w false) name
      ≡ (if same w name then map_cap enabled (find_cap caps name) else find_cap caps name)
unfolding find_marked with_token
find_cap-token caps w name h =
    find_cap-update_token caps w false name
    ∙ (rw ((no_value w h).0, (no_value w h).1)
        (elim (Bool-cases (same w name)) [
          | inl e ↦ rw e (ap (λ n. map_cap enabled (find_cap caps n)) (same_eq w name e))
          | inr e ↦ rw e refl
        ]))

find_cap-tokens :
    (caps : Caps) (ws : List Bytes) (name : Bytes)
    → all_names ws ≡ true
    → find_cap (update_tokens caps ws false) name ≡ find_enabled caps ws name
unfolding all_names has_name update_tokens
find_cap-tokens caps [] name h = refl
find_cap-tokens caps (w ∷ ws) name h =
    let one = find_cap-token caps w name (ground arith) in
    find_cap-tokens (update_token caps w false) ws name (ground arith)
    ∙ elim (Bool-cases (same w name)) [
      | inl e ↦ elim (Bool-cases (has_name ws name)) [
        | inl f ↦ rw (one, e, f) (enabled_twice (find_cap caps name))
        | inr f ↦ rw (one, e, f) refl
      ]
      | inr e ↦ rw (one, e) refl
    ]

-- A request for the capabilities on offer lists their names, if there is one at all and the buffer,
-- of 512 bytes at most, has room for them; when it is acknowledged as it stands, the capabilities
-- that are found by these names are enabled, and every other lookup gives what it gave. The
-- names are words without `=`.
pub update_caps-mk_capreq :
    (caps : Caps) (destsz : ℕ) (w : Bytes) (ws : List Bytes) (name : Bytes)
    → offered_names caps ≡ w ∷ ws
    → all_names (w ∷ ws) ≡ true
    → length (cap_line w ws) < destsz
    → destsz ≤ 512
    → (mk_capreq caps destsz ≡ (cap_line w ws, true))
      × ((caps' : Caps) × (update_caps caps (mk_capreq caps destsz).0 false ≡ some caps')
          × (find_cap caps' name ≡ find_enabled caps (w ∷ ws) name))
unfolding mk_capreq
update_caps-mk_capreq caps destsz w ws name named words room small =
    let line = cap_line-tail w ws in
    let made : capreq_loop destsz [] true caps ≡ (cap_line w ws, false) =
      capreq_loop-names destsz [] true caps (rw (named, sym line) (omega (arith, room)))
      ∙ rw (named, sym line) refl in
    (
      rw made refl,
      (
        update_tokens caps (w ∷ ws) false,
        rw made
            (update_caps-tokens caps w ws false (all_tokens-names (w ∷ ws) words) (omega arith)),
        find_cap-tokens caps (w ∷ ws) name words,
      ),
    )
