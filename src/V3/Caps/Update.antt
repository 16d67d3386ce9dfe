-- ===== src/V3/Caps/Update.antt =====
-- What `lsi_v3_update_caps` and `lsi_v3_update_cap` of libsrsirc/v3.c do to the table.
use libsrsirc.Base.{
  ℕ, zero, suc, ◌≤◌, ◌<◌, ◌≡◌, refl, sym, ap, ◌∙◌, Bool, true, false, ◌&&◌, Option, none, some,
  List, [], ◌∷◌, ◌++◌, Bytes, if◌then◌else◌, take, length, take-all, length-take, length-append,
  Bool-cases, Option-cases, inl, inr, arith,
}
use libsrsirc.Msg.{same}
use libsrsirc.Proto.{next_tok, space}
use libsrsirc.Proto.Words.{is_word, next_tok_end, next_tok-words, word_no_space, next_tok-shorter}
use libsrsirc.Text.Ident.Pieces.{before, behind}
use libsrsirc.V3.Caps.{
  Cap, Caps, find_cap, mark_cap, update_cap, update_found, update_token, update_loop, update_caps,
  adddata_of,
}
use libsrsirc.V3.Caps.Want.{same_eq, same_refl, same_other}

update_loop-total :
    (fuel : ℕ) (caps : Caps) (buf : Bytes) (offered : Bool)
    → length buf < fuel
    → (caps' : Caps) × (update_loop fuel caps buf offered ≡ some caps')
unfolding update_loop
update_loop-total zero caps buf o h = absurd (omega arith)
update_loop-total (suc fuel) caps buf o h = elim (Option-cases (next_tok buf space).1) [
  | inl e ↦ (update_token caps (next_tok buf space).0 o, rw (e, update_loop) refl)
  | inr (next, e) ↦
      let (caps', r) =
        update_loop-total fuel (update_token caps (next_tok buf space).0 o) next o
          (omega (arith, next_tok-shorter buf next e)) in
      (caps', rw (e, update_loop) r)
]

-- The tokens, with one space between two.
unfoldable pub cap_line : Bytes → List Bytes → Bytes
cap_line w [] = w
cap_line w (v ∷ ws) = w ++ space ∷ cap_line v ws

unfoldable pub all_tokens : List Bytes → Bool
all_tokens [] = true
all_tokens (w ∷ ws) = is_word w && all_tokens ws

-- One update for each token, from left to right.
unfoldable pub update_tokens : Caps → List Bytes → Bool → Caps
update_tokens caps [] offered = caps
update_tokens caps (w ∷ ws) offered = update_tokens (update_token caps w offered) ws offered

module _ (fuel : ℕ) (caps : Caps) (buf tok : Bytes) (offered : Bool) where
  last_round :
      next_tok buf space ≡ (tok, none)
      → update_loop (suc fuel) caps buf offered ≡ some (update_token caps tok offered)
  unfolding update_loop
  last_round h = rw (h, update_loop) (ap (λ p. some (update_token caps p.0 offered)) h)

  round :
      (next : Bytes)
      → next_tok buf space ≡ (tok, some next)
      → update_loop (suc fuel) caps buf offered
        ≡ update_loop fuel (update_token caps tok offered) next offered
  unfolding update_loop
  round next h =
      rw (h, update_loop)
        (ap (λ p. update_loop fuel (update_token caps p.0 offered) next offered) h)

cap_line-cons : (c : ℕ) (v : Bytes) (ws : List Bytes) → cap_line (c ∷ v) ws ≡ c ∷ cap_line v ws
unfolding cap_line
cap_line-cons c v [] = refl
cap_line-cons c v (w ∷ ws) = refl

update_loop-tokens :
    (fuel : ℕ) (caps : Caps) (w : Bytes) (ws : List Bytes) (offered : Bool)
    → length ws < fuel
    → all_tokens (w ∷ ws) ≡ true
    → update_loop fuel caps (cap_line w ws) offered ≡ some (update_tokens caps (w ∷ ws) offered)
unfolding all_tokens cap_line update_tokens
update_loop-tokens zero caps w ws o f h = absurd (omega arith)
update_loop-tokens (suc fuel) caps w [] o f h =
    last_round fuel caps w w o (next_tok_end w (word_no_space w (ground arith)))
update_loop-tokens (suc fuel) caps w ([] ∷ ws) o f h = unfold is_word in ground arith
update_loop-tokens (suc fuel) caps w ((c ∷ v) ∷ ws) o f h =
    round fuel caps (w ++ space ∷ cap_line (c ∷ v) ws) w o (cap_line (c ∷ v) ws) (
      rw (cap_line-cons c v ws)
        (next_tok-words w c v (cap_line v ws) (ground arith) (ground arith)))
    ∙ update_loop-tokens fuel (update_token caps w o) (c ∷ v) ws o (omega arith) (ground arith)

-- The line ends the loop, whatever it is.
pub update_caps-total :
    (caps : Caps) (line : Bytes) (offered : Bool)
    → (caps' : Caps) × (update_caps caps line offered ≡ some caps')
unfolding update_caps
update_caps-total caps line o =
    update_loop-total 512 caps (take 511 line) o (omega (arith, length-take 511 line))

tokens-fit : (w : Bytes) (ws : List Bytes) → length ws ≤ length (cap_line w ws)
unfolding cap_line
tokens-fit w [] = omega arith
tokens-fit w (v ∷ ws) = omega (arith, length-append w (space ∷ cap_line v ws), tokens-fit v ws)

-- On a line of tokens that fits the buffer, the capabilities are updated token by token.
pub update_caps-tokens :
    (caps : Caps) (w : Bytes) (ws : List Bytes) (offered : Bool)
    → all_tokens (w ∷ ws) ≡ true
    → length (cap_line w ws) ≤ 511
    → update_caps caps (cap_line w ws) offered ≡ some (update_tokens caps (w ∷ ws) offered)
unfolding update_caps
update_caps-tokens caps w ws o h fits =
    rw (take-all 511 (cap_line w ws) fits)
      (update_loop-tokens 512 caps w ws o (omega (arith, tokens-fit w ws)) h)

abbrev pub map_cap : (Cap → Cap) → Option Cap → Option Cap
map_cap f none = none
map_cap f (some c) = some (f c)

-- What is found once `f` is applied to the capability that `cap` names.
unfoldable pub find_marked : Caps → Bytes → (Cap → Cap) → Bytes → Option Cap
find_marked caps cap f name =
    if same cap name then map_cap f (find_cap caps cap) else find_cap caps name

find_cap-update_found :
    (caps : Caps) (cap : Bytes) (f : Cap → Cap) (name : Bytes)
    → ((c : Cap) → (f c).name ≡ c.name)
    → find_cap (update_found caps cap f) name ≡ find_marked caps cap f name
unfolding find_cap update_found find_marked
find_cap-update_found [] cap f name kept = ground arith
find_cap-update_found (none ∷ cs) cap f name kept = find_cap-update_found cs cap f name kept
find_cap-update_found (some c ∷ cs) cap f name kept = elim (Bool-cases (same c.name cap)) [
  | inl e ↦ elim (Bool-cases (same c.name name)) [
    | inl g ↦ rw (e, kept c, g, ap (λ t. same t name) (sym (same_eq c.name cap e)) ∙ g)
    | inr g ↦ rw (e, kept c, g, ap (λ t. same t name) (sym (same_eq c.name cap e)) ∙ g)
  ]
  | inr e ↦ elim (Bool-cases (same c.name name)) [
    | inl g ↦ rw (e, g, same_other c.name cap name e g)
    | inr g ↦ rw (e, g, find_cap-update_found cs cap f name kept)
  ]
]

mark_cap-name :
    (offered : Bool) (text : Option Bytes) (c : Cap) → (mark_cap offered text c).name ≡ c.name
mark_cap-name true none c = refl
mark_cap-name true (some d) c = refl
mark_cap-name false none c = refl
mark_cap-name false (some d) c = refl

-- The capability with the flag `offered` or `enabled` set, and with the first 127 bytes of a value.
unfoldable pub with_token : Bool → Option Bytes → Cap → Cap
with_token offered value c = record c {
  offered = if offered then true else c.offered;
  enabled = if offered then c.enabled else true;
  adddata = elim value [ none ↦ c.adddata | some d ↦ take 127 d ];
}

mark_cap-token :
    (offered : Bool) (value : Option Bytes) → mark_cap offered value ≡ with_token offered value
unfolding with_token
mark_cap-token true none = refl
mark_cap-token true (some d) = refl
mark_cap-token false none = refl
mark_cap-token false (some d) = refl

-- A token `name` or `name=value` sets the flag, on offer or enabled, of the first capability of that
-- name, and stores the first 127 bytes of the value if there is one; nothing else of that capability
-- and no other lookup changes.
pub find_cap-update_token :
    (caps : Caps) (tok : Bytes) (offered : Bool) (name : Bytes)
    → find_cap (update_token caps tok offered) name
      ≡ find_marked caps (before b'=' tok) (with_token offered (behind b'=' tok)) name
unfolding update_token
find_cap-update_token caps tok o name =
    find_cap-update_found caps (before b'=' tok) (mark_cap o (behind b'=' tok)) name
      (mark_cap-name o (behind b'=' tok))
    ∙ ap (λ f. find_marked caps (before b'=' tok) f name) (mark_cap-token o (behind b'=' tok))

-- The data of every capability of the table.
pub all_data : Caps → Bytes → Bool
all_data [] d = true
all_data (none ∷ cs) d = true
all_data (some c ∷ cs) d = same c.adddata d && all_data cs d

-- The data that `update_cap` is given is stored in every capability, whatever its name.
pub all_data-update_cap :
    (caps : Caps) (name : Bytes) (text : Option Bytes) (offered enabled : Option Bool)
    → all_data (update_cap caps name text offered enabled) (adddata_of text) ≡ true
unfolding all_data update_cap
all_data-update_cap [] name d o e = refl
all_data-update_cap (none ∷ cs) name d o e = refl
all_data-update_cap (some c ∷ cs) name d o e = elim (Bool-cases (same c.name name)) [
  | inl h ↦ rw (h, same_refl (adddata_of d)) (all_data-update_cap cs name d o e)
  | inr h ↦ rw (h, same_refl (adddata_of d)) (all_data-update_cap cs name d o e)
]
