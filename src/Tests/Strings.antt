-- ===== src/Tests/Strings.antt =====
-- Runs of the string functions.
use libsrsirc.Base.{
  ◌≡◌, ◌↔◌, true, none, some, Bytes, codes, length, take, replicate, leb, if◌then◌else◌, arith, ◌+◌,
  ◌*◌, ◌/◌,
}
use libsrsirc.Cmap.{rfc1459}
use libsrsirc.Text.{cstr}
use libsrsirc.Text.Ident.{ident2nick, ident2uname, ident2host}
use libsrsirc.Text.Ident.Pieces.{before, behind, or_empty, ident_pieces}
use libsrsirc.Base64.{base64, b64_loop}
use libsrsirc.Base64.Decode.{decode, decode-base64}
use libsrsirc.Casecmp.{pos, istrcmp}
use libsrsirc.Casecmp.Laws.{fold_text, istrcmp-fold}

abbrev room : Bytes
room = replicate 8 7

abbrev identity : Bytes
identity = codes "nick!me@host"

ident_pieces_example :
    (cstr (ident2nick (replicate 16 7) 15 identity) ≡ before b'!' (before b'@' (take 14 identity)))
    × (cstr (ident2uname (replicate 16 7) 15 identity)
        ≡ or_empty (behind b'!' (before b'@' (take 14 identity))))
    × (cstr (ident2host (replicate 16 7) 15 identity) ≡ or_empty (behind b'@' (take 14 identity)))
ident_pieces_example = ident_pieces (replicate 16 7) identity 14 (omega arith) (omega arith)

decode-base64_example :
    (base64 16 (codes "user") ≡ (
      if leb 16 ((length (codes "user") + 2) / 3 * 4)
      then none
      else some (b64_loop (codes "user"))))
    × (length (b64_loop (codes "user")) ≡ (length (codes "user") + 2) / 3 * 4)
    × (decode (b64_loop (codes "user")) ≡ codes "user")
decode-base64_example = decode-base64 16 (codes "user") (omega arith)

istrcmp-fold_example :
    (istrcmp true (codes "Nick[a]") (codes "nICK{A}") rfc1459 ≡ pos 0)
    ↔ (fold_text rfc1459 (codes "Nick[a]") ≡ fold_text rfc1459 (codes "nICK{A}"))
istrcmp-fold_example =
    istrcmp-fold true rfc1459 (codes "Nick[a]") (codes "nICK{A}") (omega arith) (omega arith)
