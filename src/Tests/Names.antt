-- ===== src/Tests/Names.antt =====
-- Runs of the nick mutation and of the authentication string.
use libsrsirc.Base.{◌≡◌, ◌<◌, refl, true, ◌∷◌, ◌++◌, Bytes, codes, length, arith, if◌then◌else◌}
use libsrsirc.Base64.{b64_alpha, alpha, quad, b64_core, b64_loop, base64}
use libsrsirc.Base64.Decode.{decode}
use libsrsirc.Sasl.{plain_text, stored_size, sasl_mkplauth}
use libsrsirc.Sasl.Decode.{decode-sasl_mkplauth}

abbrev rest : Bytes
rest = codes "bcdefgh7"

decode-sasl_mkplauth_example :
    ((if true then decode (codes "bWUAbWUAcHc=") else codes "bWUAbWUAcHc=")
      ≡ codes "me" ++ 0 ∷ (codes "me" ++ 0 ∷ codes "pw"))
    × (length (codes "bWUAbWUAcHc=") < 64)
unfolding sasl_mkplauth stored_size plain_text base64 b64_loop b64_core quad alpha b64_alpha
decode-sasl_mkplauth_example =
    decode-sasl_mkplauth true true 64 (codes "me") (codes "pw") (codes "bWUAbWUAcHc=") (omega arith)
      (omega arith) refl
