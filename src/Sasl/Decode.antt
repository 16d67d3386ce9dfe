-- ===== src/Sasl/Decode.antt =====
-- The string in base64 decodes to the name, twice, and the password.
use libsrsirc.Base.{
  ℕ, ◌+◌, ◌<◌, ◌≡◌, sym, ap, ◌∙◌, Bool, true, false, Option, none, some, ◌∷◌, ◌++◌, Bytes, leb,
  length, All, All-append, if◌then◌else◌, Bool-cases, inl, inr, arith, ◌*◌, ◌/◌,
}
use libsrsirc.Base64.{base64, b64_loop}
use libsrsirc.Base64.Decode.{IsByte, decode, decode-base64}
use libsrsirc.Sasl.{plain_text, stored_size, sasl_mkplauth}

some_inj : (a b : Bytes) → some a ≡ some b → a ≡ b
some_inj a b h = cc

stored_size-some : (o : Option Bytes) (out : Bytes) → stored_size o ≡ some out → o ≡ some out
unfolding stored_size
stored_size-some none out h = cc
stored_size-some (some d) out h = elim (Bool-cases (leb (length d) 0)) [
  | inl e ↦ cc (rw e at h)
  | inr e ↦ rw e at h
]

decode-base64-some :
    (destsz : ℕ) (text out : Bytes)
    → All IsByte text
    → base64 destsz text ≡ some out
    → (decode out ≡ text) × (length out < destsz)
decode-base64-some destsz text out b h =
    let (e, size, back) = decode-base64 destsz text b in
    elim (Bool-cases (leb destsz ((length text + 2) / 3 * 4))) [
      | inl f ↦ cc (sym e ∙ h, f)
      | inr f ↦
          let made : b64_loop text ≡ out = some_inj _ _ (sym (rw f at e) ∙ h) in
          (ap decode (sym made) ∙ back, ground (arith, size, ap length made))
    ]

-- The string that is stored, plain or in base64, fits the destination with a byte to spare. Plain it
-- is the name, a NUL, the name, a NUL and the password; in base64 it decodes to that. The name and the
-- password are bytes.
pub decode-sasl_mkplauth :
    (memory to_base64 : Bool) (destsz : ℕ) (name pass out : Bytes)
    → All IsByte name
    → All IsByte pass
    → sasl_mkplauth memory destsz name pass to_base64 ≡ some out
    → ((if to_base64 then decode out else out) ≡ name ++ 0 ∷ (name ++ 0 ∷ pass))
      × (length out < destsz)
unfolding sasl_mkplauth plain_text
decode-sasl_mkplauth false to_base64 destsz name pass out hn hp h = cc
decode-sasl_mkplauth true to_base64 destsz name pass out hn hp h =
    elim (Bool-cases (leb destsz (length (plain_text name pass)))) [
      | inl e ↦ cc (rw e at h)
      | inr e ↦ elim (Bool-cases to_base64) [
        | inl b ↦ rw b (
            decode-base64-some destsz (plain_text name pass) out
              (All-append IsByte name _ hn
                (omega arith, All-append IsByte name _ hn (omega arith, hp)))
              (stored_size-some _ out (rw (e, b) at h)))
        | inr b ↦
            let is : plain_text name pass ≡ out = some_inj _ _ (rw (e, b) at h) in
            (rw b (sym is), ground (arith, ap length is))
      ]
    ]
