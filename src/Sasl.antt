-- ===== src/Sasl.antt =====
-- `lsi_ut_sasl_mkplauth` of libsrsirc/util.c: the authentication string of SASL PLAIN. The result is
-- what is stored in the destination, whose length is the size that is given back.
pub mod Decode
use libsrsirc.Base.{
  ℕ, Bool, true, false, Option, none, some, ◌∷◌, ◌++◌, Bytes, if◌then◌else◌, leb, length,
}
use libsrsirc.Base64.{base64}

-- What `snprintf` prints.
unfoldable pub plain_text : Bytes → Bytes → Bytes
plain_text name pass = name ++ 0 ∷ (name ++ 0 ∷ pass)

-- A base64 result of 0 bytes is a failure too.
unfoldable pub stored_size : Option Bytes → Option Bytes
stored_size none = none
stored_size (some dest) = if leb (length dest) 0 then none else some dest

unfoldable pub sasl_mkplauth : Bool → ℕ → Bytes → Bytes → Bool → Option Bytes
unfolding stored_size plain_text
sasl_mkplauth memory destsz name pass to_base64 =
    let text = plain_text name pass in
    if memory
    then (if leb destsz (length text)
        then none
        else if to_base64
        then stored_size (base64 destsz text)
        else some text)
    else none
