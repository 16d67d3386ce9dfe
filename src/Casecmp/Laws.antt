-- ===== src/Casecmp/Laws.antt =====
-- What a comparison under a casemap decides.
use libsrsirc.Base.{
  ℕ, zero, suc, ◌<◌, ◌≡◌, ◌≢◌, refl, ◌↔◌, Bool, true, false, [], ◌∷◌, Bytes, take, length, min, All,
  arith,
}
use libsrsirc.Cmap.{Casemap, rfc1459, strict_rfc1459, ascii, tolower}
use libsrsirc.Casecmp.{pos, char_diff, istrncmp, istrcmp}

tolower-lt : (m : Casemap) (c : ℕ) → c < 256 → tolower c m < 256
unfolding tolower
tolower-lt rfc1459 c h = ground arith
tolower-lt strict_rfc1459 c h = ground arith
tolower-lt ascii c h = ground arith

char_diff-ne : (signed : Bool) (a b : ℕ) → a < 256 → b < 256 → a ≢ b → char_diff signed a b ≢ pos 0
unfolding char_diff
char_diff-ne true a b ha hb ne = ground arith
char_diff-ne false a b ha hb ne = ground arith

pub fold_text : Casemap → Bytes → Bytes
fold_text m [] = []
fold_text m (c ∷ s) = tolower c m ∷ fold_text m s

abbrev pub IsText : Bytes → Type 0
IsText = All (λ c. c < 256)

-- `istrncmp` gives 0 exactly when the first `len` bytes of the two texts, or all of a shorter one,
-- are the same under `tolower`, whether `char` is signed or not.
pub istrncmp-fold :
    (signed : Bool) (m : Casemap) (len : ℕ) (a b : Bytes)
    → IsText a
    → IsText b
    → (istrncmp signed a b len m ≡ pos 0) ↔ (fold_text m (take len a) ≡ fold_text m (take len b))
unfolding istrncmp fold_text
istrncmp-fold signed m zero a b ha hb = (λ _. refl, λ _. refl)
istrncmp-fold signed m (suc len) [] [] ha hb = (λ _. refl, λ _. refl)
istrncmp-fold signed m (suc len) [] (y ∷ b) ha hb = (λ e. cc, λ e. cc)
istrncmp-fold signed m (suc len) (x ∷ a) [] ha hb = (λ e. ground arith, λ e. cc)
istrncmp-fold signed m (suc len) (x ∷ a) (y ∷ b) ha hb =
    let ih = istrncmp-fold signed m len a b ha.1 hb.1 in
    let ne =
      char_diff-ne signed (tolower x m) (tolower y m) (tolower-lt m x ha.0) (tolower-lt m y hb.0) in
    (λ e. ground (arith, ih, ne), λ e. ground (arith, ih, ne))

istrncmp_all :
    (signed : Bool) (m : Casemap) (len : ℕ) (a b : Bytes)
    → min (length a) (length b) < len
    → IsText a
    → IsText b
    → (istrncmp signed a b len m ≡ pos 0) ↔ (fold_text m a ≡ fold_text m b)
unfolding istrncmp fold_text
istrncmp_all signed m zero a b h ha hb = absurd (omega arith)
istrncmp_all signed m (suc len) [] [] h ha hb = (λ _. refl, λ _. refl)
istrncmp_all signed m (suc len) [] (y ∷ b) h ha hb = (λ e. cc, λ e. cc)
istrncmp_all signed m (suc len) (x ∷ a) [] h ha hb = (λ e. ground arith, λ e. cc)
istrncmp_all signed m (suc len) (x ∷ a) (y ∷ b) h ha hb =
    let ih = istrncmp_all signed m len a b (omega arith) ha.1 hb.1 in
    let ne =
      char_diff-ne signed (tolower x m) (tolower y m) (tolower-lt m x ha.0) (tolower-lt m y hb.0) in
    (λ e. ground (arith, ih, ne), λ e. ground (arith, ih, ne))

-- `istrcmp` gives 0 exactly when the two texts are the same under `tolower`: the bound that it
-- passes on cuts nothing off.
pub istrcmp-fold :
    (signed : Bool) (m : Casemap) (a b : Bytes)
    → IsText a
    → IsText b
    → (istrcmp signed a b m ≡ pos 0) ↔ (fold_text m a ≡ fold_text m b)
unfolding istrcmp
istrcmp-fold signed m a b ha hb = istrncmp_all signed m _ a b (omega arith) ha hb
