-- ===== src/Tests/Input.antt =====
-- Runs of the reading side.
use libsrsirc.Base.{ℕ, zero, suc, refl, [], ◌∷◌, Bytes, codes, arith}
use libsrsirc.Io.{ReadCtx, Got, got, nothing, failed, at_eof, read_line}
use libsrsirc.Io.Frames.{IsSource, ReadsLine, read_line-ReadsLine}

-- A source that gives at most two bytes a read.
abbrev trickle : ℕ → Bytes → Bytes × Got
trickle zero w = (w, nothing failed)
trickle (suc max) [] = ([], nothing at_eof)
trickle (suc zero) (b ∷ w) = (w, got b [])
trickle (suc (suc max)) (b ∷ []) = ([], got b [])
trickle (suc (suc max)) (b ∷ c ∷ w) = (w, got b (c ∷ []))

trickle-IsSource : IsSource (λ w. w) trickle
trickle-IsSource zero w = refl
trickle-IsSource (suc max) [] = refl
trickle-IsSource (suc zero) (b ∷ w) = (refl, omega arith)
trickle-IsSource (suc (suc max)) (b ∷ []) = (refl, omega arith)
trickle-IsSource (suc (suc max)) (b ∷ c ∷ w) = (refl, omega arith)

abbrev buffered : ReadCtx
buffered = record { off = 4; pending = codes "\r\nPI" }

read_line-ReadsLine_example :
    ReadsLine
      (λ w. w)
      trickle
      trickle-IsSource
      buffered
      (codes "NG x\r\nQ")
      (read_line trickle 64 buffered (codes "NG x\r\nQ"))
read_line-ReadsLine_example =
    read_line-ReadsLine (λ w. w) trickle trickle-IsSource 64 buffered (codes "NG x\r\nQ")
      (omega arith) (omega arith)
