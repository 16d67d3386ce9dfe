-- ===== src/Tests/Messages.antt =====
-- Runs of the parser, the printer, the tag decoder and the handler tables.
use libsrsirc.Base.{
  ℕ, suc, ◌==◌, ◌≡◌, refl, Bool, true, false, ◌||◌, none, some, List, [], ◌∷◌, ◌++◌, Bytes, codes,
  ◌⊎◌, if◌then◌else◌, arith,
}
use libsrsirc.Base.Mem.{ok}
use libsrsirc.Proto.Words.{is_word}
use libsrsirc.Proto.{has_byte, Tokarr, tokenize, snrcmsg, crlf}
use libsrsirc.Proto.RoundTrip.{is_sendable, wire_params, wire, message, tokenize-snrcmsg}
use libsrsirc.V3.Tags.{mkv3tag}
use libsrsirc.V3.Tags.RoundTrip.{escape, mkv3tag-escape}
use libsrsirc.Msg.{MsgHnd, UMsgHnd, HndTables, reghnd, handle}
use libsrsirc.Msg.Tables.{handlers, has_free, reghnd-handlers}
use libsrsirc.Msg.Dispatch.{run_all, IsCount, handle-run}

abbrev words : List Bytes
words = codes "#chan" ∷ codes "two words" ∷ []

tokenize-snrcmsg_example :
    (snrcmsg 64 (message (some (codes "n!u@h")) (codes "PRIVMSG") words) false
      ≡ ok (wire (some (codes "n!u@h")) (codes "PRIVMSG") words false ++ crlf))
    × (tokenize (wire (some (codes "n!u@h")) (codes "PRIVMSG") words false)
        ≡ (message (some (codes "n!u@h")) (codes "PRIVMSG") words, true))
unfolding has_byte is_word is_sendable wire wire_params
tokenize-snrcmsg_example =
    tokenize-snrcmsg (some (codes "n!u@h")) (codes "PRIVMSG") words false 64 (omega arith) refl refl
      refl (omega arith)

mkv3tag-escape_example :
    mkv3tag (codes "label" ++ b'=' ∷ escape (codes "a; b=\\"))
    ≡ (codes "label", some (codes "a; b=\\"))
mkv3tag-escape_example =
    mkv3tag-escape (codes "label") (codes "a; b=\\") (omega arith) (omega arith) (omega arith)
      (omega arith) (omega arith)

-- A handler that counts its runs and ends the dispatch where the count is 3.
abbrev counting : ℕ → Tokarr → ℕ → Bool → ℕ × ℕ
counting w msg ac logon = (suc w, if w == 2 then 1 else 0)

abbrev free_slot : MsgHnd ℕ
free_slot = record { cmd = []; hndfn = counting; module_name = [] }

abbrev ping_slot : MsgHnd ℕ
ping_slot = record { cmd = codes "PING"; hndfn = counting; module_name = codes "irc" }

reghnd-handlers_example :
    (let r = reghnd true free_slot (ping_slot ∷ []) (codes "CAP") counting (codes "v3") in
      let new : MsgHnd ℕ = record {
        cmd = codes "CAP";
        hndfn = counting;
        module_name = codes "v3";
      } in
      (r.1 ≡ (has_free (ping_slot ∷ []) || true))
      × (((r.1 ≡ false) × (r.0 ≡ ping_slot ∷ []))
          ⊎ ((r.1 ≡ true)
              × ((pre : List (MsgHnd ℕ)) × (post : List (MsgHnd ℕ)) × (handlers (ping_slot ∷ [])
                    ≡ pre ++ post)
                  × (handlers r.0 ≡ pre ++ new ∷ post)))))
reghnd-handlers_example =
    reghnd-handlers true free_slot ping_slot [] b'C' (codes "AP") counting (codes "v3")

abbrev allow : UMsgHnd ℕ
allow = record { cmd = codes "PING"; hndfn = λ w msg ac pre. (suc w, true) }

abbrev tables : HndTables ℕ
tables = record {
  uprehnds = allow ∷ [];
  msghnds = free_slot ∷ ping_slot ∷ ping_slot ∷ [];
  uposthnds = allow ∷ [];
}

abbrev ping : Tokarr
ping = none ∷ some (codes "PING") ∷ some (codes "x") ∷ none ∷ []

handle-run_example :
    (ac : ℕ) × IsCount ping ac
    × (handle tables 0 ping false ≡ ok (run_all tables (codes "PING") ping ac false 0))
handle-run_example = handle-run tables 0 ping false (codes "PING") refl
