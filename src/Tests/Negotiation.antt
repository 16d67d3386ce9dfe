-- ===== src/Tests/Negotiation.antt =====
-- Runs of the capability table and of the connection.
use libsrsirc.Base.{
  ◌⊎◌, ◌≢◌, ◌≡◌, refl, true, false, none, some, List, [], ◌∷◌, ◌++◌, Bytes, codes, length, arith,
}
use libsrsirc.Proto.{crlf, has_byte}
use libsrsirc.Proto.Words.{is_word}
use libsrsirc.Msg.{same}
use libsrsirc.Text.Ident.Pieces.{before, behind}
use libsrsirc.Conn.{Sockets, Conn, send_wrap, io_write, conn_write_raw, conn_write}
use libsrsirc.Conn.Write.{IsStream, conn_write-wire}
use libsrsirc.V3.Caps.{Cap, Caps, find_cap, wanted, update_caps, update_token}
use libsrsirc.V3.Caps.{mk_capreq}
use libsrsirc.V3.Caps.Request.{offered_names, all_names, find_enabled, update_caps-mk_capreq}
use libsrsirc.V3.Caps.Update.{
  with_token, cap_line, all_tokens, update_tokens, update_caps-total, update_caps-tokens,
  find_marked, find_cap-update_token,
}

abbrev sasl_cap : Cap
sasl_cap = wanted (codes "sasl") true

abbrev tls_cap : Cap
tls_cap = record {
  name = codes "tls";
  adddata = [];
  musthave = true;
  offered = true;
  enabled = false;
}

abbrev caps : Caps
caps = some tls_cap ∷ none ∷ none ∷ []

update_caps-total_example :
    (caps' : Caps) × (update_caps caps (codes " tls=443  sasl ") true ≡ some caps')
update_caps-total_example = update_caps-total caps (codes " tls=443  sasl ") true

abbrev words : List Bytes
words = codes "tls" ∷ []

update_caps-tokens_example :
    update_caps caps (cap_line (codes "sasl=PLAIN") words) true
    ≡ some (update_tokens caps (codes "sasl=PLAIN" ∷ words) true)
unfolding cap_line all_tokens is_word has_byte
update_caps-tokens_example =
    update_caps-tokens caps (codes "sasl=PLAIN") words true refl (omega arith)

find_cap-update_token_example :
    find_cap (update_token caps (codes "tls=443") false) (codes "tls")
    ≡ find_marked caps
        (before b'=' (codes "tls=443"))
        (with_token false (behind b'=' (codes "tls=443")))
        (codes "tls")
find_cap-update_token_example = find_cap-update_token caps (codes "tls=443") false (codes "tls")

-- Sockets that keep what is written, but for a TLS connection, which fails.
abbrev sockets : Sockets Bytes
sockets = record {
  write = λ sck buf w. (w ++ buf, some (length buf));
  write_ssl = λ shnd buf w. (w, none);
  close = λ sck w. w;
  sslfin = λ shnd w. w;
}

abbrev online : Conn Bytes
online = record {
  sck = some 3;
  shnd = none;
  online = true;
  eof = false;
  ssl = false;
  unread = [];
  net = [];
}

sockets-IsStream : IsStream sockets (λ w. w)
unfolding IsStream send_wrap
sockets-IsStream (some sck) none buf w h = refl
sockets-IsStream none none buf w h = cc
sockets-IsStream sck (some shnd) buf w h = cc

conn_write-wire_example :
    (((p : Bytes) × (codes "PING" ≡ p ++ crlf))
      × ((conn_write sockets online (codes "PING")).0.net ≡ codes "PING"))
    ⊎ (((p : Bytes) → codes "PING" ≢ p ++ crlf)
        × ((conn_write sockets online (codes "PING")).0.net ≡ codes "PING" ++ crlf))
unfolding conn_write conn_write_raw io_write send_wrap same
conn_write-wire_example =
    conn_write-wire sockets (λ w. w) online (codes "PING") sockets-IsStream refl

abbrev offers : Caps
offers =
    some (record tls_cap { offered = false })
    ∷ some (record sasl_cap { offered = true })
    ∷ none
    ∷ []

update_caps-mk_capreq_example :
    (mk_capreq offers 119 ≡ (cap_line (codes "sasl") [], true))
    × ((caps' : Caps) × (update_caps offers (mk_capreq offers 119).0 false ≡ some caps')
        × (find_cap caps' (codes "sasl") ≡ find_enabled offers (codes "sasl" ∷ []) (codes "sasl")))
unfolding offered_names all_names is_word has_byte cap_line
update_caps-mk_capreq_example =
    update_caps-mk_capreq offers 119 (codes "sasl") [] (codes "sasl") refl refl (omega arith)
      (omega arith)
