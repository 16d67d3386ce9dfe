-- ===== src/Tests/Offers.antt =====
-- A run of the handler of `CAP`.
use libsrsirc.Base.{◌≡◌, refl, true, false, none, some, [], ◌∷◌, ◌++◌, Bytes, codes, length, arith}
use libsrsirc.Base.Mem.{ok}
use libsrsirc.Proto.{Tokarr, next_tok, skip_delims, ncat}
use libsrsirc.Msg.{same}
use libsrsirc.Text.Ident.Pieces.{before, behind}
use libsrsirc.Conn.{Sockets, send_wrap, io_write, conn_write_raw, conn_write, needs_crlf}
use libsrsirc.V3.Caps.{
  Cap, find_cap, lacks_cap, check_caps, want_caps, wanted, capreq_loop, mk_capreq, update_found,
  update_token, update_loop, update_caps,
}
use libsrsirc.V3.Caps.Want.{is_compact}
use libsrsirc.V3.Handlers.{
  V3State, send_line, handle_cap_ls, request_caps, behind_ls, updated_caps, handle_cap,
}
use libsrsirc.V3.Handlers.Offers.{handle_cap-find_cap}

abbrev sockets : Sockets Bytes
sockets = record {
  write = λ sck buf w. (w ++ buf, some (length buf));
  write_ssl = λ shnd buf w. (w, none);
  close = λ sck w. w;
  sslfin = λ shnd w. w;
}

abbrev state : V3State Bytes
state = record {
  caps = some (wanted (codes "sasl") true) ∷ none ∷ [];
  capreq = [];
  dumb = false;
  sasl_mech = none;
  sasl_msg = none;
  starttls_first = false;
  con = record {
    sck = some 3;
    shnd = none;
    online = true;
    eof = false;
    ssl = false;
    unread = [];
    net = [];
  };
}

abbrev cap_ls : Tokarr
cap_ls =
    none
    ∷ some (codes "CAP")
    ∷ some (codes "*")
    ∷ some (codes "LS")
    ∷ some (codes "tls sasl=PLAIN")
    ∷ none
    ∷ []

abbrev offered_sasl : Cap
offered_sasl = record {
  name = codes "sasl";
  adddata = codes "PLAIN";
  musthave = true;
  offered = true;
  enabled = false;
}

abbrev requested : V3State Bytes
requested = record state {
  caps = some offered_sasl ∷ none ∷ [];
  capreq = codes "sasl";
  con = record {
    sck = some 3;
    shnd = none;
    online = true;
    eof = false;
    ssl = false;
    unread = [];
    net = codes "CAP REQ :sasl\r\n";
  };
}

handled : handle_cap sockets state cap_ls 5 true ≡ ok (requested, 0)
unfolding handle_cap handle_cap_ls behind_ls request_caps send_line updated_caps update_caps
    update_loop update_token update_found mk_capreq capreq_loop conn_write conn_write_raw io_write
    send_wrap needs_crlf check_caps lacks_cap same before behind next_tok skip_delims ncat
handled = refl

handle_cap-find_cap_example : offered_sasl.offered ≡ true
unfolding find_cap is_compact want_caps same
handle_cap-find_cap_example =
    handle_cap-find_cap sockets state requested cap_ls 5 0 (codes "tls sasl=PLAIN") (codes "sasl")
      offered_sasl (omega arith) refl refl refl handled refl refl refl refl
