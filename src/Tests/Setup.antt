-- ===== src/Tests/Setup.antt =====
-- The setters and the connect at concrete inputs. The world counts the open sockets.
use libsrsirc.Base.{
  ℕ, ◌+◌, ◌-◌, ◌≡◌, refl, Bool, true, false, ◌⊎◌, none, some, List, [], ◌∷◌, codes,
}
use libsrsirc.Base.Mem.{ok}
use libsrsirc.Casecmp.{pos}
use libsrsirc.Conn.Setup.{contents, held, Dialer, Link, on_net, deadline, open_sck, conn_connect}
use libsrsirc.Conn.Setup.Connected.{Connects, conn_connect-Connects}
use libsrsirc.Settings.{is_on, is_one, Settings, Call, ssl, starttls, localaddr, run}
use libsrsirc.Settings.Tls.{orderly, early, allowed, first_after, IsSane, run-IsSane}

abbrev dialer : Dialer ℕ
dialer = record {
  sockets = record {
    write = λ sck buf w. (w, none);
    write_ssl = λ shnd buf w. (w, none);
    close = λ sck w. w - 1;
    sslfin = λ shnd w. w;
  };
  clock = λ w. (w, 17);
  consocket = λ host port laddr lport soft hard w. (w + 1, some 5);
  blocking = λ sck on w. (w, true);
  px_logon = λ t sck host port trem w. (w, true);
  sslize = λ sck sctx w. (w, some 9);
  mksslctx = λ w. (w, some 2);
  freesslctx = λ s w. w;
}

abbrev link : Link ℕ
link = record {
  con = record {
    sck = none;
    shnd = none;
    online = false;
    eof = false;
    ssl = true;
    unread = [];
    net = 0;
  };
  host = codes "irc.example.org";
  port = 0;
  laddr = held (codes "10.0.0.1");
  lport = 0;
  phost = some (codes "proxy");
  pport = 1080;
  ptype = pos 2;
  sctx = some 2;
}

conn_connect-Connects_example :
    (r : Link ℕ × Bool) × (conn_connect dialer link 0 1000 ≡ ok r)
    × (let s = open_sck dialer link 0 1000 (some (codes "10.0.0.1")) (deadline dialer 1000 0).0 in
        ((s.1 ≡ none) × (r ≡ (on_net link s.0, false)))
        ⊎ ((sck : ℕ) × (s.1 ≡ some sck) × Connects dialer link sck r))
unfolding contents
conn_connect-Connects_example =
    conn_connect-Connects dialer link 0 1000 (some (codes "10.0.0.1")) refl refl

abbrev fresh : Settings ℕ
fresh = record {
  link = link;
  pass = none;
  nick = some (codes "srsirc");
  uname = none;
  fname = none;
  sasl_mech = none;
  sasl_msg = none;
  serv_dist = none;
  serv_info = none;
  serv_con = false;
  serv_type = pos 0;
  conflags = 0;
  hcto_us = 0;
  scto_us = 0;
  tracking = false;
  tracking_enab = false;
  dumb = false;
  starttls = false;
  starttls_first = false;
  v3caps = none ∷ none ∷ [];
}

abbrev calls : List Call
calls =
    starttls (pos 1) true
    ∷ ssl false
    ∷ starttls (pos 1) true
    ∷ ssl true
    ∷ localaddr (some (codes "10.0.0.2")) 0
    ∷ starttls (pos 0) true
    ∷ ssl false
    ∷ starttls (pos 2) true
    ∷ ssl true
    ∷ []

run-IsSane_example :
    (y : Settings ℕ) × (run dialer true (λ k n. true) calls fresh ≡ ok y) × IsSane y
unfolding orderly early allowed first_after is_on is_one IsSane
run-IsSane_example =
    run-IsSane dialer true (λ k n. true) calls fresh refl ((refl, λ h. refl), refl, λ h. cc (h))
