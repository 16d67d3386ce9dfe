-- ===== src/Tests/Logon.antt =====
-- Runs of the logon handlers.
use libsrsirc.Base.{
  ℕ, ◌≡◌, refl, true, false, none, some, [], ◌∷◌, ◌++◌, Bytes, codes, ◌==◌, if◌then◌else◌, leb,
  length, take, arith,
}
use libsrsirc.Base.Mem.{ok}
use libsrsirc.Proto.{Tokarr, has_byte}
use libsrsirc.Casecmp.{istrcmp, istrncmp}
use libsrsirc.Cmap.{rfc1459, tolower}
use libsrsirc.Skmap
use libsrsirc.Skmap.{Allocs}
use libsrsirc.Conn.{Sockets}
use libsrsirc.Modes.{ModeTypes}
use libsrsirc.Ucbase.Once.{Once}
use libsrsirc.Logon.{Irc, Host, same_nick, is_zero, handle_mode}
use libsrsirc.Logon.UserModes.{set_after, handle_mode-Once}
use libsrsirc.Logon.Isupport.{handle_005_prefix, handle_005_chanmodes, handle_005}
use libsrsirc.Logon.Isupport.Prefix.{IsPaired, handle_005_prefix-some, handle_005-IsPaired}
use libsrsirc.Logon.Isupport.Classes.{join, padded, handle_005_chanmodes-join}
use libsrsirc.Logon.Connect.{Account, send_logon, irc_write}
use libsrsirc.Logon.Connect.Send.{logon_text, send_logon-fits}

abbrev pub sockets : Sockets Bytes
sockets = record {
  write = λ sck buf w. (w ++ buf, some (length buf));
  write_ssl = λ shnd buf w. (w, none);
  close = λ sck w. w;
  sslfin = λ shnd w. w;
}

abbrev pub host : Host Bytes
host = record {
  sockets = sockets;
  tls = record {
    blocking = λ sck b w. (w, true);
    mksslctx = λ w. (w, none);
    sslize = λ sck ctx w. (w, none);
  };
  signed = true;
  clone = true;
  dup = true;
  attr_dup = λ n. true;
  attr_put = λ n. record { list = true; left = none; dup = true; node = some n };
  trk = true;
}

abbrev pub types : ModeTypes
types = record {
  chanmodes = codes "b" ∷ codes "k" ∷ codes "l" ∷ codes "psitnm" ∷ [];
  pfx_modes = codes "ov";
  pfx_syms = codes "@+";
}

abbrev pub irc : Irc Bytes
irc = record {
  mynick = codes "me";
  myhost = [];
  service = false;
  cmodes = [];
  umodes = [];
  myumodes = codes "i";
  ver = [];
  lasterr = none;
  restricted = false;
  banned = false;
  banmsg = none;
  casemap = rfc1459;
  logonconv = none ∷ none ∷ none ∷ none ∷ [];
  types = types;
  m005chantypes = codes "#&";
  m005attrs = Skmap.fresh 4 rfc1459 0;
  tracking = false;
  tracking_enab = false;
  con_host = codes "host";
  cb_mut_nick = none;
  v3 = record {
    caps = none ∷ [];
    capreq = [];
    dumb = false;
    sasl_mech = none;
    sasl_msg = none;
    starttls_first = false;
    con = record {
      sck = some 3;
      shnd = none;
      online = true;
      eof = false;
      ssl = false;
      unread = [];
      net = [];
    };
  };
}

-- `MODE me +w-i`
abbrev umode_msg : Tokarr
umode_msg = none ∷ some (codes "MODE") ∷ some (codes "me") ∷ some (codes "+w-i") ∷ none ∷ []

handle_mode-Once_example :
    (u : Bytes) × (handle_mode host irc umode_msg 4 false ≡ ok (record irc { myumodes = u }, 0))
    × Once u
    × ((q : ℕ) → has_byte u q ≡ set_after (codes "+w-i") true q (has_byte (codes "i") q))
unfolding same_nick istrcmp istrncmp has_byte is_zero tolower
handle_mode-Once_example =
    handle_mode-Once host irc umode_msg 4 false (codes "me") (codes "+w-i") (omega arith) refl refl
      refl (refl, tt) (omega arith)

handle_005_prefix-some_example :
    handle_005_prefix types (b'(' ∷ codes "qov" ++ b')' ∷ codes "~@+")
    ≡ (record types { pfx_modes = codes "qov"; pfx_syms = codes "~@+" }, 0)
handle_005_prefix-some_example =
    handle_005_prefix-some types (codes "qov") (codes "~@+") (omega arith) refl (omega arith)
      (omega arith)

handle_005_chanmodes-join_example :
    handle_005_chanmodes types (join b',' (codes "beI" ∷ codes "k" ∷ codes "l" ∷ codes "imn" ∷ []))
    ≡ record types { chanmodes = padded 4 (codes "beI" ∷ codes "k" ∷ codes "l" ∷ codes "imn" ∷ []) }
unfolding join
handle_005_chanmodes-join_example =
    handle_005_chanmodes-join types (codes "beI" ∷ codes "k" ∷ codes "l" ∷ codes "imn" ∷ [])
      (omega arith) (omega arith)

-- `005 me PREFIX=(o)@ :are supported`
abbrev isupport_msg : Tokarr
isupport_msg =
    none
    ∷ some (codes "005")
    ∷ some (codes "me")
    ∷ some (codes "PREFIX=(o)@")
    ∷ some (codes "are supported")
    ∷ none
    ∷ []

handle_005-IsPaired_example :
    (x : Irc Bytes) × (r : ℕ) × (handle_005 host irc isupport_msg 5 true ≡ ok (x, r))
    × IsPaired x.types
handle_005-IsPaired_example =
    handle_005-IsPaired host (λ z. refl) irc isupport_msg 5 true ((codes "PREFIX=(o)@", refl), tt)
      record { same_length = refl; some_prefix = omega arith; four_classes = refl }

abbrev pub account : Account
account = record {
  pass = some (codes "secret");
  nick = codes "me";
  uname = codes "user";
  fname = codes "name";
  conflags = codes "8";
  serv_dist = codes "*";
  serv_type = codes "0";
  serv_info = [];
}

send_logon-fits_example : send_logon host account irc ≡ (
    if leb (length (logon_text account irc)) 511
    then irc_write host irc (logon_text account irc)
    else if length (logon_text account irc) == 512
    then irc_write host irc (take 511 (logon_text account irc))
    else (irc, false))
send_logon-fits_example = send_logon-fits host irc account refl
