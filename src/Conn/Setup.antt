-- ===== src/Conn/Setup.antt =====
-- The rest of `struct iconn_s` of libsrsirc/conn.c: `lsi_conn_init`, the setters, `lsi_conn_dispose`
-- and `lsi_conn_connect`. What the code calls to open a socket, to log on to a proxy and to start TLS
-- is an argument (`Dialer`), and so is the clock. Ports have 16 bits and times 64.
pub mod Connected
use libsrsirc.Base.{
  ℕ, zero, suc, ◌+◌, ◌%◌, ◌^◌, Bool, true, false, Option, none, some, [], Bytes, codes, ◌==◌,
  if◌then◌else◌,
}
use libsrsirc.Base.Mem.{Mem, ok, fault, ◌>>=◌}
use libsrsirc.Casecmp.{ℤ, pos, negsuc}
use libsrsirc.Hosts.{check_timeout}
use libsrsirc.Hosts.Spec.{Pxtype, ircpx_http, ircpx_socks4, ircpx_socks5}
use libsrsirc.Conn.{Sockets, Conn, reset}

-- A string that a field owns: NULL, a copy, or one that is freed while the field still points to it.
pub data Owned : Type 0 where
  null : Owned
  held : Bytes → Owned
  freed : Owned

-- `free` of the string.
unfoldable pub free_owned : Owned → Mem Owned
free_owned null = ok null
free_owned (held s) = ok freed
free_owned freed = fault

-- The string, read by a function that takes a pointer to it or NULL.
unfoldable pub contents : Owned → Mem (Option Bytes)
contents null = ok none
contents (held s) = ok (some s)
contents freed = fault

-- A socket that is missing is a negative result, a handle that is missing is NULL.
pub record Dialer (W : Type 0) : Type 0 where
  pub sockets : Sockets W
  pub clock : W → W × ℕ
  pub consocket : Option Bytes → ℕ → Option Bytes → ℕ → ℕ → ℕ → W → W × Option ℕ
  pub blocking : ℕ → Bool → W → W × Bool
  pub px_logon : Pxtype → ℕ → Bytes → ℕ → ℕ → W → W × Bool
  pub sslize : ℕ → Option ℕ → W → W × Option ℕ
  pub mksslctx : W → W × Option ℕ
  pub freesslctx : ℕ → W → W

-- `ptype` is -1 where there is no proxy.
pub record Link (W : Type 0) : Type 0 where
  pub con : Conn W
  pub host : Bytes
  pub port : ℕ
  pub laddr : Owned
  pub lport : ℕ
  pub phost : Option Bytes
  pub pport : ℕ
  pub ptype : ℤ
  pub sctx : Option ℕ

abbrev pub on_net : {W : Type 0} → Link W → W → Link W
on_net l w = record l { con = record l.con { net = w } }

abbrev pub set_sck : {W : Type 0} → Link W → Option ℕ → Link W
set_sck l sck = record l { con = record l.con { sck = sck } }

abbrev pub set_shnd : {W : Type 0} → Link W → Option ℕ → Link W
set_shnd l shnd = record l { con = record l.con { shnd = shnd } }

abbrev pub def_host : Bytes
def_host = codes "localhost"

-- The two flags say whether the allocations succeed.
pub conn_init : {W : Type 0} → Bool → Bool → W → Option (Link W)
conn_init true true w = some (record {
  con = record {
    sck = none;
    shnd = none;
    online = false;
    eof = false;
    ssl = false;
    unread = [];
    net = w;
  };
  host = def_host;
  port = 0;
  laddr = null;
  lport = 0;
  phost = none;
  pport = 0;
  ptype = negsuc 0;
  sctx = none;
})
conn_init block dup w = none

unfoldable pub pxtype : ℤ → Option Pxtype
pxtype (pos zero) = some ircpx_http
pxtype (pos (suc zero)) = some ircpx_socks4
pxtype (pos (suc (suc zero))) = some ircpx_socks5
pxtype (pos (suc (suc (suc n)))) = none
pxtype (negsuc n) = none

-- `ptype != -1`
unfoldable pub has_px : ℤ → Bool
has_px (pos n) = true
has_px (negsuc zero) = false
has_px (negsuc (suc n)) = true

module _ {W : Type 0} where
  -- `dup` says whether the copy succeeds, here and below.
  unfoldable pub set_px : Bool → Link W → Option Bytes → ℕ → ℤ → Link W × Bool
  unfolding pxtype
  set_px dup l none port ptype = (record l { phost = none; ptype = ptype; pport = 0 }, true)
  set_px dup l (some host) port ptype = elim (pxtype ptype) [
    | none ↦ (l, false)
    | some t ↦
        if port == 0
        then (l, false)
        else if dup
        then (record l { pport = port; ptype = ptype; phost = some host }, true)
        else (l, false)
  ]

  unfoldable pub set_localaddr : Bool → Link W → Option Bytes → ℕ → Mem (Link W × Bool)
  unfolding free_owned
  set_localaddr dup l none port =
      free_owned l.laddr >>= λ a. ok (record l { laddr = a; lport = port }, true)
  set_localaddr false l (some addr) port = ok (l, false)
  set_localaddr true l (some addr) port =
      free_owned l.laddr >>= λ a. ok (record l { laddr = held addr; lport = port }, true)

  unfoldable pub set_server : Bool → Link W → Option Bytes → ℕ → Link W × Bool
  set_server false l host port = (l, false)
  set_server true l none port = (record l { host = def_host; port = port }, true)
  set_server true l (some host) port = (record l { host = host; port = port }, true)

  abbrev flag_ssl : Link W → Bool → Link W
  flag_ssl l on = record l { con = record l.con { ssl = on } }

  -- `DEF_PORT_SSL` or `DEF_PORT_PLAIN` where no port is set.
  unfoldable pub real_port : Link W → ℕ
  real_port l = if l.port == 0 then (if l.con.ssl then 6697 else 6667) else l.port

module _ {W : Type 0} (d : Dialer W) where
  unfoldable pub set_ssl : Link W → Bool → Link W × Bool
  set_ssl l true = elim l.sctx [
    | some s ↦ (flag_ssl l true, true)
    | none ↦
        let r = d.mksslctx l.con.net in
        elim r.1 [
          | none ↦ (on_net l r.0, false)
          | some s ↦ (flag_ssl (record (on_net l r.0) { sctx = some s }) true, true)
        ]
  ]
  set_ssl l false = elim l.sctx [
    | none ↦ (flag_ssl l false, true)
    | some s ↦ (flag_ssl (record (on_net l (d.freesslctx s l.con.net)) { sctx = none }) false, true)
  ]

  -- What `lsi_conn_dispose` leaves to be freed.
  unfoldable conn_dispose : Link W → Link W
  unfolding set_ssl
  conn_dispose l = (set_ssl (record l { con = reset d.sockets l.con }) false).0

  -- The socket is closed where a later step fails.
  unfoldable pub give_up : Link W → ℕ → Link W × Bool
  give_up l sck = (set_sck (on_net l (d.sockets.close sck l.con.net)) none, false)

  -- The last step.
  unfoldable pub go_online : Link W → Link W × Bool
  go_online l = (record l { con = record l.con { online = true } }, true)

  unfoldable pub connect_tls : Link W → ℕ → Link W × Bool
  unfolding give_up go_online
  connect_tls l sck =
      let b = d.blocking sck true l.con.net in
      elim b.1 [
        | false ↦ give_up (on_net l b.0) sck
        | true ↦
            let r = d.sslize sck l.sctx b.0 in
            elim r.1 [
              | none ↦ give_up (set_shnd (on_net l r.0) none) sck
              | some h ↦
                  let n = d.blocking sck false r.0 in
                  let y = set_shnd (on_net l n.0) (some h) in
                  elim n.1 [ false ↦ give_up y sck | true ↦ go_online y ]
            ]
      ]

  unfoldable pub connect_rest : Link W → ℕ → Link W × Bool
  unfolding connect_tls go_online
  connect_rest l sck = elim l.con.ssl [ false ↦ go_online l | true ↦ connect_tls l sck ]

  -- `lsi_com_check_timeout`, which asks the clock only where there is a limit.
  time_left : ℕ → W → W × (Bool × ℕ)
  time_left tend w =
      if tend == 0
      then (w, check_timeout 0 0)
      else ((d.clock w).0, check_timeout tend (d.clock w).1)

  -- The type of a proxy that is none of the three fails as a logon does.
  unfoldable pub log_on : Option Pxtype → ℕ → Bytes → ℕ → ℕ → W → W × Bool
  log_on none sck host port trem w = (w, false)
  log_on (some t) sck host port trem w = d.px_logon t sck host port trem w

  unfoldable pub connect_px : Link W → ℕ → ℕ → ℕ → Link W × Bool
  unfolding time_left give_up log_on connect_rest pxtype
  connect_px l sck realport tend =
      let t = time_left tend l.con.net in
      elim t.1.0 [
        | true ↦ give_up (on_net l t.0) sck
        | false ↦
            let b = d.blocking sck false t.0 in
            elim b.1 [
              | false ↦ give_up (on_net l b.0) sck
              | true ↦
                  let r = log_on (pxtype l.ptype) sck l.host realport t.1.1 b.0 in
                  elim r.1 [
                    | false ↦ give_up (on_net l r.0) sck
                    | true ↦ connect_rest (on_net l r.0) sck
                  ]
            ]
      ]

  -- `hardto_us ? lsi_b_tstamp_us() + hardto_us : 0`
  unfoldable pub deadline : ℕ → W → W × ℕ
  deadline hardto w =
      if hardto == 0 then (w, 0) else ((d.clock w).0, ((d.clock w).1 + hardto) % 2 ^ 64)

  unfoldable pub open_sck : Link W → ℕ → ℕ → Option Bytes → W → W × Option ℕ
  unfolding has_px real_port
  open_sck l softto hardto laddr w =
      if has_px l.ptype
      then d.consocket l.phost l.pport laddr l.lport softto hardto w
      else d.consocket (some l.host) (real_port l) laddr l.lport softto hardto w

  -- The steps behind the new socket, which `px_logon` reads from the connection.
  unfoldable pub with_socket : Link W → ℕ → ℕ → Link W × Bool
  unfolding connect_px connect_rest has_px real_port
  with_socket l sck tend =
      let y = set_shnd (set_sck l (some sck)) none in
      elim (has_px l.ptype) [
        | true ↦ connect_px y sck (real_port l) tend
        | false ↦ connect_rest y sck
      ]

  -- The steps of an offline connection whose local address can be read.
  unfoldable pub dial : Link W → ℕ → ℕ → Option Bytes → Link W × Bool
  unfolding deadline open_sck with_socket
  dial l softto hardto laddr =
      let t = deadline hardto l.con.net in
      let s = open_sck l softto hardto laddr t.0 in
      elim s.1 [ none ↦ (on_net l s.0, false) | some sck ↦ with_socket (on_net l s.0) sck t.1 ]

  unfoldable pub conn_connect : Link W → ℕ → ℕ → Mem (Link W × Bool)
  unfolding contents dial
  conn_connect l softto hardto = elim l.con.online [
    | true ↦ ok (l, false)
    | false ↦ contents l.laddr >>= λ laddr. ok (dial l softto hardto laddr)
  ]
