-- ===== src/Tests/Hosts.antt =====
-- Runs of the test for addresses and of the addresses of the command line.
use libsrsirc.Base.{
  ℕ, ◌≡◌, ◌↔◌, refl, true, false, Option, none, some, All, Bytes, codes, replicate,
}
use libsrsirc.Text.{cstr, str_ncpy}
use libsrsirc.Text.Ident.{strchr}
use libsrsirc.Modes.{count_byte}
use libsrsirc.Hosts.{guess_hosttype, ipv4}
use libsrsirc.Hosts.Dotted.{Numeric, guess_hosttype-ipv4}
use libsrsirc.Hosts.Spec.{
  parse_hostspec, parse_pxspec, px_typenum, px_typestr, Pxtype, ircpx_http, ircpx_socks4,
  ircpx_socks5,
}

abbrev loopback : Bytes
loopback = codes "127.0.0.1"

guess_hosttype-ipv4_example :
    guess_hosttype loopback ≡ ipv4 ↔ (All Numeric loopback × (count_byte loopback b'.' ≡ 3))
guess_hosttype-ipv4_example = guess_hosttype-ipv4 loopback

abbrev host_buffer : Bytes
host_buffer = replicate 32 7

ssl_host :
    (let r = parse_hostspec host_buffer 32 (codes "[::1]:6697/ssl") in
      (cstr r.0 ≡ codes "::1") × (r.1.0 ≡ 6697) × (r.1.1 ≡ true))
unfolding parse_hostspec str_ncpy cstr strchr
ssl_host = (refl, refl, refl)

-- Only the last piece is taken for the sign of TLS, and the port is cut to 16 bits.
plain_host :
    (let r = parse_hostspec host_buffer 32 (codes "irc:65537/ssl2") in
      (cstr r.0 ≡ codes "irc") × (r.1.0 ≡ 1) × (r.1.1 ≡ false))
unfolding parse_hostspec str_ncpy cstr strchr
plain_host = (refl, refl, refl)

pxtype_of : Option (Pxtype × (Bytes × ℕ)) → Option Pxtype
pxtype_of none = none
pxtype_of (some r) = some r.0

-- What stands behind the first six bytes of the type does not count.
long_pxtype :
    pxtype_of (parse_pxspec (replicate 128 7) (replicate 7 7) host_buffer 32 (codes "socks5x:h:80"))
    ≡ some ircpx_socks5
unfolding parse_pxspec str_ncpy cstr strchr pxtype_of
long_pxtype = refl

px_typenum-px_typestr : (t : Option Pxtype) → px_typenum (px_typestr t) ≡ t
unfolding px_typenum px_typestr
px_typenum-px_typestr none = refl
px_typenum-px_typestr (some ircpx_http) = refl
px_typenum-px_typestr (some ircpx_socks4) = refl
px_typenum-px_typestr (some ircpx_socks5) = refl
