-- ===== src/Hosts/Spec.antt =====
-- The addresses of the command line: `lsi_ut_parse_hostspec` and `lsi_ut_parse_pxspec` of
-- libsrsirc/util.c, and `lsi_px_typenum` and `lsi_px_typestr` of libsrsirc/px.c. `hoststr` and the
-- local arrays are lists of all their bytes, so what a local array held before is an argument.
-- `strtoul` is that of the C library for base 10, with 64 bits in an `unsigned long`.
use libsrsirc.Base.{
  ℕ, ◌+◌, ◌-◌, ◌*◌, ◌%◌, ◌^◌, Bool, true, false, Option, none, some, [], ◌∷◌, Bytes, codes, ◌==◌,
  ◌&&◌, ◌||◌, if◌then◌else◌, leb, ltb, get_or, set, drop,
}
use libsrsirc.Text.{cstr, str_ncpy}
use libsrsirc.Text.Ident.{map_suc, strchr}
use libsrsirc.Hosts.{is_digit}

-- `strstr(s, t)`, as an index.
starts_with : Bytes → Bytes → Bool
starts_with s [] = true
starts_with [] (c ∷ t) = false
starts_with (x ∷ s) (c ∷ t) = x == c && starts_with s t

strstr : Bytes → Bytes → Option ℕ
unfolding starts_with
strstr [] t = if starts_with [] t then some 0 else none
strstr (c ∷ s) t =
    let later = map_suc (strstr s t) in if starts_with (c ∷ s) t then some 0 else later

is_space : ℕ → Bool
is_space c = c == b' ' || (leb 9 c && leb c 13)

digits : Bytes → ℕ → ℕ
digits [] v = v
digits (c ∷ s) v = let rest = digits s (v * 10 + (c - b'0')) in if is_digit c then rest else v

-- A value that does not fit is `ULONG_MAX`, whatever its sign.
bounded : Bool → ℕ → ℕ
bounded minus v = if leb (2 ^ 64) v then 2 ^ 64 - 1 else if minus then (2 ^ 64 - v) % 2 ^ 64 else v

signed : Bytes → ℕ
unfolding digits bounded
signed [] = 0
signed (c ∷ s) =
    if c == b'-'
    then bounded true (digits s 0)
    else if c == b'+'
    then bounded false (digits s 0)
    else bounded false (digits (c ∷ s) 0)

strtoul : Bytes → ℕ
unfolding signed is_space
strtoul [] = 0
strtoul (c ∷ s) = let rest = strtoul s in if is_space c then rest else signed (c ∷ s)

-- The place of "/ssl", or else that of "/SSL".
ssl_at : Bytes → Option ℕ
unfolding strstr
ssl_at hoststr = elim (strstr (cstr hoststr) (codes "/ssl")) [
  | none ↦ strstr (cstr hoststr) (codes "/SSL")
  | some i ↦ some i
]

-- `if (ptr && !ptr[4])`: `hoststr`, cut there, and `*ssl`.
cut_ssl : Bytes → Option ℕ → Bytes × Bool
cut_ssl hoststr none = (hoststr, false)
cut_ssl hoststr (some i) =
    if get_or hoststr (i + 4) 0 == 0 then (set hoststr i 0, true) else (hoststr, false)

-- `hoststr`, cut at the bracket, and the index where the search for the port starts.
cut_bracket : Bytes → Option ℕ → Bytes × ℕ
cut_bracket hoststr none = (hoststr, 0)
cut_bracket hoststr (some i) = (set hoststr i 0, i + 1)

-- The colon's index counts from `p` on.
cut_port : Bytes → ℕ → Option ℕ → Bytes × ℕ
unfolding strtoul
cut_port hoststr p none = (hoststr, 0)
cut_port hoststr p (some i) =
    (set hoststr (p + i) 0, strtoul (cstr (drop (p + i + 1) hoststr)) % 2 ^ 16)

-- What is left in `hoststr`, `*port` and `*ssl`.
unfoldable pub parse_hostspec : Bytes → ℕ → Bytes → Bytes × (ℕ × Bool)
unfolding ssl_at cut_ssl cut_bracket cut_port
parse_hostspec hoststr hoststr_sz hostspec =
    let from = if get_or hostspec 0 0 == b'[' then drop 1 hostspec else hostspec in
    let copied = str_ncpy hoststr from hoststr_sz in
    let (plain, ssl) = cut_ssl copied (ssl_at copied) in
    let (name, p) = cut_bracket plain (strchr plain b']') in
    let (host, port) = cut_port name p (strchr (drop p name) b':') in (host, (port, ssl))

pub data Pxtype : Type 0 where
  ircpx_http : Pxtype
  ircpx_socks4 : Pxtype
  ircpx_socks5 : Pxtype

upper : ℕ → ℕ
upper c = if leb b'a' c && leb c b'z' then c - 32 else c

-- `lsi_b_strcasecmp` is 0.
strcaseeq : Bytes → Bytes → Bool
unfolding upper
strcaseeq [] [] = true
strcaseeq [] (d ∷ t) = false
strcaseeq (c ∷ s) [] = false
strcaseeq (c ∷ s) (d ∷ t) = upper c == upper d && strcaseeq s t

-- `none` is -1.
unfoldable pub px_typenum : Bytes → Option Pxtype
unfolding strcaseeq
px_typenum typestr =
    if strcaseeq typestr (codes "socks4")
    then some ircpx_socks4
    else if strcaseeq typestr (codes "socks5")
    then some ircpx_socks5
    else if strcaseeq typestr (codes "http")
    then some ircpx_http
    else none

-- `none` is any other number.
unfoldable pub px_typestr : Option Pxtype → Bytes
px_typestr (some ircpx_http) = codes "HTTP"
px_typestr (some ircpx_socks4) = codes "SOCKS4"
px_typestr (some ircpx_socks5) = codes "SOCKS5"
px_typestr none = codes "unknown"

pxspec_typed : Bytes → ℕ → Bytes → ℕ → Option Pxtype → Option (Pxtype × (Bytes × ℕ))
unfolding parse_hostspec
pxspec_typed hoststr hoststr_sz linebuf colon none = none
pxspec_typed hoststr hoststr_sz linebuf colon (some p) =
    let (host, (port, ssl)) = parse_hostspec hoststr hoststr_sz (cstr (drop (colon + 1) linebuf)) in
    some (p, (host, port))

pxspec_at : Bytes → Bytes → ℕ → Bytes → Option ℕ → Option (Pxtype × (Bytes × ℕ))
unfolding pxspec_typed px_typenum
pxspec_at pxtypestr hoststr hoststr_sz linebuf none = none
pxspec_at pxtypestr hoststr hoststr_sz linebuf (some i) =
    let num = if ltb i 7 then i else 6 in
    pxspec_typed hoststr hoststr_sz linebuf i
      (px_typenum (cstr (str_ncpy pxtypestr (cstr linebuf) (num + 1))))

-- `linebuf` and `pxtypestr` are given as they are before the call. `none` is the failure, which
-- stores nothing.
unfoldable pub parse_pxspec : Bytes → Bytes → Bytes → ℕ → Bytes → Option (Pxtype × (Bytes × ℕ))
unfolding pxspec_at
parse_pxspec linebuf pxtypestr hoststr hoststr_sz pxspec =
    let copied = str_ncpy linebuf pxspec 128 in
    pxspec_at pxtypestr hoststr hoststr_sz copied (strchr copied b':')
