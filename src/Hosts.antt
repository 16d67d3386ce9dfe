-- ===== src/Hosts.antt =====
-- What libsrsirc/common.c tells about a host and a deadline: `lsi_com_guess_hosttype` and
-- `lsi_com_check_timeout`. `isdigit` is that of the C locale; `dc` counts bytes in memory, so it does
-- not overflow.
pub mod Dotted
pub mod Spec
use libsrsirc.Base.{
  ℕ, ◌+◌, ◌-◌, Bool, true, false, Option, none, some, [], ◌∷◌, Bytes, ◌==◌, ◌&&◌, if◌then◌else◌,
  leb,
}
use libsrsirc.Proto.{has_byte}

pub data Hosttype : Type 0 where
  ipv4 : Hosttype
  ipv6 : Hosttype
  dns : Hosttype

abbrev pub is_digit : ℕ → Bool
is_digit c = leb b'0' c && leb c b'9'

pub guess_loop : Bytes → ℕ → Hosttype
guess_loop [] dc = if dc == 3 then ipv4 else dns
guess_loop (c ∷ host) dc =
    let dot = guess_loop host (dc + 1) in
    let digit = guess_loop host dc in if c == b'.' then dot else if is_digit c then digit else dns

pub guess_hosttype : Bytes → Hosttype
unfolding guess_loop
guess_hosttype host = if has_byte host b'[' then ipv6 else guess_loop host 0

-- `now` is the clock's answer. The results are the value returned and what is stored in `*trem`.
pub check_timeout : ℕ → ℕ → Bool × ℕ
check_timeout tend now =
    if tend == 0 then (false, 0) else if leb tend now then (true, 0) else (false, tend - now)
