-- ===== src/Msg/Res.antt =====
-- The results of message handlers, of libsrsirc/msg.h. Those that end a dispatch are odd.
use libsrsirc.Base.{ℕ}

abbrev pub proto_err : ℕ
proto_err = 9

abbrev pub io_err : ℕ
io_err = 17

abbrev pub sasl_err : ℕ
sasl_err = 129

abbrev pub cap_err : ℕ
cap_err = 257

abbrev pub sasl_complete : ℕ
sasl_complete = 1024

abbrev pub more_caps : ℕ
more_caps = 2048

abbrev pub starttls_over : ℕ
starttls_over = 4096

abbrev pub out_of_nicks : ℕ
out_of_nicks = 3

abbrev pub auth_err : ℕ
auth_err = 5

abbrev pub logon_complete : ℕ
logon_complete = 512
