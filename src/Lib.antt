-- ===== src/Lib.antt =====
-- A verification library for libsrsirc, a library for IRC clients written in C.
--
-- The library keeps one context per connection (`struct irc_s`). A line from the server is cut into a
-- message by `lsi_ut_tokenize` and handed to `lsi_msg_handle`, which runs the handlers that are
-- registered for its command. The handlers keep the context up to date: among them are those of the
-- capability negotiation (v3.c), which also write lines back through `lsi_conn_write`, and those of
-- tracking (irc_track.c), which keep a store of channels, users and members (ucbase.c). These live in
-- hash maps (skmap.c) whose buckets are lists (bucklist.c), keyed by nicks and channel names that are
-- compared under a casemap (cmap.c).
--
-- Which file models what:
--   Cmap        libsrsirc/cmap.c (the tables) and `lsi_ut_tolower` of libsrsirc/util.c
--   Key         `pfxeq` of libsrsirc/bucklist.c, the two hash functions of libsrsirc/skmap.c
--   Bucklist    libsrsirc/bucklist.c: a node's address is its identity, and `iter` and `previter` hold
--               addresses, so that a cursor may dangle
--   Skmap       libsrsirc/skmap.c: each operation takes what its allocations give (`Allocs`)
--   Text        `lsi_b_strNcpy` and `lsi_b_strNcat` of platform/base_string.c on the bytes of a buffer
--   Text.Ident  `lsi_ut_ident2nick`, `lsi_ut_ident2uname`, `lsi_ut_ident2host` of libsrsirc/util.c
--   Text.Lower  `lsi_ut_strtolower` of libsrsirc/util.c
--   Casecmp     `lsi_ut_istrcmp` and `lsi_ut_istrncmp` of libsrsirc/util.c
--   Hosts       `lsi_com_guess_hosttype` and `lsi_com_check_timeout` of libsrsirc/common.c
--   Hosts.Spec  `lsi_ut_parse_hostspec`, `lsi_ut_parse_pxspec` of libsrsirc/util.c and the names of the
--               proxy types of libsrsirc/px.c
--   Base64      `lsi_com_base64` of libsrsirc/common.c
--   Proto       `lsi_ut_tokenize` and `lsi_ut_snrcmsg` of libsrsirc/util.c, `lsi_com_next_tok` of
--               libsrsirc/common.c
--   Nick        `lsi_ut_mut_nick` of libsrsirc/util.c
--   Sasl        `lsi_ut_sasl_mkplauth` of libsrsirc/util.c
--   Msg         libsrsirc/msg.c: the handler tables and the dispatch; Msg.Res has the results
--   Conn.Setup  the setters, init, dispose and `lsi_conn_connect` of libsrsirc/conn.c; the platform's
--               calls, `lsi_com_consocket` and the logons to proxies (libsrsirc/px.c) are an argument
--   Settings    the setters of libsrsirc/irc_getset.c, as calls on what they set
--   Conn        `lsi_conn_write`, `lsi_conn_write_raw` and `lsi_conn_reset` of libsrsirc/conn.c and
--               `lsi_io_write` of libsrsirc/io.c; the platform's sockets are an argument
--   Io          the receive buffer and the lines of `lsi_io_read` of libsrsirc/io.c; Io.Message parses a
--               line, with `lsi_ut_extract_tags` of libsrsirc/util.c; the socket's read is an argument
--   V3.Caps     the capability table of libsrsirc/v3.c
--   V3.Handlers the message handlers of libsrsirc/v3.c
--   V3.StartTls the handler of 670, which starts TLS; the platform's TLS functions are an argument
--   V3.Tags     the message tags of libsrsirc/v3.c
--   Modes       `lsi_ut_parse_MODE` and `lsi_ut_classify_chanmode` of libsrsirc/util.c
--   Ucbase      libsrsirc/ucbase.c: the prefix symbols of a member and the modes of a channel
--   Ucbase.Store    its structs, and the state with the memory behind their pointers; each step that
--               allocates takes the next of the sequence `grants`
--   Ucbase.Users, Ucbase.Channels, Ucbase.Members, Ucbase.Rename  its operations on that store;
--               Ucbase.Sound says what a sound store is
--   Track       the message handlers of libsrsirc/irc_track.c on that store, with Track.Names for 353,
--               Track.Modes for MODE and 324, Track.Whois for 311 and 352, Track.Topic for topics;
--               Track.Register is `lsi_trk_init`, and Track.Reports what a client reads of channels,
--               users and members
--   Logon       the message handlers of libsrsirc/irc_msghnd.c; Logon.Isupport is that of 005
--   Logon.Register  `lsi_imh_regall` and `lsi_v3_regall`, which fill the handler table
--   Logon.Connect   `irc_connect` and `send_logon` of libsrsirc/irc.c: each round of the loop gets what
--               the clock, `lsi_conn_read` and the user's callback give (`Turn`)
--   Base        names, lists and tests that the others share; Tests runs the code at examples
--
-- A C string is the list of its bytes without the NUL; where a function depends on the size of a buffer
-- or on what stands behind the NUL, the buffer is the list of all its bytes. A null or dangling
-- pointer that is read is the value `fault` of `Mem`. A byte is kept below 256 by the operations that
-- cut it (`% 2 ^ 8`), and an `unsigned` shift count is cut to 32 bits. `size_t` counts bytes and
-- entries that are in memory, and does not wrap, but for a user's count of channels, which has 64 bits.
--
-- Loops over strings and lists are structural. `update_caps` takes 512 rounds as fuel: the line is cut
-- to 511 bytes and each round takes at least one of them. The rounds of `read_line` have the fuel that
-- the caller gives; two for each byte and one more are enough. `extract_tags` has one round more than
-- its text has bytes, and so has `names_loop`. A loop over a map (`walk`) has as many rounds as the map
-- has entries, which is enough, and is a `fault` where it would need more.
--
-- A dispatch with a fault in a handler ends at once, with the fault as its state (`lift`). The loop of
-- `irc_connect` is structural in its list of turns; where the list ends, the loop still waits. Its
-- table of handlers is that of its beginning: the handlers of tracking, which a 005 registers for a
-- client that asks for them, are no part of it, so it models the clients that do not ask.
--
-- Not modelled: `irc_init`, `irc_dispose` and `irc_read` of libsrsirc/irc.c, opening a socket
-- (libsrsirc/common.c), the handshakes with proxies (libsrsirc/px.c), the dumps, the rest of
-- libsrsirc/util.c, and the platform layer, the logger and the programs, which are input and output.
-- Log messages are left out.
mod Base
pub mod Cmap
pub mod Key
pub mod Bucklist
pub mod Skmap
pub mod Text
pub mod Proto
pub mod Msg
pub mod V3
pub mod Conn
pub mod Io
pub mod Hosts
pub mod Nick
pub mod Sasl
pub mod Modes
pub mod Ucbase
pub mod Logon
pub mod Track
pub mod Settings
mod Tests
pub mod Base64
pub mod Casecmp
