-- ===== src/Logon/Register.antt =====
-- The registration of the handlers that a connection starts with: `lsi_imh_regall` of
-- libsrsirc/irc_msghnd.c and `lsi_v3_regall` of libsrsirc/v3.c. A handler of the table works on the
-- context, or on the `fault` that a handler before it left.
pub mod Sound
pub mod Flags
use libsrsirc.Base.{ℕ, Bool, true, false, List, [], ◌∷◌, ◌++◌, Bytes, codes, if◌then◌else◌}
use libsrsirc.Base.Mem.{Mem, ok, fault, ◌>>=◌}
use libsrsirc.Proto.{Tokarr}
use libsrsirc.Msg.{MsgHnd, reghnd}
use libsrsirc.V3.Handlers.{
  V3State, handle_cap, handle_authenticate, handle_903, handle_saslerr, handle_691,
}
use libsrsirc.V3.StartTls.{handle_670}
use libsrsirc.Logon.{
  Irc, Host, handle_001, handle_002, handle_003, handle_004, handle_ping, handle_bad_nick,
  handle_464, handle_383, handle_484, handle_465, handle_466, handle_error, handle_nick,
  handle_mode,
}
use libsrsirc.Logon.Isupport.{handle_005}

abbrev pub Handler : Type 0 → Type 0
Handler W = Irc W → Tokarr → ℕ → Bool → Mem (Irc W × ℕ)

module _ {W : Type 0} where
  -- A fault ends the dispatch.
  unfoldable pub lifted : Mem (Irc W × ℕ) → Mem (Irc W) × ℕ
  lifted fault = (fault, 1)
  lifted (ok (x, r)) = (ok x, r)

  unfoldable pub lift : Handler W → Mem (Irc W) → Tokarr → ℕ → Bool → Mem (Irc W) × ℕ
  unfolding lifted
  lift f fault msg nargs logon = (fault, 1)
  lift f (ok x) msg nargs logon = lifted (f x msg nargs logon)

  -- A handler of the capabilities' part of the context.
  abbrev pub on_v3 : (V3State W → Tokarr → ℕ → Bool → Mem (V3State W × ℕ)) → Handler W
  on_v3 f x msg nargs logon = f x.v3 msg nargs logon >>= λ r. ok (record x { v3 = r.0 }, r.1)

  -- One registration after the other, until one fails; `memory` says whether a table can grow.
  unfoldable pub register_all :
      Bool
      → MsgHnd (Mem (Irc W))
      → Bytes
      → List (Bytes × Handler W)
      → List (MsgHnd (Mem (Irc W)))
      → List (MsgHnd (Mem (Irc W))) × Bool
  register_all memory junk module_name [] table = (table, true)
  register_all memory junk module_name ((cmd, f) ∷ hs) table =
      let r = reghnd memory junk table cmd (lift f) module_name in
      elim r.1 [ false ↦ (r.0, false) | true ↦ register_all memory junk module_name hs r.0 ]

  module _ (h : Host W) where
    -- Left to the user in the dumb mode.
    unfoldable pub busy_handlers : List (Bytes × Handler W)
    busy_handlers =
        (codes "PING", handle_ping h)
        ∷ (codes "432", handle_bad_nick h)
        ∷ (codes "433", handle_bad_nick h)
        ∷ (codes "436", handle_bad_nick h)
        ∷ (codes "437", handle_bad_nick h)
        ∷ (codes "464", handle_464 h)
        ∷ []

    unfoldable pub core_handlers : List (Bytes × Handler W)
    core_handlers =
        (codes "NICK", handle_nick h)
        ∷ (codes "ERROR", handle_error h)
        ∷ (codes "MODE", handle_mode h)
        ∷ (codes "001", handle_001 h)
        ∷ (codes "002", handle_002 h)
        ∷ (codes "003", handle_003 h)
        ∷ (codes "004", handle_004 h)
        ∷ (codes "383", handle_383 h)
        ∷ (codes "484", handle_484 h)
        ∷ (codes "465", handle_465 h)
        ∷ (codes "466", handle_466 h)
        ∷ (codes "005", handle_005 h)
        ∷ []

    unfoldable pub v3_handlers : List (Bytes × Handler W)
    v3_handlers =
        (codes "670", on_v3 (λ v msg nargs logon. handle_670 h.sockets h.tls v))
        ∷ (codes "691", on_v3 (λ v msg nargs logon. handle_691 h.sockets v nargs))
        ∷ (codes "903", on_v3 (λ v msg nargs logon. ok (handle_903 h.sockets v logon)))
        ∷ (codes "902", on_v3 (λ v msg nargs logon. ok (handle_saslerr h.sockets v nargs)))
        ∷ (codes "904", on_v3 (λ v msg nargs logon. ok (handle_saslerr h.sockets v nargs)))
        ∷ (codes "905", on_v3 (λ v msg nargs logon. ok (handle_saslerr h.sockets v nargs)))
        ∷ (codes "908", on_v3 (λ v msg nargs logon. ok (handle_saslerr h.sockets v nargs)))
        ∷ (codes "CAP", on_v3 (λ v msg nargs logon. handle_cap h.sockets v msg nargs logon))
        ∷ (
          codes "AUTHENTICATE",
          on_v3 (λ v msg nargs logon. ok (handle_authenticate h.sockets v msg nargs)),
        )
        ∷ []

    unfoldable pub imh_regall :
        Bool
        → MsgHnd (Mem (Irc W))
        → List (MsgHnd (Mem (Irc W)))
        → Bool
        → List (MsgHnd (Mem (Irc W))) × Bool
    unfolding register_all core_handlers busy_handlers
    imh_regall memory junk table dumb =
        register_all memory junk (codes "core")
          (if dumb then core_handlers else busy_handlers ++ core_handlers) table

    unfoldable pub v3_regall :
        Bool
        → MsgHnd (Mem (Irc W))
        → List (MsgHnd (Mem (Irc W)))
        → Bool
        → List (MsgHnd (Mem (Irc W))) × Bool
    unfolding register_all v3_handlers
    v3_regall memory junk table dumb =
        register_all memory junk (codes "v3") (if dumb then [] else v3_handlers) table
