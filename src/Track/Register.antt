-- ===== src/Track/Register.antt =====
-- `lsi_trk_init` of libsrsirc/irc_track.c. A table of handlers may serve a larger context: `on` says
-- how a handler of tracking works on it, and makes the new maps a part of it.
use libsrsirc.Base.{ℕ, ◌+◌, Bool, true, false, Option, none, some, List, [], ◌∷◌, Bytes, codes}
use libsrsirc.Proto.{Tokarr}
use libsrsirc.Skmap.{Skmap}
use libsrsirc.Msg.{MsgHnd, reghnd, unregall}
use libsrsirc.Track.{
  Handler, handle_join, handle_part, handle_kick, handle_quit, handle_nick, handle_366,
  handle_privmsg, handle_notice,
}
use libsrsirc.Track.Whois.{handle_352, handle_311}
use libsrsirc.Track.Topic.{handle_332, handle_333, handle_topic}
use libsrsirc.Track.Names.{handle_353}
use libsrsirc.Track.Modes.{handle_mode, handle_324}

unfoldable pub handlers : Bool → List (Bytes × Handler)
handlers signed =
    (codes "JOIN", handle_join signed)
    ∷ (codes "311", handle_311 signed)
    ∷ (codes "332", handle_332)
    ∷ (codes "333", handle_333)
    ∷ (codes "353", handle_353)
    ∷ (codes "352", handle_352 signed)
    ∷ (codes "366", handle_366)
    ∷ (codes "PART", handle_part signed)
    ∷ (codes "QUIT", handle_quit signed)
    ∷ (codes "NICK", handle_nick signed)
    ∷ (codes "KICK", handle_kick signed)
    ∷ (codes "MODE", handle_mode)
    ∷ (codes "PRIVMSG", handle_privmsg)
    ∷ (codes "NOTICE", handle_notice)
    ∷ (codes "324", handle_324)
    ∷ (codes "TOPIC", handle_topic)
    ∷ []

abbrev pub module_name : Bytes
module_name = codes "track"

module _ {W : Type 0} (on : Handler → W → Tokarr → ℕ → Bool → W × ℕ) (junk : MsgHnd W) where
  -- The registrations one after the other; the `n`-th finds the memory `memory n`.
  unfoldable pub register_track :
      (ℕ → Bool) → ℕ → List (Bytes × Handler) → List (MsgHnd W) → List (MsgHnd W) × Bool
  register_track memory n [] table = (table, true)
  register_track memory n ((cmd, f) ∷ hs) table =
      let r = reghnd (memory n) junk table cmd (on f) module_name in
      elim r.1 [ false ↦ (r.0, false) | true ↦ register_track memory (n + 1) hs r.0 ]

  -- The table, the new maps where tracking is on, and the flag `endofnames`. `maps` is what
  -- `lsi_ucb_init` gives, and `ended` is the flag as it was.
  unfoldable pub trk_init :
      Bool
      → (ℕ → Bool)
      → Option (Skmap ℕ × Skmap ℕ)
      → Bool
      → List (MsgHnd W)
      → List (MsgHnd W) × Option (Skmap ℕ × Skmap ℕ) × Bool
  unfolding register_track handlers
  trk_init signed memory maps ended table =
      let r = register_track memory 0 (handlers signed) table in
      elim r.1 [
        | false ↦ (unregall r.0 module_name, none, ended)
        | true ↦ elim maps [
          | none ↦ (unregall r.0 module_name, none, ended)
          | some m ↦ (r.0, some m, true)
        ]
      ]
