-- ===== src/Registrar/Probe.antt =====
-- The probe against spoofed addresses: PING and PONG.
use kineircd.Prelude.{◌≤◌, ◌≡◌, true, List, [], ◌∷◌, none, arith, length}
use kineircd.Prelude.Text.{Text, text_eq}
use kineircd.Error.{no_error}
use kineircd.Name.Nickname
use kineircd.Network.{find_client}
use kineircd.Registrar.State.{Registrar, Environment, unregistered, user}
use kineircd.Registrar.Commands.{parse_pong, parse_nick, parse_user}

module _ (env : Environment) where
  -- Before the probe is sent its text is empty. So a PONG with an empty parameter closes the
  -- probe, and then NICK with a valid nickname that is free, and USER with four parameters on a
  -- listener that allows users, register the connection as a user with no PING sent to it.
  pub probe_bypass :
      (r : Registrar) (nick : Text) (ps : List Text)
      → r.registration_type ≡ unregistered
      → r.pongs_left ≡ 1
      → r.pong_match ≡ []
      → Nickname.check_validity env.max_nickname_length (env.localise nick) ≡ no_error
      → find_client env.lists (env.localise nick) ≡ none
      → env.allow_users ≡ true
      → 4 ≤ length ps
      → let s = parse_user env ps (parse_nick env (nick ∷ []) (parse_pong env ([] ∷ []) r)) in
        (s.registration_type ≡ user)
        × (s.registrant.name ≡ env.localise nick)
        × (s.pongs_left ≡ 0)
        × (s.pings ≡ r.pings)
        × (s.connected ≡ r.connected)
  unfolding parse_pong parse_nick parse_user text_eq
  probe_bypass r nick ps t one unsent valid free allowed enough = ground arith
