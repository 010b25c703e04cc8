-- ===== src/Registrar/Replies.antt =====
-- What single commands of the registrar do, on every branch.
use kineircd.Prelude.{◌≡◌, ◌≢◌, ◌⊎◌, false, List, [], none, arith, get_or}
use kineircd.Prelude.Text.{Text}
use kineircd.Error.{no_error}
use kineircd.Name.Nickname
use kineircd.Network.{find_client}
use kineircd.Registrar.State.{Registrar, Environment}
use kineircd.Registrar.Message.{nick}
use kineircd.Registrar.Commands.{parse_nick, parse_pass}

module _ (env : Environment) where
  -- NICK stores the nickname exactly when it is given, valid and not used by a client; else the
  -- registrant is as before. The registration type and the connection are as before.
  pub parse_nick_cases :
      (ps : List Text) (r : Registrar)
      → let s = parse_nick env ps r in
        let nick = env.localise (get_or ps 0 []) in
        (s.registration_type ≡ r.registration_type)
        × (s.connected ≡ r.connected)
        × (((ps ≢ [])
              × (Nickname.check_validity env.max_nickname_length nick ≡ no_error)
              × (find_client env.lists nick ≡ none)
              × (s.registrant ≡ record (r.registrant) { name = nick }))
            ⊎ (((ps ≡ [])
                  ⊎ (Nickname.check_validity env.max_nickname_length nick ≢ no_error)
                  ⊎ (find_client env.lists nick ≢ none))
                × (s.registrant ≡ r.registrant)))
  unfolding parse_nick
  parse_nick_cases ps r = ground arith

  -- A registrar that has a password refuses another: PASS drops the connection and leaves the
  -- registrant as it is.
  pub parse_pass_once :
      (ps : List Text) (r : Registrar)
      → r.registrant.password ≢ []
      → let s = parse_pass env ps r in (s.registrant ≡ r.registrant) × (s.connected ≡ false)
  unfolding parse_pass
  parse_pass_once ps r h = ground arith
