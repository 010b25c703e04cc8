-- ===== src/Registrar/Message.antt =====
-- Protocol::parseMessage, home/kineircd/src/mod_irc2registrar/protocol.cpp: a command is carried
-- out, and when the registration is complete the connection is handed over.
use kineircd.Prelude.{ℕ, ◌||◌, List, [], ◌∷◌, Option, none, some, if◌then◌else◌, ltb, is_empty, not}
use kineircd.Prelude.Text.{Text, codes, text_eq}
use kineircd.Prelude.Int.{is_positive}
use kineircd.Registrar.State.{
  Registrar, Environment, RegistrationType, unregistered, iircn, server, service, user,
  network_protocol, server_protocol, user_protocol, Tag, error_protocol_unavailable_user,
  error_protocol_unavailable_iirc, error_protocol_unavailable_server,
  error_protocol_unavailable_service, error_protocol_unknown, error_protocol_init_fail, send_error,
}
use kineircd.Registrar.Commands.{
  parse_capab, parse_iircn, parse_nick, parse_pass, parse_pong, parse_quit, parse_server,
  parse_service, parse_user,
}

pub data Command : Type 0 where
  capab iircn_command nick pass pong quit server_command service_command user_command : Command

-- The master command table.
abbrev pub command_table : List (Text × Command)
command_table =
    (codes "CAPAB", capab)
    ∷ (codes "IIRCN", iircn_command)
    ∷ (codes "NICK", nick)
    ∷ (codes "PASS", pass)
    ∷ (codes "PONG", pong)
    ∷ (codes "QUIT", quit)
    ∷ (codes "SERVER", server_command)
    ∷ (codes "SERVICE", service_command)
    ∷ (codes "USER", user_command)
    ∷ []

unfoldable pub find_command : Text → List (Text × Command) → Option Command
find_command command [] = none
find_command command ((name, handler) ∷ table) =
    if text_eq command name then some handler else find_command command table

module _ (env : Environment) where
  open env use {language, to_upper, find_protocol, create_protocol}

  unfoldable pub handle : Option Command → List Text → Registrar → Option Registrar
  handle none ps r = some r
  handle (some capab) ps r = parse_capab env ps r
  handle (some iircn_command) ps r = some (parse_iircn env ps r)
  handle (some nick) ps r = some (parse_nick env ps r)
  handle (some pass) ps r = some (parse_pass env ps r)
  handle (some pong) ps r = some (parse_pong env ps r)
  handle (some quit) ps r = some (parse_quit env ps r)
  handle (some server_command) ps r = parse_server env ps r
  handle (some service_command) ps r = some (parse_service env ps r)
  handle (some user_command) ps r = some (parse_user env ps r)

  -- The complaint about a protocol that was not found.
  unfoldable pub complain : Tag → Registrar → Registrar
  complain unavailable r =
      if not (is_empty r.registrant.protocol)
      then send_error (language unavailable (r.registrant.protocol ∷ [])) r
      else send_error (language error_protocol_unknown []) r

  -- The switch to the new protocol, which takes the input queue and the output queue over.
  unfoldable pub hand_over : Text → Option ℕ → Tag → Registrar → Registrar
  unfolding complain
  hand_over input_queue none unavailable r = complain unavailable r
  hand_over input_queue (some info) unavailable r =
      elim (create_protocol info r.registrant input_queue r.output.queue) [
        | none ↦ send_error (language error_protocol_init_fail []) r
        | some new_protocol ↦ record r { replaced = some new_protocol }
      ]

  unfoldable pub complete_user : Text → Registrar → Registrar
  unfolding hand_over
  complete_user input_queue r =
      let given = r.registrant in
      let info =
        if is_empty given.protocol
        then find_protocol user_protocol (codes "IRC-2")
        else find_protocol user_protocol (to_upper given.protocol) in
      if is_empty given.name
        || is_empty given.username
        || is_empty given.hostname
        || ltb 0 r.pongs_left
      then r
      else hand_over input_queue info error_protocol_unavailable_user r

  unfoldable pub complete_iircn : Text → Registrar → Registrar
  unfolding hand_over
  complete_iircn input_queue r =
      let given = r.registrant in
      let info = find_protocol network_protocol (to_upper given.protocol) in
      if is_empty given.password
        || is_empty given.name
        || is_empty given.hostname
        || is_empty given.protocol
        || not (is_positive given.link_stamp)
      then r
      else hand_over input_queue info error_protocol_unavailable_iirc r

  unfoldable pub complete_server : Text → Registrar → Registrar
  unfolding hand_over
  complete_server input_queue r =
      let given = r.registrant in
      let info =
        if is_empty given.protocol
        then none
        else find_protocol server_protocol (to_upper given.protocol) in
      if is_empty given.password || is_empty given.hostname
      then r
      else hand_over input_queue info error_protocol_unavailable_server r

  unfoldable pub complete_service : Registrar → Registrar
  unfolding complain
  complete_service r =
      let given = r.registrant in
      if is_empty given.password || is_empty given.name || is_empty given.distribution
      then r
      else complain error_protocol_unavailable_service r

  -- The switch on the registration type.
  unfoldable pub complete_as : RegistrationType → Text → Registrar → Registrar
  complete_as unregistered input_queue r = r
  complete_as user input_queue r = complete_user input_queue r
  complete_as iircn input_queue r = complete_iircn input_queue r
  complete_as server input_queue r = complete_server input_queue r
  complete_as service input_queue r = complete_service r

  unfoldable pub complete : Text → Registrar → Registrar
  unfolding complete_as
  complete input_queue r = complete_as r.registration_type input_queue r

  -- `none` is the undefined behaviour of a handler.
  unfoldable pub parse_message : Text → Text → List Text → Registrar → Option Registrar
  unfolding find_command
  parse_message input_queue command ps r = elim (handle (find_command command command_table) ps r) [
    | none ↦ none
    | some r' ↦ some (complete input_queue r')
  ]
