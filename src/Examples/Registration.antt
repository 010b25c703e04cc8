-- ===== src/Examples/Registration.antt =====
-- The registration of a user, of a server, and without an answer to the probe.
use kineircd.Prelude.{ℕ, ◌≡◌, refl, some, none, Option, List, [], ◌∷◌, arith}
use kineircd.Prelude.Text.{Text, codes, text_eq}
use kineircd.Name.{irc_to_lower}
use kineircd.Registry.{find_entity}
use kineircd.Registry.EntityMap.{find}
use kineircd.Name.Nickname
use kineircd.Network.{find_client}
use kineircd.Registrar.State.{Registrar, new_registrar}
use kineircd.Registrar.Commands.{parse_pong, parse_nick, parse_user}
use kineircd.Registrar.Message.{parse_message, complete, complete_user, handle}
use kineircd.Registrar.Session.{Holds, IsSound}
use kineircd.Registrar.Switch.{IsMessageStep, parse_message-IsMessageStep}
use kineircd.Registrar.History.{receive, and_then, Message, run, IsGated, run-new-IsGated}
use kineircd.Examples.Instances.{environment}

abbrev given : Text → List Text → Message
given command parameters = record { input_queue = []; command = command; parameters = parameters }

abbrev user_parameters : List Text
user_parameters = codes "wilma" ∷ codes "0" ∷ codes "host" ∷ codes "Wilma F." ∷ []

abbrev messages : List Message
messages =
    given (codes "NICK") (codes "Wilma" ∷ [])
    ∷ given (codes "PONG") (codes "probe" ∷ [])
    ∷ given (codes "USER") user_parameters
    ∷ []

abbrev replaced_of : Option Registrar → Option ℕ
replaced_of none = none
replaced_of (some r) = r.replaced

run_test : replaced_of (run environment messages new_registrar) ≡ some 5
unfolding run receive and_then parse_message complete complete_user handle parse_nick parse_pong
    parse_user text_eq Nickname.check_validity find_client find_entity find irc_to_lower
run_test = refl

run-new-IsGated_example : Holds (IsGated environment) (run environment messages new_registrar)
run-new-IsGated_example = run-new-IsGated environment messages

new-IsSound : IsSound environment new_registrar
new-IsSound = ground arith

parse_message-IsMessageStep_example :
    Holds
      (IsMessageStep environment new_registrar)
      (parse_message environment [] (codes "NICK") (codes "Wilma" ∷ []) new_registrar)
parse_message-IsMessageStep_example =
    parse_message-IsMessageStep environment [] (codes "NICK") (codes "Wilma" ∷ []) new_registrar
      new-IsSound

abbrev probed : Registrar
probed = record new_registrar { pong_match = codes "probe"; pings = 1 }

abbrev server_parameters : List Text
server_parameters = codes "a.b" ∷ codes "x" ∷ codes "1" ∷ codes "2" ∷ codes "3" ∷ []

abbrev with_password : Registrar
with_password = record new_registrar {
  registrant = record (new_registrar.registrant) { password = codes "secret" };
}
