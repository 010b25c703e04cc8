-- ===== src/Examples/Users.antt =====
-- The commands of a user.
use kineircd.Prelude.{◌≡◌, refl, true, false, List, [], ◌∷◌, some, arith, length, map}
use kineircd.Prelude.Text.{Text, codes, text_eq}
use kineircd.Error.{no_error}
use kineircd.Name.{irc_to_lower}
use kineircd.Network.{find_message_target}
use kineircd.Registry.{find_entity}
use kineircd.Registry.EntityMap.{find}
use kineircd.Irc2User.Messaging.{
  Surroundings, message_to, away, no_such_nick, too_many_targets, do_message,
}
use kineircd.Irc2User.Messaging.Targets.{told, do_message-told}
use kineircd.Irc2.Tokens.Listed.{targets_text}
use kineircd.Irc2User.Commands.{
  CommandInfo, Standing, Commands, operator, handle_kill, no_privileges, parse_message,
}
use kineircd.Irc2User.Commands.Answers.{IsAnswer, lookup, counted, parse_message-IsAnswer}
use kineircd.Irc2User.Support.{send_isupport, max_output_length}
use kineircd.Irc2User.Support.Chunks.{AreChunks, send_isupport-AreChunks}
use kineircd.Examples.Instances.{split_tokens, split-AreTokens, lists, split}

abbrev surroundings : Surroundings
surroundings = record {
  is_operator = false;
  max_targets = 3;
  localise = λ t. t;
  lists = lists;
  answer = λ receiver message. no_error;
  is_away = λ receiver. true;
  is_channel = λ receiver. false;
}

abbrev targets : List Text
targets = codes "fred" ∷ codes "barney" ∷ codes "wilma" ∷ []

do_message_test :
    do_message split_tokens surroundings false (codes "fred,barney,wilma" ∷ codes "hi" ∷ [])
    ≡ some (
        message_to 17 (codes "hi")
        ∷ away 17
        ∷ no_such_nick (codes "barney")
        ∷ too_many_targets
        ∷ [])
unfolding do_message split find_message_target find_entity find text_eq irc_to_lower
do_message_test = refl

do_message-told_example :
    do_message split_tokens surroundings false (targets_text targets ∷ codes "hi" ∷ [])
    ≡ some (told surroundings false (codes "hi") 2 targets)
do_message-told_example =
    do_message-told split_tokens split-AreTokens surroundings false (codes "hi") 2 targets [] refl
      refl (omega arith) (ground arith)

abbrev kill : CommandInfo
kill = record {
  handler = handle_kill;
  access = operator;
  enabled = true;
  minimum_params = 2;
  change_idle_time = false;
  call_count = 0;
}

abbrev commands : Commands
commands = (codes "KILL", kill) ∷ []

abbrev nobody : Standing
nobody = record { is_local_operator = false; is_global_operator = false }

parse_message_test :
    (parse_message nobody (codes "KILL") (codes "fred" ∷ codes "bye" ∷ []) commands).0
    ≡ no_privileges
unfolding parse_message text_eq
parse_message_test = refl

parse_message-IsAnswer_example :
    let (outcome, list') =
      parse_message nobody (codes "KILL") (codes "fred" ∷ codes "bye" ∷ []) commands in
    IsAnswer nobody 2 (lookup (codes "KILL") commands) outcome
    × ((other : Text)
        → lookup other list' ≡ counted (text_eq (codes "KILL") other) (lookup other commands))
parse_message-IsAnswer_example =
    parse_message-IsAnswer nobody (codes "KILL") (codes "fred" ∷ codes "bye" ∷ []) commands

abbrev support : List Text
support = codes "A=1" ∷ codes "B" ∷ codes "C=x" ∷ []

-- Sixteen parameters, where a message has at most fifteen: the second reply has 14 tags beside
-- the nickname and the suffix.
send_isupport_test :
    map length (
      send_isupport 20 4 11 (
        codes "a"
        ∷ codes "b"
        ∷ codes "c"
        ∷ codes "d"
        ∷ codes "e"
        ∷ codes "f"
        ∷ codes "g"
        ∷ codes "h"
        ∷ codes "i"
        ∷ codes "j"
        ∷ codes "k"
        ∷ codes "l"
        ∷ codes "m"
        ∷ codes "n"
        ∷ codes "o"
        ∷ codes "p"
        ∷ codes "q"
        ∷ codes "r"
        ∷ codes "s"
        ∷ codes "t"
        ∷ codes "u"
        ∷ codes "v"
        ∷ codes "w"
        ∷ codes "x"
        ∷ codes "y"
        ∷ codes "z"
        ∷ codes "A"
        ∷ []))
    ≡ 25 ∷ 27 ∷ []
unfolding send_isupport
send_isupport_test = refl

send_isupport-AreChunks_example :
    AreChunks (max_output_length 20 4 11) support (send_isupport 20 4 11 support)
unfolding max_output_length
send_isupport-AreChunks_example = send_isupport-AreChunks 20 4 11 support (ground arith)
