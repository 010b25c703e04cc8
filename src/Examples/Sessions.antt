-- ===== src/Examples/Sessions.antt =====
-- A user's session, and the commands of a session.
use kineircd.Prelude.{ℕ, ◌≡◌, refl, true, false, List, [], ◌∷◌, none, some, arith, Option}
use kineircd.Prelude.Text.{Text, codes, text_eq}
use kineircd.Prelude.Int.{pos}
use kineircd.Error.{no_error, unknown_error}
use kineircd.User.{User}
use kineircd.Irc2.Tokens.Listed.{targets_text}
use kineircd.Irc2User.Commands.{Standing}
use kineircd.Irc2User.Handlers.{World}
use kineircd.Irc2User.Messaging
use kineircd.Irc2User.Services
use kineircd.Irc2User.Services.Limit.{asked, handle_squery-asked}
use kineircd.Irc2User.Languages.{Reply, choose_languages}
use kineircd.Irc2User.Languages.Choice.{chosen, within_limit, accepted, choose_languages-accepted}
use kineircd.Irc2User.Dispatch.{Session}
use kineircd.Examples.Who.{fred}
use kineircd.Examples.Instances.{lists, split_tokens, split-AreTokens}

abbrev world : World
world = record {
  lists = lists;
  server_of = λ c. 1;
  my_server = 1;
  server_name = λ s. codes "irc.example";
  admin_answer = λ s. no_error;
  kill_answer = λ victim reason. no_error;
  localise = λ t. t;
  delocalise = λ t. t;
  to_int = λ t. pos 0;
  to_lower = λ t. t;
}

abbrev messaging : Messaging.Surroundings
messaging = record {
  is_operator = false;
  max_targets = 3;
  localise = λ t. t;
  lists = lists;
  answer = λ receiver message. no_error;
  is_away = λ receiver. true;
  is_channel = λ receiver. false;
}

abbrev services : Services.Surroundings
services = record {
  is_operator = false;
  max_targets = 2;
  localise = λ t. t;
  delocalise = λ t. t;
  lists = lists;
  is_service = λ receiver. true;
  name_of = λ receiver. codes "fred";
  answer = λ receiver message. unknown_error;
}

abbrev standing : Standing
standing = record { is_local_operator = true; is_global_operator = false }

abbrev find_language : Text → Option ℕ
find_language code = elim (text_eq code (codes "en")) [ true ↦ some 1 | false ↦ none ]

abbrev session : Session
session = record {
  world = world;
  messaging = messaging;
  services = services;
  standing = standing;
  now = 9;
  person_of = λ user. fred;
  matches = text_eq;
  help_usage = λ name. none;
  help_info = λ name. some 4;
  known_languages = [];
  default_language = some 1;
  highest_tag = 12;
  max_languages = 2;
  find_by_code = find_language;
}

abbrev wilma : User
wilma = record {
  away_message = [];
  away_since = 0;
  staff_status = [];
  languages = some 1 ∷ [];
  events = [];
}

abbrev messages : List (Text × List Text)
messages =
    (codes "LANGUAGE", codes "en" ∷ [])
    ∷ (codes "KILL", codes "fred" ∷ [])
    ∷ (codes "KILL", codes "fred" ∷ codes "bye" ∷ [])
    ∷ (codes "DANCE", [])
    ∷ []

handle_squery-asked_example :
    Services.handle_squery split_tokens services
      (targets_text (codes "fred" ∷ codes "dino" ∷ []) ∷ codes "hi" ∷ [])
    ≡ some (asked services (codes "hi") 1 (codes "fred" ∷ codes "dino" ∷ []))
handle_squery-asked_example =
    handle_squery-asked split_tokens split-AreTokens services (codes "hi") 1
      (codes "fred" ∷ codes "dino" ∷ []) [] refl (omega arith) (ground arith)

choose_languages-accepted_example :
    (replies : List Reply) × (choose_languages 2 find_language
        (λ t. t)
        split_tokens
        (targets_text (codes "en" ∷ codes "xx" ∷ []))
        wilma
      ≡ some (
        replies,
        chosen wilma
            (within_limit 2 (accepted find_language (λ t. t) (codes "en" ∷ codes "xx" ∷ []))),
      ))
choose_languages-accepted_example =
    choose_languages-accepted 2 find_language (λ t. t) split_tokens split-AreTokens
      (codes "en" ∷ codes "xx" ∷ []) wilma (omega arith) (ground arith)
