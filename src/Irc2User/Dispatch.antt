-- ===== src/Irc2User/Dispatch.antt =====
-- A message of a user, from parseMessage (home/kineircd/src/mod_irc2user/protocol.cpp) to the
-- handler that the table of commands names (home/kineircd/src/mod_irc2user/commands.def).
pub mod Table
pub mod Effects
pub mod Safe
use kineircd.Prelude.{ℕ, Bool, true, false, List, [], ◌∷◌, Option, none, some}
use kineircd.Prelude.Text.{Text}
use kineircd.User.{User, is_away}
use kineircd.Irc2.Tokens.{Tokens}
use kineircd.Irc2User.Commands.{
  Handler, handle_admin, handle_away, handle_die, handle_help, handle_info, handle_ison,
  handle_join, handle_kill, handle_language, handle_lusers, handle_motd, handle_names,
  handle_networks, handle_nick, handle_notice, handle_oper, handle_part, handle_ping,
  handle_privmsg, handle_quit, handle_rehash, handle_restart, handle_squery, handle_stats,
  handle_summon, handle_time, handle_userhost, handle_users, handle_version, handle_wallops,
  handle_whois, handle_whowas, Commands, Standing, Outcome, call, parse_message,
}
use kineircd.Irc2User.Handlers.{Answer, World}
use kineircd.Irc2User.Handlers.Operators
use kineircd.Irc2User.Handlers.Requests
use kineircd.Irc2User.Handlers.Nickname
use kineircd.Irc2User.Handlers.Targets
use kineircd.Irc2User.Presence
use kineircd.Irc2User.Messaging
use kineircd.Irc2User.Services
use kineircd.Irc2User.Languages
use kineircd.Irc2User.Help
use kineircd.Irc2User.UserHost
use kineircd.Irc2User.Who.{Person}

-- What a message does: the numeric that refuses it, or what its handler does.
pub data Effect : Type 0 where
  refused : Outcome → Effect
  answers : List Answer → Effect
  presence : List Presence.Reply → Effect
  ison : Text → Effect
  userhost : Text → Effect
  messages : List Messaging.Event → Effect
  queries : List Services.Event → Effect
  languages : List Languages.Reply → Effect
  notices : List Help.Notice → Effect

-- All that the handlers use.
pub record Session : Type 0 where
  pub world : World
  pub messaging : Messaging.Surroundings
  pub services : Services.Surroundings
  pub standing : Standing
  pub now : ℕ
  pub person_of : ℕ → Person
  pub matches : Text → Text → Bool
  pub help_usage : Text → Option ℕ
  pub help_info : Text → Option ℕ
  pub known_languages : List Languages.Data
  pub default_language : Option ℕ
  pub highest_tag : ℕ
  pub max_languages : ℕ
  pub find_by_code : Text → Option ℕ

-- The table of commands, with the counts of their calls, and the user.
abbrev pub State : Type 0
State = Commands × User

-- The effect, with a user who is as before.
abbrev pub told {ℓ} : {A : Type ℓ} → (A → Effect) → User → Option A → Option (Effect × User)
told f u none = none
told f u (some a) = some (f a, u)

abbrev pub changed {ℓ} : {A : Type ℓ} → (A → Effect) → Option (A × User) → Option (Effect × User)
changed f none = none
changed f (some (a, u)) = some (f a, u)

module _ (t : Tokens) (s : Session) where
  open s use {world, standing}

  unfoldable pub language_command : List Text → User → Option (Effect × User)
  unfolding Languages.list_languages Languages.choose_languages
  language_command [] u = told languages u (
      Languages.list_languages s.default_language s.highest_tag world.delocalise s.known_languages
        u.languages)
  language_command (p ∷ ps) u =
      changed languages
        (Languages.choose_languages s.max_languages s.find_by_code world.to_lower t p u)

  unfoldable pub dispatch : Commands → Handler → List Text → User → Option (Effect × User)
  dispatch list handle_admin ps u = some (answers (Requests.handle_admin world ps), u)
  dispatch list handle_away ps u =
      let (replies, u') = Presence.handle_away world.localise s.now ps u in
      some (presence replies, u')
  dispatch list handle_die ps u = told answers u (Operators.handle_die world ps)
  dispatch list handle_help ps u =
      some (notices (Help.handle_help s.matches s.help_usage s.help_info standing list ps), u)
  dispatch list handle_info ps u = some (answers (Requests.handle_info ps), u)
  dispatch list handle_ison ps u = some (
    ison (
        Presence.handle_ison world.lists world.localise
          (λ c. world.delocalise (s.person_of c).nickname) ps),
    u,
  )
  dispatch list handle_join ps u = told answers u (Requests.handle_join ps)
  dispatch list handle_kill ps u = told answers u (Operators.handle_kill world ps)
  dispatch list handle_language ps u = language_command ps u
  dispatch list handle_lusers ps u = some (answers (Requests.handle_lusers ps), u)
  dispatch list handle_motd ps u = some (answers (Requests.handle_motd ps), u)
  dispatch list handle_names ps u = told answers u (Targets.handle_names t world ps)
  dispatch list handle_networks ps u = some (answers (Requests.handle_networks ps), u)
  dispatch list handle_nick ps u =
      let (replies, u') = Nickname.handle_nick world ps u in some (answers replies, u')
  dispatch list handle_notice ps u = told messages u (Messaging.do_message t s.messaging true ps)
  dispatch list handle_oper ps u = some (answers (Requests.handle_oper ps), u)
  dispatch list handle_part ps u = some (answers (Requests.handle_part ps), u)
  dispatch list handle_ping ps u = some (answers (Requests.handle_ping world ps), u)
  dispatch list handle_privmsg ps u = told messages u (Messaging.do_message t s.messaging false ps)
  dispatch list handle_quit ps u = some (answers (Requests.handle_quit world ps), u)
  dispatch list handle_rehash ps u = told answers u (Operators.handle_rehash world ps)
  dispatch list handle_restart ps u = told answers u (Operators.handle_restart world ps)
  dispatch list handle_squery ps u = told queries u (Services.handle_squery t s.services ps)
  dispatch list handle_stats ps u = told answers u (Requests.handle_stats world list ps)
  dispatch list handle_summon ps u = told answers u (Requests.handle_summon ps)
  dispatch list handle_time ps u = some (answers (Requests.handle_time ps), u)
  dispatch list handle_userhost ps u = some (
    userhost (UserHost.handle_userhost world.lists s.person_of world.localise world.delocalise ps),
    u,
  )
  dispatch list handle_users ps u = some (answers (Requests.handle_users ps), u)
  dispatch list handle_version ps u = some (answers (Requests.handle_version ps), u)
  dispatch list handle_wallops ps u = told answers u (Operators.handle_wallops world ps)
  dispatch list handle_whois ps u = told answers u (Requests.handle_whois ps)
  dispatch list handle_whowas ps u = told answers u (Requests.handle_whowas world ps)

  unfoldable pub obey : Commands → Outcome → List Text → User → Option (Effect × User)
  unfolding dispatch
  obey list (call handler awake) ps u = dispatch list handler ps u
  obey list outcome ps u = some (refused outcome, u)

  -- A message, with the table and the user behind it.
  unfoldable pub process : Text × List Text → State → Option (Effect × State)
  unfolding parse_message obey
  process (command, ps) (list, u) =
      let (outcome, list') = parse_message standing command ps list in
      elim (obey list' outcome ps u) [ none ↦ none | some (e, u') ↦ some (e, (list', u')) ]

  -- One message after the other.
  unfoldable pub process_all : List (Text × List Text) → State → Option (List Effect × State)
  unfolding process
  process_all [] state = some ([], state)
  process_all (m ∷ ms) state = elim (process m state) [
    | none ↦ none
    | some (e, state') ↦ elim (process_all ms state') [
      | none ↦ none
      | some (es, state'') ↦ some (e ∷ es, state'')
    ]
  ]
