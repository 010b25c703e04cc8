-- ===== src/Irc2User/Commands.antt =====
-- The commands of a user: Protocol::parseMessage and Commands::findCommand,
-- home/kineircd/src/mod_irc2user/protocol.cpp and commands.cpp, in the build without scripts.
pub mod Answers
use kineircd.Prelude.{
  ℕ, ◌+◌, ◌%◌, ◌^◌, ◌≤◌, ◌≡◌, ◌≢◌, ◌↔◌, refl, Bool, true, false, ◌||◌, not, sym, subst, Bool-cases,
  inl, inr, List, [], ◌∷◌, Option, none, some, arith, if◌then◌else◌, leb, length,
}
use kineircd.Prelude.Text.{Text, text_eq, text_eq_iff}

pub data Access : Type 0 where
  anybody operator global_operator : Access

-- The handlers that the table of commands names.
pub data Handler : Type 0 where
  handle_admin handle_away handle_die handle_help handle_info handle_ison handle_join : Handler
  handle_kill handle_language handle_lusers handle_motd handle_names handle_networks : Handler
  handle_nick handle_notice handle_oper handle_part handle_ping handle_privmsg : Handler
  handle_quit handle_rehash handle_restart handle_squery handle_stats handle_summon : Handler
  handle_time handle_userhost handle_users handle_version handle_wallops : Handler
  handle_whois handle_whowas : Handler

-- What is known of a command.
pub record CommandInfo : Type 0 where
  pub handler : Handler
  pub access : Access
  pub enabled : Bool
  pub minimum_params : ℕ
  pub change_idle_time : Bool
  pub call_count : ℕ

pub record Standing : Type 0 where
  pub is_local_operator : Bool
  pub is_global_operator : Bool

abbrev pub is_operator : Standing → Bool
is_operator user = user.is_global_operator || user.is_local_operator

abbrev pub Commands : Type 0
Commands = List (Text × CommandInfo)

-- The count is an unsigned long long of 64 bits.
abbrev pub called : CommandInfo → CommandInfo
called info = record info { call_count = (info.call_count + 1) % 2 ^ 64 }

unfoldable pub find_command : Text → Commands → Option CommandInfo × Commands
find_command name [] = (none, [])
find_command name ((n, info) ∷ list) =
    let (found, list') = find_command name list in
    if text_eq n name
    then (some (called info), (n, called info) ∷ list)
    else (found, (n, info) ∷ list')

unfoldable pub check_access : Access → Standing → Bool
check_access operator user = is_operator user
check_access global_operator user = user.is_global_operator
check_access anybody user = true

unfoldable pub has_access : Access → Standing → Bool
unfolding check_access
has_access anybody user = true
has_access operator user = check_access operator user
has_access global_operator user = check_access global_operator user

-- The numeric that answers the command, or the call of its handler; `awake` tells that the idle
-- time is reset.
pub data Outcome : Type 0 where
  unknown_command disabled no_privileges need_more_params : Outcome
  call : Handler → Bool → Outcome

-- The checks, in order, for the given number of parameters.
unfoldable pub respond : Standing → ℕ → Option CommandInfo → Outcome
unfolding has_access
respond user n none = unknown_command
respond user n (some info) =
    if not info.enabled
    then disabled
    else if not (has_access info.access user)
    then no_privileges
    else if leb info.minimum_params n
    then call info.handler info.change_idle_time
    else need_more_params

unfoldable pub parse_message : Standing → Text → List Text → Commands → Outcome × Commands
unfolding find_command respond
parse_message user command parameters list =
    let (found, list') = find_command command list in
    (respond user (length parameters) found, list')
