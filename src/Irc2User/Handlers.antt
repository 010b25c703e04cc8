-- ===== src/Irc2User/Handlers.antt =====
-- The short handlers of a user's commands: home/kineircd/src/mod_irc2user/handlers.cpp. A handler
-- that reads a parameter which is not there has no result.
pub mod Operators
pub mod Requests
pub mod Nickname
pub mod Targets
use kineircd.Prelude.{ℕ, Bool, Option}
use kineircd.Prelude.Text.{Text}
use kineircd.Prelude.Int.{ℤ}
use kineircd.Error.{Error}
use kineircd.Network.{Lists}

-- Why a nickname is refused.
pub data Fault : Type 0 where
  bad_chars too_long begins_with_digit unexplained : Fault

-- What a handler does, in order. First the calls of other components: of a server and of our own
-- server, of a client (its address), of the library libkineircd_irc2, and of the connection. Then
-- the numerics and messages, with the parameters that vary.
pub data Answer : Type 0 where
  request_admin_info : ℕ → Answer
  shutdown restart send_wallops : Text → Answer
  rehash : Answer
  kill : ℕ → Text → Answer
  quit : Option Text → Answer
  change_nickname : Text → Answer
  do_info do_lusers do_motd do_time do_users do_version send_isupport : Answer
  do_stats do_summon do_whois : Text → Answer
  do_whowas : Text → Option ℤ → Answer
  send_names : ℕ → Answer
  goodbye : Answer
  unknown_error_reply no_such_server no_privileges text_too_short : Text → Answer
  no_such_nick no_such_channel nickname_in_use end_of_stats : Text → Answer
  rehashing not_on_channel no_oper_host no_origin no_nickname_given : Answer
  end_of_names end_of_networks : Answer
  pong : Text → Text → Answer
  erroneous_nickname : Text → Fault → Answer
  stats_command : Text → ℕ → Answer
  closing_link : Option Text → Answer

-- The registry, the server that a client is on, our own server, the names of the servers, and what
-- the virtual functions answer.
pub record World : Type 0 where
  pub lists : Lists
  pub server_of : ℕ → ℕ
  pub my_server : ℕ
  pub server_name : ℕ → Text
  pub admin_answer : ℕ → Error
  pub kill_answer : ℕ → Text → Error
  pub localise : Text → Text
  pub delocalise : Text → Text
  pub to_int : Text → ℤ
  pub to_lower : Text → Text
