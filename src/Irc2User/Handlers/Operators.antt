-- ===== src/Irc2User/Handlers/Operators.antt =====
-- DIE, RESTART, REHASH, WALLOPS and KILL: home/kineircd/src/mod_irc2user/handlers.cpp, with the
-- operations of our own server, home/kineircd/include/kineircd/myserver.h.
use kineircd.Prelude.{List, [], ◌∷◌, Option, none, some}
use kineircd.Prelude.Text.{Text, codes}
use kineircd.Error.{Error, no_error, unknown_error, permission_denied, text_too_short}
use kineircd.Network.{find_client}
use kineircd.Irc2User.Handlers.{
  Answer, World, shutdown, restart, send_wallops, rehash, kill, unknown_error_reply, no_privileges,
  no_such_nick, rehashing, text_too_short as text_too_short_reply,
}

-- The four operations of MyServer do nothing; the caller and the reason are not used.
unfoldable pub my_server_shutdown : Text → Error
my_server_shutdown reason = unknown_error

unfoldable pub my_server_restart : Text → Error
my_server_restart reason = unknown_error

unfoldable pub my_server_rehash : Error
my_server_rehash = unknown_error

unfoldable pub my_server_send_wallops : Text → Error
my_server_send_wallops message = unknown_error

-- The numeric for the result of an operation that was asked by the command.
unfoldable pub refusal : Text → Error → List Answer
refusal command no_error = []
refusal command permission_denied = no_privileges command ∷ []
refusal command text_too_short = text_too_short_reply command ∷ []
refusal command error = unknown_error_reply command ∷ []

unfoldable pub rehash_reply : Text → Error → List Answer
rehash_reply command no_error = rehashing ∷ []
rehash_reply command permission_denied = no_privileges command ∷ []
rehash_reply command error = unknown_error_reply command ∷ []

module _ (w : World) where
  open w use {lists, localise, kill_answer}

  unfoldable pub handle_die : List Text → Option (List Answer)
  unfolding refusal my_server_shutdown
  handle_die [] = none
  handle_die (p ∷ ps) =
      let reason = localise p in
      some (shutdown reason ∷ refusal (codes "DIE") (my_server_shutdown reason))

  unfoldable pub handle_restart : List Text → Option (List Answer)
  unfolding refusal my_server_restart
  handle_restart [] = none
  handle_restart (p ∷ ps) =
      let reason = localise p in
      some (restart reason ∷ refusal (codes "RESTART") (my_server_restart reason))

  unfoldable pub handle_wallops : List Text → Option (List Answer)
  unfolding refusal my_server_send_wallops
  handle_wallops [] = none
  handle_wallops (p ∷ ps) =
      let message = localise p in
      some (send_wallops message ∷ refusal (codes "WALLOPS") (my_server_send_wallops message))

  unfoldable pub handle_rehash : List Text → Option (List Answer)
  unfolding rehash_reply my_server_rehash
  handle_rehash ps = some (rehash ∷ rehash_reply (codes "REHASH") my_server_rehash)

  -- The reason is read where there is a victim.
  unfoldable pub handle_kill : List Text → Option (List Answer)
  unfolding refusal find_client
  handle_kill [] = none
  handle_kill (p ∷ []) = elim (find_client lists (localise p)) [
    | none ↦ some (no_such_nick p ∷ [])
    | some victim ↦ none
  ]
  handle_kill (p ∷ r ∷ ps) = elim (find_client lists (localise p)) [
    | none ↦ some (no_such_nick p ∷ [])
    | some victim ↦
        let reason = localise r in
        some (kill victim reason ∷ refusal (codes "KILL") (kill_answer victim reason))
  ]
