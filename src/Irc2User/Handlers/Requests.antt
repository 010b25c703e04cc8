-- ===== src/Irc2User/Handlers/Requests.antt =====
-- The handlers that ask a server or answer at once, home/kineircd/src/mod_irc2user/handlers.cpp.
use kineircd.Prelude.{ℕ, List, [], ◌∷◌, ◌++◌, Option, none, some, if◌then◌else◌, ltb, length}
use kineircd.Prelude.Text.{Text, codes, strncmp_eq}
use kineircd.Error.{is_ok}
use kineircd.Network.{find_server_target}
use kineircd.Irc2User.Commands.{Commands}
use kineircd.Irc2User.Handlers.{
  Answer, World, request_admin_info, quit, do_info, do_lusers, do_motd, do_time, do_users,
  do_version, send_isupport, do_stats, do_summon, do_whois, do_whowas, goodbye, unknown_error_reply,
  no_such_server, no_such_channel, not_on_channel, no_oper_host, no_origin, end_of_networks,
  end_of_stats, pong, stats_command, closing_link,
}

-- Where there is a parameter, a server of that name is never found.
unfoldable pub handle_info : List Text → List Answer
handle_info [] = do_info ∷ []
handle_info (server ∷ ps) = no_such_server server ∷ []

unfoldable pub handle_lusers : List Text → List Answer
handle_lusers [] = do_lusers ∷ []
handle_lusers (server ∷ ps) = no_such_server server ∷ []

unfoldable pub handle_motd : List Text → List Answer
handle_motd [] = do_motd ∷ []
handle_motd (server ∷ ps) = no_such_server server ∷ []

unfoldable pub handle_time : List Text → List Answer
handle_time [] = do_time ∷ []
handle_time (server ∷ ps) = no_such_server server ∷ []

unfoldable pub handle_users : List Text → List Answer
handle_users [] = do_users ∷ []
handle_users (server ∷ ps) = no_such_server server ∷ []

unfoldable pub handle_version : List Text → List Answer
handle_version [] = do_version ∷ send_isupport ∷ []
handle_version (server ∷ ps) = no_such_server server ∷ []

unfoldable pub handle_networks : List Text → List Answer
handle_networks [] = end_of_networks ∷ []
handle_networks (p ∷ ps) = []

unfoldable pub handle_summon : List Text → Option (List Answer)
handle_summon [] = none
handle_summon (user ∷ []) = some (do_summon user ∷ [])
handle_summon (user ∷ server ∷ ps) = some (no_such_server server ∷ [])

-- The server's name is the first parameter, where there are two or more.
unfoldable pub handle_whois : List Text → Option (List Answer)
handle_whois [] = none
handle_whois (targets ∷ []) = some (do_whois targets ∷ [])
handle_whois (server ∷ targets ∷ ps) = some (no_such_server server ∷ [])

unfoldable pub handle_whowas : World → List Text → Option (List Answer)
handle_whowas w [] = none
handle_whowas w (targets ∷ []) = some (do_whowas targets none ∷ [])
handle_whowas w (targets ∷ count ∷ []) = some (do_whowas targets (some (w.to_int count)) ∷ [])
handle_whowas w (server ∷ targets ∷ count ∷ ps) = some (no_such_server server ∷ [])

unfoldable pub handle_join : List Text → Option (List Answer)
handle_join [] = none
handle_join (channel ∷ ps) = some (no_such_channel channel ∷ [])

unfoldable pub handle_part : List Text → List Answer
handle_part ps = not_on_channel ∷ []

unfoldable pub handle_oper : List Text → List Answer
handle_oper ps = no_oper_host ∷ []

-- The message PONG has the name of our server twice: as the origin, and as the first parameter.
unfoldable pub handle_ping : World → List Text → List Answer
handle_ping w [] = no_origin ∷ []
handle_ping w (p ∷ ps) = pong (w.delocalise (w.server_name w.my_server)) p ∷ []

unfoldable pub handle_quit : World → List Text → List Answer
handle_quit w [] = quit none ∷ closing_link none ∷ goodbye ∷ []
handle_quit w (p ∷ ps) =
    let reason = w.localise p in quit (some reason) ∷ closing_link (some reason) ∷ goodbye ∷ []

unfoldable pub ask_admin : World → ℕ → List Answer
ask_admin w server =
    request_admin_info server
    ∷ (if is_ok (w.admin_answer server)
        then []
        else unknown_error_reply (w.delocalise (w.server_name server)) ∷ [])

unfoldable pub handle_admin : World → List Text → List Answer
unfolding ask_admin find_server_target
handle_admin w [] = ask_admin w w.my_server
handle_admin w (p ∷ ps) = elim (find_server_target w.lists w.server_of (w.localise p)) [
  | none ↦ no_such_server p ∷ []
  | some server ↦ ask_admin w server
]

-- The commands that were called, in the order of the table.
unfoldable pub stats_commands : Commands → List Answer
stats_commands [] = []
stats_commands ((name, info) ∷ list) =
    let rest = stats_commands list in
    if ltb 0 info.call_count then stats_command name info.call_count ∷ rest else rest

-- std::max of the length and 1.
unfoldable pub handle_stats : World → Commands → List Text → Option (List Answer)
unfolding stats_commands strncmp_eq
handle_stats w list [] = none
handle_stats w list (request ∷ []) =
    let n = if ltb (length request) 1 then 1 else length request in
    some (
      if strncmp_eq n (w.to_lower request) (codes "messages")
      then stats_commands list ++ end_of_stats request ∷ []
      else do_stats request ∷ [])
handle_stats w list (request ∷ server ∷ ps) = some (no_such_server server ∷ [])
