-- ===== src/Irc2User/Dispatch/Table.antt =====
-- The table of commands before any call: home/kineircd/src/mod_irc2user/commands.def, by the template
-- commandlist.cpp.tpl, with every command compiled in.
use kineircd.Prelude.{ℕ, Bool, true, false, [], ◌∷◌}
use kineircd.Prelude.Text.{Text, codes}
use kineircd.Irc2User.Commands.{
  Handler, handle_admin, handle_away, handle_die, handle_help, handle_info, handle_ison,
  handle_join, handle_kill, handle_language, handle_lusers, handle_motd, handle_names,
  handle_networks, handle_nick, handle_notice, handle_oper, handle_part, handle_ping,
  handle_privmsg, handle_quit, handle_rehash, handle_restart, handle_squery, handle_stats,
  handle_summon, handle_time, handle_userhost, handle_users, handle_version, handle_wallops,
  handle_whois, handle_whowas, Access, anybody, operator, global_operator, CommandInfo, Commands,
}
use Prim.Native.String.{String}

abbrev entry : String → Handler → Access → Bool → ℕ → Bool → Text × CommandInfo
entry name handler access enabled minimum awake = (
  codes name,
  record {
    handler = handler;
    access = access;
    enabled = enabled;
    minimum_params = minimum;
    change_idle_time = awake;
    call_count = 0;
  },
)

-- REHASH has no minimum, which is 0.
unfoldable pub command_table : Commands
command_table =
    entry "ADMIN" handle_admin anybody true 0 false
    ∷ entry "AWAY" handle_away anybody true 0 false
    ∷ entry "DIE" handle_die operator false 1 false
    ∷ entry "HELP" handle_help anybody true 0 false
    ∷ entry "INFO" handle_info anybody true 0 false
    ∷ entry "ISON" handle_ison anybody true 1 false
    ∷ entry "JOIN" handle_join anybody true 1 false
    ∷ entry "KILL" handle_kill operator true 2 true
    ∷ entry "LANGUAGE" handle_language anybody true 0 false
    ∷ entry "LUSERS" handle_lusers anybody true 0 false
    ∷ entry "MOTD" handle_motd anybody true 0 false
    ∷ entry "NAMES" handle_names anybody true 0 false
    ∷ entry "NETWORKS" handle_networks anybody true 0 false
    ∷ entry "NICK" handle_nick anybody true 0 false
    ∷ entry "NOTICE" handle_notice anybody true 0 false
    ∷ entry "OPER" handle_oper anybody true 2 false
    ∷ entry "PART" handle_part anybody true 1 false
    ∷ entry "PING" handle_ping anybody true 0 false
    ∷ entry "PRIVMSG" handle_privmsg anybody true 0 true
    ∷ entry "QUIT" handle_quit anybody true 0 false
    ∷ entry "REHASH" handle_rehash operator true 0 false
    ∷ entry "RESTART" handle_restart operator false 1 true
    ∷ entry "SQUERY" handle_squery anybody true 0 true
    ∷ entry "STATS" handle_stats anybody true 1 false
    ∷ entry "SUMMON" handle_summon anybody true 1 true
    ∷ entry "TIME" handle_time anybody true 0 false
    ∷ entry "USERHOST" handle_userhost anybody true 1 false
    ∷ entry "USERS" handle_users anybody true 0 false
    ∷ entry "VERSION" handle_version anybody true 0 false
    ∷ entry "WALLOPS" handle_wallops global_operator false 1 true
    ∷ entry "WHOIS" handle_whois anybody true 1 false
    ∷ entry "WHOWAS" handle_whowas anybody true 1 false
    ∷ []
