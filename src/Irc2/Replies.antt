-- ===== src/Irc2/Replies.antt =====
-- The replies of the library libkineircd_irc2: home/kineircd/src/lib_irc2/common.cpp.
pub mod Stats
pub mod Whois
pub mod Time
pub mod Requests
pub mod Users
pub mod Date
pub mod Resources
use kineircd.Prelude.{ℕ, Bool, true, false, ◌&&◌, List, [], ◌∷◌, ◌++◌, if◌then◌else◌, is_empty, not}
use kineircd.Prelude.Text.{Text, codes}

-- The numerics of the short replies, with the parameters that vary.
pub data Reply : Type 0 where
  no_admin_info admin_me admin_location1 admin_location2 admin_email : Text → Reply
  info : Text → Reply
  end_of_info : Reply
  luser_client : ℕ → ℕ → ℕ → Reply
  luser_operators luser_staff luser_unknown luser_channels : ℕ → Reply
  luser_me : ℕ → ℕ → Reply
  local_users global_users : ℕ → ℕ → Reply
  motd_start : Text → Reply
  motd : Text → Reply
  end_of_motd : Reply
  summon_disabled users_disabled : Reply
  version : Text → Text → Text → Reply
  whowas_user whois_server whowas_details was_no_such_nick : Reply
  end_of_whowas : Text → Reply

abbrev if_given : Text → Reply → List Reply
if_given text reply = if is_empty text then [] else reply ∷ []

-- The server's name, and the administrator's name, location and contact of the configuration.
unfoldable pub do_admin : Text → Text → Text → Text → List Reply
do_admin server name location contact =
    if is_empty name && is_empty location && is_empty contact
    then no_admin_info server ∷ []
    else admin_me server ∷ if_given name (admin_location1 name)
      ++ if_given location (admin_location2 location)
      ++ if_given contact (admin_email contact)

-- The lines of the daemon's information.
unfoldable pub do_info : List Text → List Reply
do_info [] = end_of_info ∷ []
do_info (line ∷ lines) = info line ∷ do_info lines

-- The counts of the network and of our server.
pub record Counts : Type 0 where
  pub users : ℕ
  pub users_peak : ℕ
  pub services : ℕ
  pub servers : ℕ
  pub channels : ℕ
  pub my_clients : ℕ
  pub my_servers : ℕ
  pub my_users : ℕ
  pub my_users_peak : ℕ

unfoldable pub do_lusers : Counts → List Reply
do_lusers c =
    luser_client c.users c.services c.servers
    ∷ luser_operators 0
    ∷ luser_staff 0
    ∷ luser_unknown 0
    ∷ luser_channels c.channels
    ∷ luser_me c.my_clients c.my_servers
    ∷ local_users c.my_users c.my_users_peak
    ∷ global_users c.users c.users_peak
    ∷ []

unfoldable pub do_motd : Text → List Reply
do_motd server = motd_start server ∷ motd (codes "- This is MOTD data") ∷ end_of_motd ∷ []

unfoldable pub do_summon : Text → List Reply
do_summon username = summon_disabled ∷ []

-- The build that has no user accounting database.
unfoldable pub do_users : List Reply
do_users = users_disabled ∷ []

-- The version and its characters are those of the build.
unfoldable pub do_version : Text → Text → Text → List Reply
do_version v server chars = version v server chars ∷ []

-- The same details, whatever was asked.
unfoldable pub do_whowas : Text → List Reply
do_whowas targets =
    whowas_user ∷ whois_server ∷ whowas_details ∷ was_no_such_nick ∷ end_of_whowas targets ∷ []
