-- ===== src/Irc2User/Welcome.antt =====
-- A connection becomes that of a user: Protocol::Protocol, home/kineircd/src/mod_irc2user/protocol.cpp,
-- with addUser of the server. What setLanguageList answers is a parameter; a numeric has the
-- parameters that vary.
pub mod Refused
use kineircd.Prelude.{ℕ, Bool, true, false, List, [], ◌∷◌, ◌++◌, Option, none, some, if◌then◌else◌}
use kineircd.Prelude.Text.{Text, codes}
use kineircd.Error.{Error, no_error, is_ok}
use kineircd.Membership.{Counter, User, Network, add_user}

pub record Greeting : Type 0 where
  pub nickname : Text
  pub username : Text
  pub hostname : Text
  pub server_name : Text
  pub version : Text
  pub build_time : Text

pub data Event : Type 0 where
  input_charset output_charset : Text → Event
  welcome : Text → Text → Text → Event
  your_host : Text → Text → Event
  created : Text → Event
  my_info : Text → Text → List Text → Event
  send_isupport send_language_list send_time_on_server do_lusers do_motd : Event

-- Both character sets are changed first; the errors of that are not looked at.
unfoldable pub charsets : List Event
charsets = input_charset (codes "UTF-8") ∷ output_charset (codes "UTF-8") ∷ []

unfoldable pub greet : (Text → Text) → Greeting → List Event
greet delocalise g =
    welcome g.nickname g.username g.hostname
    ∷ your_host g.server_name g.version
    ∷ created g.build_time
    ∷ my_info (delocalise g.server_name) g.version (
        codes "umodes"
        ∷ codes "cmodes"
        ∷ codes "cparammodes"
        ∷ codes "uparammodes"
        ∷ codes "smodes"
        ∷ codes "sparammodes"
        ∷ [])
    ∷ send_isupport
    ∷ send_language_list
    ∷ send_time_on_server
    ∷ do_lusers
    ∷ do_motd
    ∷ []

module _ (c : Counter) (limit server : ℕ) (language_error : Error) (delocalise : Text → Text) where
  unfoldable pub construct : Greeting → User → Network c → List Event × Network c
  unfolding add_user charsets greet
  construct g user n =
      let (error, after) = add_user c limit server user n in
      if is_ok error
      then (if is_ok language_error then charsets ++ greet delocalise g else charsets, after)
      else (charsets, after)
