-- ===== src/Registrar/State.antt =====
-- The state of a registrar and what it sends: home/kineircd/src/mod_irc2registrar/protocol.h,
-- home/kineircd/include/kineircd/registrant.h and connection.h.
use kineircd.Prelude.{
  ℕ, ◌+◌, Bool, true, false, List, [], ◌∷◌, Option, none, if◌then◌else◌, is_empty,
}
use kineircd.Prelude.Text.{Text, codes}
use kineircd.Prelude.Int.{ℤ, negsuc}
use kineircd.Network.{Lists}
use kineircd.Clbp.Input.{eol}
use kineircd.Irc2.Output.{Output, send_raw_line, format_message, format_message_from, decimal}

-- kineircd/registrant.h
pub record Registrant : Type 0 where
  pub password : Text
  pub password_kludge : Text
  pub name : Text
  pub username : Text
  pub hostname : Text
  pub description : Text
  pub distribution : Text
  pub modes : Text
  pub protocol : Text
  pub capabilities : List Text
  pub start_stamp : ℤ
  pub link_stamp : ℤ

pub data RegistrationType : Type 0 where
  unregistered iircn server service user : RegistrationType

-- ProtocolInfo::Type, as far as the registrar asks for it.
pub data ProtocolType : Type 0 where
  network_protocol server_protocol user_protocol : ProtocolType

-- The tags of the language data that the registrar sends.
pub data Tag : Type 0 where
  error_protocol_unavailable_user error_protocol_unavailable_iirc : Tag
  error_protocol_unavailable_server error_protocol_unavailable_service : Tag
  error_protocol_unknown error_protocol_init_fail : Tag
  error_conn_disallowed_user error_conn_disallowed_iirc : Tag
  error_conn_disallowed_server error_conn_disallowed_service : Tag
  error_broken_registration_data error_bad_pong notice_anti_spoof_ping_help : Tag
  err_needmoreparams err_alreadyregistered err_nonicknamegiven : Tag
  err_erroneusnickname err_nicknameinuse : Tag

-- What the registrar is given: the character set conversion of the connection, the language data,
-- the string functions of aisutil, the texts that rand() makes, the server's name, the registry,
-- the daemon's protocols, the flags of the listener and the limits of the
-- configuration; `debug` is whether KINE_DEBUG is defined.
pub record Environment : Type 0 where
  pub localise : Text → Text
  pub delocalise : Text → Text
  pub language : Tag → List Text → Text
  pub to_upper : Text → Text
  pub to_int : Text → ℤ
  pub to_long : Text → ℤ
  pub random_text : ℕ → Text
  pub server_name : Text
  pub lists : Lists
  pub find_protocol : ProtocolType → Text → Option ℕ
  pub create_protocol : ℕ → Registrant → Text → Text → Option ℕ
  pub allow_networks : Bool
  pub allow_servers : Bool
  pub allow_services : Bool
  pub allow_users : Bool
  pub max_nickname_length : ℕ
  pub max_description_length : ℕ
  pub max_real_name_length : ℕ
  pub debug : Bool

-- The protocol instance with its connection. `pings` counts the calls of rand(); `replaced` is the
-- protocol that the connection was handed over to.
pub record Registrar : Type 0 where
  pub registrant : Registrant
  pub registration_type : RegistrationType
  pub pongs_left : ℕ
  pub pong_match : Text
  pub pings : ℕ
  pub output : Output
  pub connected : Bool
  pub replaced : Option ℕ

-- The constructors of Registrant and Protocol.
abbrev pub new_registrant : Registrant
new_registrant = record {
  password = [];
  password_kludge = [];
  name = [];
  username = [];
  hostname = [];
  description = [];
  distribution = [];
  modes = [];
  protocol = [];
  capabilities = [];
  start_stamp = negsuc 0;
  link_stamp = negsuc 0;
}

abbrev pub new_registrar : Registrar
new_registrar = record {
  registrant = new_registrant;
  registration_type = unregistered;
  pongs_left = 1;
  pong_match = [];
  pings = 0;
  output = record { queue = []; message_count = 0 };
  connected = true;
  replaced = none;
}

abbrev pub is_unregistered : RegistrationType → Bool
is_unregistered unregistered = true
is_unregistered _ = false

-- Connection::goodbye
unfoldable pub goodbye : Registrar → Registrar
goodbye r = record r { connected = false }

unfoldable pub send_message : Text → List Text → Registrar → Registrar
send_message command parameters r = record r {
  output = send_raw_line eol (format_message command parameters) r.output;
}

-- The template sendError of libirc2/output.h.
unfoldable pub send_error : Text → Registrar → Registrar
unfolding send_message goodbye
send_error error r = goodbye (send_message (codes "ERROR") (error ∷ []) r)

module _ (env : Environment) where
  open env use {
    localise, delocalise, language, to_upper, to_int, to_long, random_text, server_name, lists,
    find_protocol, create_protocol, max_nickname_length, max_description_length,
    max_real_name_length,
  }

  unfoldable pub send_numeric : ℕ → List Text → Registrar → Registrar
  send_numeric numeric parameters r =
      let name = r.registrant.name in
      let target = if is_empty name then b'*' ∷ [] else delocalise name in
      record r {
        output =
            send_raw_line eol
              (format_message_from server_name (decimal numeric) (target ∷ parameters)) r.output;
      }

  unfoldable pub send_ping : Registrar → Registrar
  unfolding send_message
  send_ping r =
      let text = random_text r.pings in
      send_message (codes "PING") (text ∷ []) (record r { pong_match = text; pings = r.pings + 1 })

  unfoldable pub need_more_params : Text → Registrar → Registrar
  unfolding send_numeric
  need_more_params command = send_numeric 461 (command ∷ language err_needmoreparams [] ∷ [])
