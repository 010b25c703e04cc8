-- ===== src/Irc2User/Events.antt =====
-- What a user is told of events: home/kineircd/src/mod_irc2user/user.cpp, with makeNickUserHostIdent
-- of home/kineircd/include/kineircd/libirc2/utility.h. (The away event is in Presence.)
pub mod Received
use kineircd.Prelude.{ℕ, Bool, List, [], ◌∷◌, ◌++◌, Option, none, some, if◌then◌else◌}
use kineircd.Prelude.Text.{Text, codes}
use kineircd.Irc2.Output.{format_message_from}

-- The number tells clients apart.
pub record Client : Type 0 where
  pub address : ℕ
  pub nickname : Text
  pub username : Text
  pub hostname : Text

-- A sender is a client, or another entity with its name.
pub data Sender : Type 0 where
  client : Client → Sender
  entity : Text → Sender

pub record Channel : Type 0 where
  pub name : Text
  pub topic : Option (Text × (Text × ℕ))
  pub creation_time : ℕ
  pub url : Option Text

-- A message with its origin, command and parameters; the numerics, and the calls of the protocol.
pub data Sent : Type 0 where
  message_from : Text → Text → List Text → Sent
  names language_list : Sent
  end_of_names channel_mode_is : Text → Sent
  topic_is channel_url : Text → Text → Sent
  topic_who_time : Text → Text → ℕ → Sent
  creation_time_is : Text → ℕ → Sent

unfoldable pub make_nick_user_host_ident : Client → Text
make_nick_user_host_ident c = c.nickname ++ (b'!' ∷ (c.username ++ (b'@' ∷ c.hostname)))

module _ (delocalise : Text → Text) where
  unfoldable pub origin : Sender → Text
  unfolding make_nick_user_host_ident
  origin (client c) = delocalise (make_nick_user_host_ident c)
  origin (entity name) = delocalise name

  -- The topic with the one who set it, where there is one.
  unfoldable pub channel_topic : Channel → List Sent
  channel_topic ch = elim ch.topic [
    | none ↦ []
    | some (topic, (changer, time)) ↦
        topic_is (delocalise ch.name) (delocalise topic)
        ∷ topic_who_time (delocalise ch.name) (delocalise changer) time
        ∷ []
  ]

  unfoldable pub channel_url_of : Channel → List Sent
  channel_url_of ch = elim ch.url [
    | none ↦ []
    | some url ↦ channel_url (delocalise ch.name) (delocalise url) ∷ []
  ]

  unfoldable pub channel_information : Channel → List Sent
  unfolding channel_topic channel_url_of
  channel_information ch =
      let name = delocalise ch.name in
      names
      ∷ end_of_names name
      ∷ channel_mode_is name
      ∷ (channel_topic ch ++ (creation_time_is name ch.creation_time ∷ channel_url_of ch))

  -- Whether the client is the user itself is `is_this`.
  unfoldable pub do_event_channel_join : Bool → Channel → Client → List Sent
  unfolding channel_information origin
  do_event_channel_join is_this ch c =
      message_from (origin (client c)) (codes "JOIN") (delocalise ch.name ∷ [])
      ∷ (if is_this then channel_information ch else [])

  unfoldable pub do_event_channel_part : Channel → Client → Option Text → List Sent
  unfolding origin
  do_event_channel_part ch c none =
      message_from (origin (client c)) (codes "PART") (delocalise ch.name ∷ []) ∷ []
  do_event_channel_part ch c (some reason) =
      message_from (origin (client c)) (codes "PART") (delocalise ch.name ∷ delocalise reason ∷ [])
      ∷ []

  unfoldable pub do_event_channel_topic_change : Text → Text → Text → List Sent
  do_event_channel_topic_change channel_name topic name =
      message_from (delocalise name) (codes "TOPIC")
        (delocalise channel_name ∷ delocalise topic ∷ [])
      ∷ []

  unfoldable pub do_event_language_change : List Sent
  do_event_language_change = language_list ∷ []

  unfoldable pub do_event_nickname_change : Client → Text → List Sent
  unfolding origin
  do_event_nickname_change c new_nickname =
      message_from (origin (client c)) (codes "NICK") (delocalise new_nickname ∷ []) ∷ []

  -- Both branches, on a client and on another sender, differ in the origin only.
  unfoldable pub receive : Text → Sender → Text → Text → List Sent
  unfolding origin
  receive command from target message =
      message_from (origin from) command (delocalise target ∷ delocalise message ∷ []) ∷ []

  unfoldable pub do_event_receive_channel_message : Sender → Channel → Text → List Sent
  unfolding receive
  do_event_receive_channel_message from ch message = receive (codes "PRIVMSG") from ch.name message

  unfoldable pub do_event_receive_channel_notice : Sender → Channel → Text → List Sent
  unfolding receive
  do_event_receive_channel_notice from ch message = receive (codes "NOTICE") from ch.name message

  -- `name` is the user's own.
  unfoldable pub do_event_receive_private_message : Text → Sender → Text → List Sent
  unfolding receive
  do_event_receive_private_message name from message = receive (codes "PRIVMSG") from name message

  unfoldable pub do_event_receive_private_notice : Text → Sender → Text → List Sent
  unfolding receive
  do_event_receive_private_notice name from message = receive (codes "NOTICE") from name message
