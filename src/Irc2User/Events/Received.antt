-- ===== src/Irc2User/Events/Received.antt =====
-- Messages that a user receives, as its program reads them.
use kineircd.Prelude.{◌≡◌, ◌≢◌, refl, ap, List, [], ◌∷◌, ◌++◌, map, All, arith}
use kineircd.Prelude.Text.{Text, codes}
use kineircd.Irc2.Tokens.{Tokens, AreTokens}
use kineircd.Irc2.Input.{parse, message}
use kineircd.Irc2.Input.RoundTrip.{IsMiddle, IsTrailing, parse-format_message_from}
use kineircd.Irc2.Output.{format_message_from}
use kineircd.Irc2User.Events.{
  Sender, Sent, message_from, do_event_receive_private_message, do_event_receive_private_notice,
  receive, origin, client, entity, make_nick_user_host_ident,
}

abbrev pub NoSpace : Text → Type 0
NoSpace = All (λ c. c ≢ b' ')

-- The lines of what is sent as messages.
pub lines : List Sent → List Text
lines [] = []
lines (message_from origin command ps ∷ sent) = format_message_from origin command ps ∷ lines sent
lines (s ∷ sent) = lines sent

-- The sender as the message is to name it: a client by its nickname, the user's name and the host's,
-- anything else by its name.
abbrev pub named : Sender → Text
named (client c) = c.nickname ++ (codes "!" ++ (c.username ++ (codes "@" ++ c.hostname)))
named (entity name) = name

origin-named :
    (delocalise : Text → Text) (from : Sender) → origin delocalise from ≡ delocalise (named from)
unfolding origin make_nick_user_host_ident
origin-named delocalise (client c) = refl
origin-named delocalise (entity name) = refl

module _ (t : Tokens) (l : AreTokens t) (delocalise : Text → Text) where
  -- A line that is read with the origin of a sender, the command, the target and the text.
  pub IsReceived : List Sent → Text → Sender → Text → Text → Type 0
  IsReceived sent command from target text =
      map (parse t) (lines sent)
      ≡ message (delocalise (named from)) command (delocalise target ∷ delocalise text ∷ []) ∷ []

  module _ (from : Sender) (target text : Text) where
    receive-IsReceived :
        (command : Text)
        → NoSpace (delocalise (named from))
        → IsMiddle command
        → t.to_upper command ≡ command
        → IsMiddle (delocalise target)
        → IsTrailing (delocalise text)
        → IsReceived (receive delocalise command from target text) command from target text
    unfolding IsReceived receive lines
    receive-IsReceived command o m u k v = rw (origin-named delocalise from) (
        ap (λ p. p ∷ [])
          (parse-format_message_from t l (delocalise (named from)) command (delocalise target ∷ [])
            (delocalise text) o m u (k, tt) v))

    -- With a tokenizer that is as Irc2/Tokens asks, a sender whose name has no spaces, a nickname that
    -- is a word and does not begin with a colon, and a text that can be a last parameter: a private
    -- message or a notice that a user receives is one line, which parseLine reads as PRIVMSG or NOTICE
    -- with the sender (of a client, the nickname, "!", the user's name, "@" and the host's), the
    -- nickname of the user and the text.
    pub private-AreReceived :
        NoSpace (delocalise (named from))
        → t.to_upper (codes "PRIVMSG") ≡ codes "PRIVMSG"
        → t.to_upper (codes "NOTICE") ≡ codes "NOTICE"
        → IsMiddle (delocalise target)
        → IsTrailing (delocalise text)
        → IsReceived
            (do_event_receive_private_message delocalise target from text)
            (codes "PRIVMSG")
            from
            target
            text
          × IsReceived
              (do_event_receive_private_notice delocalise target from text)
              (codes "NOTICE")
              from
              target
              text
    unfolding do_event_receive_private_message do_event_receive_private_notice
    private-AreReceived o u w k v = (
      receive-IsReceived (codes "PRIVMSG") o (((λ e. cc), ground arith), omega arith) u k v,
      receive-IsReceived (codes "NOTICE") o (((λ e. cc), ground arith), omega arith) w k v,
    )
