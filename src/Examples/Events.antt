-- ===== src/Examples/Events.antt =====
-- RPL_ISUPPORT and private messages, as they are read.
use kineircd.Prelude.{ℕ, ◌≡◌, refl, Bool, true, false, [], ◌∷◌, none, arith, All}
use kineircd.Prelude.Text.{Text, codes}
use kineircd.Config.{var_handle_network_name}
use kineircd.Irc2.Input.RoundTrip.{one_word}
use kineircd.Irc2User.Support.{send_isupport, max_output_length}
use kineircd.Irc2User.Support.Chunks.{AreChunks, send_isupport-AreChunks}
use kineircd.Irc2User.Support.Tags.{
  Facts, init_info, pre_init_info, when, has_command, has_messages,
}
use kineircd.Irc2User.Support.Middle.{NoSpace}
use kineircd.Irc2User.Support.Parsed.{IsRead, isupport-AreRead}
use kineircd.Irc2User.Events.{
  Sender, client, origin, do_event_receive_private_message, do_event_receive_private_notice,
}
use kineircd.Irc2User.Events.Received.{IsReceived, private-AreReceived}
use kineircd.Examples.Instances.{split_tokens, split-AreTokens}

abbrev sender : Sender
sender =
    client (record {
      address = 1;
      nickname = codes "ann";
      username = codes "a";
      hostname = codes "host";
    })

private-AreReceived_example :
    IsReceived split_tokens split-AreTokens
      (λ s. s)
      (do_event_receive_private_message (λ s. s) (codes "bob") sender (codes "hello"))
      (codes "PRIVMSG")
      sender
      (codes "bob")
      (codes "hello")
    × IsReceived split_tokens split-AreTokens
        (λ s. s)
        (do_event_receive_private_notice (λ s. s) (codes "bob") sender (codes "hello"))
        (codes "NOTICE")
        sender
        (codes "bob")
        (codes "hello")
unfolding origin
private-AreReceived_example =
    private-AreReceived split_tokens split-AreTokens (λ s. s) sender (codes "bob") (codes "hello")
      (ground arith) refl refl (((λ e. cc), ground arith), omega arith)
      (one_word (codes "hello") (ground arith))

abbrev facts : Facts
facts = record {
  limits = record {
    users_max_nick_name_length = 15;
    channels_max_topic_length = 300;
    max_kick_reason_length = 300;
    channels_max_name_length = 50;
    users_max_channels = 10;
    max_targets = 4;
    users_max_silences = 10;
    users_max_accepts = 10;
    users_max_watches = 10;
    channels_max_bans = 20;
    users_max_languages = 3;
  };
  is_named = true;
  network_name = codes "net";
  languages = (true, codes "en") ∷ (false, codes "de") ∷ [];
}

-- No optional command.
abbrev undefined : Text → Bool
undefined macro = false

abbrev one_digit : ℕ → Text
one_digit n = b'7' ∷ []

one_digit-NoSpace : (n : ℕ) → NoSpace (one_digit n)
one_digit-NoSpace n = (omega arith, tt)

tags_test :
    init_info undefined one_digit facts
    ≡ codes "STD=i-d"
      ∷ codes "FNC"
      ∷ codes "INVEX"
      ∷ codes "EXCEPTS"
      ∷ codes "PENALTY"
      ∷ codes "RFC2812"
      ∷ codes "IIRC"
      ∷ codes "CHARSET=UTF-8"
      ∷ codes "CASEMAPPING=rfc1459"
      ∷ codes "PREFIX=(!uohv)!.@%+"
      ∷ codes "NETWORK=net"
      ∷ []
unfolding init_info pre_init_info when has_command has_messages
tags_test = refl

chunks :
    AreChunks
      (max_output_length 20 4 11)
      (init_info undefined one_digit facts)
      (send_isupport 20 4 11 (init_info undefined one_digit facts))
unfolding max_output_length
chunks =
    send_isupport-AreChunks 20 4 11 (init_info undefined one_digit facts)
      (rw tags_test (ground arith))

isupport-AreRead_example :
    All
      (IsRead split_tokens split-AreTokens (codes "irc") (codes "ann") (codes "supported"))
      chunks.groups
isupport-AreRead_example =
    isupport-AreRead split_tokens split-AreTokens (codes "irc") (codes "ann") (codes "supported")
      refl (ground arith) (((λ e. cc), ground arith), omega arith)
      (one_word (codes "supported") (ground arith)) undefined one_digit (codes "net") [] [] none
      facts (max_output_length 20 4 11)
      (send_isupport 20 4 11 (init_info undefined one_digit facts)) one_digit-NoSpace (ground arith)
      tt (unfold var_handle_network_name in refl) (ground arith) chunks
