-- ===== src/Examples/Messages.antt =====
-- Messages, with the streams of tokens of Examples/Instances.
use kineircd.Prelude.{◌≡◌, refl, [], ◌∷◌, arith}
use kineircd.Prelude.Text.{codes}
use kineircd.Irc2.Input.{parse, message}
use kineircd.Irc2.Input.RoundTrip.{one_word, parse-format_message_from}
use kineircd.Irc2.Output.{format_message_from}
use kineircd.Examples.Instances.{split_tokens, split-AreTokens, split}

parse_test :
    parse split_tokens (codes ":fred PRIVMSG wilma :hello there")
    ≡ message (codes "fred") (codes "PRIVMSG") (codes "wilma" ∷ codes "hello there" ∷ [])
unfolding parse split
parse_test = refl

parse-format_message_from_example :
    parse split_tokens
      (format_message_from (codes "irc") (codes "PING") (codes "a" ∷ codes "b" ∷ []))
    ≡ message (codes "irc") (codes "PING") (codes "a" ∷ codes "b" ∷ [])
parse-format_message_from_example =
    parse-format_message_from split_tokens split-AreTokens (codes "irc") (codes "PING")
      (codes "a" ∷ []) (codes "b") (ground arith) (((λ e. cc), ground arith), omega arith) refl
      (((((λ e. cc), ground arith), omega arith)), tt) (one_word (codes "b") (ground arith))
