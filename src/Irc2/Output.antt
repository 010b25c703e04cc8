-- ===== src/Irc2/Output.antt =====
-- Formatting of messages: home/kineircd/include/kineircd/libirc2/output.h. The overloads of
-- sendMessage, sendMessageFrom and sendNumeric for 0 to 9 parameters are one function each over
-- the list of parameters, as text.
use kineircd.Prelude.{ℕ, ◌+◌, ◌%◌, ◌/◌, ◌^◌, List, [], ◌∷◌, ◌++◌, if◌then◌else◌, ltb}
use kineircd.Prelude.Text.{Text}
use kineircd.Clbp.Output.{output_line}

-- The output queue and the counter of sent messages, an unsigned long of 64 bits.
pub record Output : Type 0 where
  pub queue : Text
  pub message_count : ℕ

unfoldable pub send_raw_line : Text → Text → Output → Output
send_raw_line eol_chars line o = record {
  queue = output_line eol_chars line o.queue;
  message_count = (o.message_count + 1) % 2 ^ 64;
}

-- Every parameter behind a space; the last one behind a colon, too.
unfoldable pub join : List Text → Text
join [] = []
join (p ∷ []) = b' ' ∷ b':' ∷ p
join (p ∷ q ∷ ps) = b' ' ∷ (p ++ join (q ∷ ps))

unfoldable pub format_message : Text → List Text → Text
unfolding join
format_message command parameters = command ++ join parameters

unfoldable pub format_message_from : Text → Text → List Text → Text
unfolding format_message
format_message_from origin command parameters =
    b':' ∷ (origin ++ b' ' ∷ format_message command parameters)

-- A numeric in decimal, as `operator<<` prints it (a numeric is below 1000), and in three places.
unfoldable pub decimal : ℕ → Text
decimal n =
    if ltb n 10
    then (0x30 + n) ∷ []
    else if ltb n 100
    then (0x30 + n / 10) ∷ (0x30 + n % 10) ∷ []
    else (0x30 + n / 100) ∷ (0x30 + n / 10 % 10) ∷ (0x30 + n % 10) ∷ []

unfoldable pub three_places : ℕ → Text
three_places n = (0x30 + n / 100) ∷ (0x30 + n / 10 % 10) ∷ (0x30 + n % 10) ∷ []

-- sendNumeric to a client: the server's name, the numeric and the client's nickname stand in front.
unfoldable pub format_numeric : Text → Text → ℕ → List Text → Text
unfolding three_places join
format_numeric server nickname numeric parameters =
    b':' ∷ (server ++ b' ' ∷ (three_places numeric ++ b' ' ∷ (nickname ++ join parameters)))
