-- ===== src/Examples/Connections.antt =====
-- A connection whose protocol answers each text with the text.
use kineircd.Prelude.{ℕ, suc, ◌≡◌, Bool, true, false, List, [], ◌∷◌, ◌++◌, some, none, length}
use kineircd.Prelude.Text.{Text, codes}
use kineircd.Connection.{Connection, connect}
use kineircd.Connection.Polled.{Event, read, write, perform_all}
use kineircd.Connection.Sent.{line_based, sent_all, answers, perform_all-sent}
use kineircd.Examples.Daemons.{idle}

abbrev echo : Text → ℕ → Bool × (ℕ × Text)
echo line count = (false, (suc count, line))

abbrev connection : Connection (ℕ × Text)
connection = connect 5 true 0 (0, [])

abbrev events : List Event
events =
    read (some (codes "one")) 1
    ∷ write 2 length
    ∷ read (some (codes "two")) 2
    ∷ write 2 length
    ∷ read none 3
    ∷ []

perform_all-sent_example :
    sent_all echo events connection idle
      ++ (perform_all (line_based echo) events connection idle).0.protocol.1
    ≡ connection.protocol.1 ++ answers echo connection.connected events connection.protocol.0
perform_all-sent_example = perform_all-sent echo events connection idle
