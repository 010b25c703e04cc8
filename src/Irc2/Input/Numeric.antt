-- ===== src/Irc2/Input/Numeric.antt =====
-- Numeric replies are read back by parseLine.
use kineircd.Prelude.{ℕ, ◌≡◌, ◌≢◌, ◌<◌, List, [], ◌∷◌, ◌++◌, All, arith, ◌∙◌, ap, refl}
use kineircd.Prelude.Text.{Text}
use kineircd.Irc2.Tokens.{Tokens, AreTokens}
use kineircd.Irc2.Input.{parse, message}
use kineircd.Irc2.Input.RoundTrip.{IsMiddle, IsTrailing, parse-format_message_from}
use kineircd.Irc2.Output.{join, format_message, format_message_from, format_numeric, three_places}

three_places-IsMiddle : (n : ℕ) → n < 1000 → IsMiddle (three_places n)
unfolding three_places
three_places-IsMiddle n h =
    (((λ e. cc), (omega arith, (omega arith, (omega arith, tt)))), omega arith)

format_numeric-from :
    (server nickname : Text) (n : ℕ) (ps : List Text) (last : Text)
    → format_numeric server nickname n (ps ++ last ∷ [])
      ≡ format_message_from server (three_places n) (nickname ∷ ps ++ last ∷ [])
unfolding format_numeric format_message_from format_message join
format_numeric-from server nickname n [] last = refl
format_numeric-from server nickname n (p ∷ ps) last = refl

module _ (t : Tokens) (l : AreTokens t) where
  -- With a tokenizer that is as Irc2/Tokens asks: a numeric reply below 1000 to a nickname that is
  -- a word and does not begin with a colon, from a server whose name has no space, is read back,
  -- if toUpper leaves its digits as they are and the parameters are as for a message. The origin
  -- is the server, the command is the numeric in three digits, and the nickname stands in front of
  -- the parameters.
  pub parse-format_numeric :
      (server nickname : Text) (n : ℕ) (ps : List Text) (last : Text)
      → n < 1000
      → t.to_upper (three_places n) ≡ three_places n
      → All (λ c. c ≢ b' ') server
      → IsMiddle nickname
      → All IsMiddle ps
      → IsTrailing last
      → parse t (format_numeric server nickname n (ps ++ last ∷ []))
        ≡ message server (three_places n) (nickname ∷ ps ++ last ∷ [])
  parse-format_numeric server nickname n ps last h u o m ms v =
      ap (parse t) (format_numeric-from server nickname n ps last)
      ∙ parse-format_message_from t l server (three_places n) (nickname ∷ ps) last o
          (three_places-IsMiddle n h) u (m, ms) v
