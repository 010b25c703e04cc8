-- ===== src/Irc2User/Dispatch/Safe.antt =====
-- The handlers read no parameter that is not there.
use kineircd.Prelude.{
  ◌≡◌, ◌≤◌, List, [], ◌∷◌, Option, none, some, arith, All, length, Bool-cases, inl, inr,
}
use kineircd.Prelude.Text.{Text, text_eq}
use kineircd.User.{User}
use kineircd.Irc2.Tokens.{Tokens, AreTokens}
use kineircd.Irc2User.Commands.{
  CommandInfo, Commands, find_command, Standing, parse_message, Outcome,
}
use kineircd.Irc2User.Dispatch.{Effect, Session, obey, process}
use kineircd.Irc2User.Commands.Answers.{
  IsAnswer, is_unknown, is_disabled, is_refused, is_short, is_called, lookup,
  parse_message-IsAnswer,
}
use kineircd.Irc2User.Dispatch.Effects.{
  required, HasLanguage, IsAnswered, answered, dispatch-IsAnswered,
}

-- The table asks for all parameters that a handler reads.
abbrev pub IsTable : Commands → Type 0
IsTable list = All (λ c. required c.1.handler ≤ c.1.minimum_params) list

abbrev IsEntry : Option CommandInfo → Type 0
IsEntry none = Unit
IsEntry (some info) = required info.handler ≤ info.minimum_params

lookup-IsEntry : (name : Text) (list : Commands) → IsTable list → IsEntry (lookup name list)
lookup-IsEntry name [] h = tt
lookup-IsEntry name ((n, info) ∷ list) h = elim (Bool-cases (text_eq n name)) [
  | inl e ↦ rw (lookup, e) h.0
  | inr e ↦ rw (lookup, e) (lookup-IsEntry name list h.1)
]

find_command-IsTable :
    (name : Text) (list : Commands) → IsTable list → IsTable (find_command name list).1
unfolding find_command
find_command-IsTable name [] h = h
find_command-IsTable name ((n, info) ∷ list) h = elim (Bool-cases (text_eq n name)) [
  | inl e ↦ rw (find_command, e) h
  | inr e ↦ rw (find_command, e) (h.0, find_command-IsTable name list h.1)
]

parse_message-IsTable :
    (user : Standing) (name : Text) (ps : List Text) (list : Commands)
    → IsTable list
    → IsTable (parse_message user name ps list).1
unfolding parse_message
parse_message-IsTable user name ps list h = find_command-IsTable name list h

module _ (t : Tokens) (l : AreTokens t) (s : Session) where
  obey-IsAnswered :
      (list : Commands) (o : Option CommandInfo) (outcome : Outcome) (ps : List Text) (u : User)
      → IsAnswer s.standing (length ps) o outcome
      → IsEntry o
      → HasLanguage u
      → IsAnswered (obey t s list outcome ps u)
  unfolding obey
  obey-IsAnswered list _ _ ps u is_unknown h k = answered _ _ k
  obey-IsAnswered list _ _ ps u (is_disabled info e) h k = answered _ _ k
  obey-IsAnswered list _ _ ps u (is_refused info e a) h k = answered _ _ k
  obey-IsAnswered list _ _ ps u (is_short info e a m) h k = answered _ _ k
  obey-IsAnswered list _ _ ps u (is_called info e a m) h k =
      dispatch-IsAnswered t l s list info.handler ps u k (omega arith)

  -- With a tokenizer that is as Irc2/Tokens asks: where the table asks for all parameters that the
  -- handlers read, and the user has a first language, every message is answered. Its handler reads
  -- no parameter that is not there and ends. The table and the user are as required afterwards.
  pub process-answers :
      (m : Text × List Text) (list : Commands) (u : User)
      → IsTable list
      → HasLanguage u
      → (e : Effect) × (list' : Commands) × (u' : User) × (process t s m (list, u)
          ≡ some (e, (list', u')))
        × IsTable list'
        × HasLanguage u'
  unfolding process
  process-answers (command, ps) list u h k =
      let (outcome, list') = parse_message s.standing command ps list in
      let (e, u', f, k') =
        obey-IsAnswered list' (lookup command list) outcome ps u
          (parse_message-IsAnswer s.standing command ps list).0 (lookup-IsEntry command list h) k in
      (e, list', u', rw (process, f), parse_message-IsTable s.standing command ps list h, k')
