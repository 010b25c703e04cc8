-- ===== src/Irc2User/Handlers/Targets.antt =====
-- NAMES: handleNAMES, home/kineircd/src/mod_irc2user/handlers.cpp.
use kineircd.Prelude.{List, [], ◌∷◌, ◌++◌, Option, none, some}
use kineircd.Prelude.Text.{Text}
use kineircd.Registry.{find_entity}
use kineircd.Irc2.Tokens.{Tokens}
use kineircd.Irc2.Tokens.Listed.{listed}
use kineircd.Irc2User.Handlers.{Answer, World, send_names, end_of_names}

-- The channels that are found, in the order that was asked.
unfoldable pub names_of : World → List Text → List Answer
unfolding find_entity
names_of w [] = []
names_of w (target ∷ targets) = elim (find_entity w.lists.channels (w.localise target)) [
  | none ↦ names_of w targets
  | some channel ↦ send_names channel ∷ names_of w targets
]

abbrev pub names_request : List Text → Text
names_request [] = b'*' ∷ []
names_request (p ∷ ps) = p

unfoldable pub handle_names : Tokens → World → List Text → Option (List Answer)
unfolding names_of listed
handle_names t w ps = elim (listed t (names_request ps)) [
  | none ↦ none
  | some targets ↦ some (names_of w targets ++ end_of_names ∷ [])
]
