-- ===== src/Irc2User/Handlers/Nickname.antt =====
-- NICK: handleNICK, home/kineircd/src/mod_irc2user/handlers.cpp.
use kineircd.Prelude.{◌≡◌, refl, List, [], ◌∷◌}
use kineircd.Prelude.Text.{Text}
use kineircd.Error.{
  Error, no_error, name_has_bad_chars, name_is_in_use, name_too_long, nickname_begins_with_digit,
}
use kineircd.User.{User, change_nickname}
use kineircd.Irc2User.Handlers.{
  Answer, World, bad_chars, too_long, begins_with_digit, unexplained, erroneous_nickname,
  nickname_in_use, no_nickname_given, change_nickname as change_nickname_call,
}

-- The switch over the result.
unfoldable pub nick_reply : Text → Error → List Answer
nick_reply name no_error = []
nick_reply name name_has_bad_chars = erroneous_nickname name bad_chars ∷ []
nick_reply name name_is_in_use = nickname_in_use name ∷ []
nick_reply name name_too_long = erroneous_nickname name too_long ∷ []
nick_reply name nickname_begins_with_digit = erroneous_nickname name begins_with_digit ∷ []
nick_reply name error = erroneous_nickname name unexplained ∷ []

-- The two tests before the change are `false` in the source.
unfoldable pub handle_nick : World → List Text → User → List Answer × User
unfolding nick_reply
handle_nick w [] u = (no_nickname_given ∷ [], u)
handle_nick w (p ∷ ps) u =
    let name = w.localise p in
    let (error, u') = change_nickname name u in (change_nickname_call name ∷ nick_reply p error, u')

-- A change of nickname is always refused, and the reason that is given is none of those that the
-- answers know: whatever the nickname and the standing of the user, who is as before.
pub handle_nick-refused :
    (w : World) (p : Text) (ps : List Text) (u : User)
    → handle_nick w (p ∷ ps) u
      ≡ (change_nickname_call (w.localise p) ∷ erroneous_nickname p unexplained ∷ [], u)
unfolding handle_nick
handle_nick-refused w p ps u = refl
