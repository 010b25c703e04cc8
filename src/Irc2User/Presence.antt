-- ===== src/Irc2User/Presence.antt =====
-- AWAY and ISON: home/kineircd/src/mod_irc2user/handlers.cpp, with User::doEventAwayToggle of
-- user.cpp beside it.
pub mod Away
pub mod Ison
use kineircd.Prelude.{
  ℕ, Bool, List, [], ◌∷◌, ◌++◌, Option, none, some, if◌then◌else◌, is_empty, not,
}
use kineircd.Prelude.Text.{Text}
use kineircd.Error.{Error, is_ok}
use kineircd.User.{User, Event, away_toggle, set_away, set_here}
use kineircd.Network.{Lists, find_client}

pub data Reply : Type 0 where
  now_away : Text → Reply
  unaway : Reply
  unknown_error_reply : Reply

-- The numeric for the away message as it is.
abbrev pub do_event_away_toggle : Text → List Reply
do_event_away_toggle message = if is_empty message then unaway ∷ [] else now_away message ∷ []

-- The user behind the command, and the numerics: that of the event, and the complaint.
unfoldable pub handle_away : (Text → Text) → ℕ → List Text → User → List Reply × User
unfolding set_away set_here
handle_away localise now [] u =
    let (error, u') = set_here u in
    (
      do_event_away_toggle u'.away_message
          ++ (if is_ok error then [] else unknown_error_reply ∷ []),
      u',
    )
handle_away localise now (reason ∷ ps) u =
    let (error, u') = set_away now (localise reason) u in
    (
      do_event_away_toggle u'.away_message
          ++ (if is_ok error then [] else unknown_error_reply ∷ []),
      u',
    )

module _ (lists : Lists) (localise : Text → Text) (nickname_of : ℕ → Text) where
  -- The loop over the nicknames. `nickname_of` is the nickname of a client, delocalised.
  unfoldable pub ison_from : Text → List Text → Text
  unfolding find_client
  ison_from reply [] = reply
  ison_from reply (p ∷ ps) = elim (find_client lists (localise p)) [
    | none ↦ ison_from reply ps
    | some client ↦
        ison_from
          (if is_empty reply then nickname_of client else reply ++ b' ' ∷ nickname_of client) ps
  ]

  -- The text of RPL_ISON.
  unfoldable pub handle_ison : List Text → Text
  unfolding ison_from
  handle_ison ps = ison_from [] ps
