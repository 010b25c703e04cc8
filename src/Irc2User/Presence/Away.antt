-- ===== src/Irc2User/Presence/Away.antt =====
-- What AWAY does.
use kineircd.Prelude.{ℕ, ◌≡◌, refl, List, [], ◌∷◌, if◌then◌else◌, is_empty, get_or, arith}
use kineircd.Prelude.Text.{Text}
use kineircd.User.{User, is_away}
use kineircd.Irc2User.Presence.{now_away, unaway, handle_away}

-- AWAY is answered by one numeric, which tells what the user is from then on. The away message is
-- the parameter, or empty; so a user with an empty parameter is not away, although the time of
-- going away is set. The staff status and the languages are as before.
pub handle_away_cases :
    (localise : Text → Text) (now : ℕ) (ps : List Text) (u : User)
    → let (replies, u') = handle_away localise now ps u in
      (replies ≡ (if is_away u' then now_away u'.away_message ∷ [] else unaway ∷ []))
      × (u'.away_message ≡ (if is_empty ps then [] else localise (get_or ps 0 [])))
      × (u'.away_since ≡ (if is_empty ps then u.away_since else now))
      × (u'.staff_status ≡ u.staff_status)
      × (u'.languages ≡ u.languages)
unfolding handle_away
handle_away_cases localise now [] u = (refl, refl, refl, refl, refl)
handle_away_cases localise now (p ∷ ps) u = (ground arith, refl, refl, refl, refl)
