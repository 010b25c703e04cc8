-- ===== src/Examples/Replies.antt =====
-- The replies to a user.
use kineircd.Prelude.{◌≡◌, refl, true, false, List, [], ◌∷◌}
use kineircd.Prelude.Text.{codes}
use kineircd.User.{User}
use kineircd.Irc2User.Names.{Member, Asker, Language, send_names}

abbrev wilma : User
wilma = record { away_message = []; away_since = 0; staff_status = []; languages = []; events = [] }

abbrev asker : Asker
asker = record { is_operator = false; is_staff = false; is_member = false; channel_hidden = false }

abbrev members : List Member
members =
    record { nickname = codes "fred"; hidden = false }
    ∷ record { nickname = codes "barney"; hidden = true }
    ∷ record { nickname = codes "wilma"; hidden = false }
    ∷ []

send_names_test : send_names (λ t. t) 8 asker members ≡ codes "fred" ∷ codes "wilma" ∷ []
unfolding send_names
send_names_test = refl

abbrev english : Language
english = record { code = codes "en"; name = codes "English" }
