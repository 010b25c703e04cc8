-- ===== src/User/Staff.antt =====
-- The word that becomes a staff status.
use kineircd.Prelude.{◌≡◌, refl, [], ◌∷◌, ◌++◌, if◌then◌else◌, is_empty, take}
use kineircd.Prelude.Text.{Text, find_first_of_nil}
use kineircd.Error.{no_error}
use kineircd.User.{User, staff_status_change, change_staff_status}

-- A staff status is accepted whatever its characters: it is the first 32 of them in upper case,
-- cut at no delimiter, and an empty status is the removal. The user is told once, and the away
-- message and the languages are as before.
pub change_staff_status-take :
    (to_upper : Text → Text) (status : Text) (u : User)
    → let (error, u') = change_staff_status to_upper status u in
      (error ≡ no_error)
      × (u'.staff_status ≡ (if is_empty status then [] else to_upper (take 32 status)))
      × (u'.events ≡ u.events ++ staff_status_change ∷ [])
      × (u'.away_message ≡ u.away_message)
      × (u'.languages ≡ u.languages)
unfolding change_staff_status
change_staff_status-take to_upper [] u = (refl, refl, refl, refl, refl)
change_staff_status-take to_upper (c ∷ status) u =
    (refl, rw (find_first_of_nil (c ∷ status), change_staff_status), refl, refl, refl)
