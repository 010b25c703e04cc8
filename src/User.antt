-- ===== src/User.antt =====
-- The standing of a user: home/kineircd/src/lib/user.cpp, less quit (see Membership).
pub mod Staff
use kineircd.Prelude.{
  ℕ, Bool, true, false, List, [], ◌∷◌, ◌++◌, Option, none, some, if◌then◌else◌, is_empty, not, take,
  min,
}
use kineircd.Prelude.Text.{Text, c_string, find_first_of}
use kineircd.Error.{Error, no_error, unknown_error}

-- The doEvent functions, which are virtual: the away message as it is then, and the entity that
-- sends (its address).
pub data Event : Type 0 where
  away_toggle : Text → Event
  language_change : Event
  staff_status_change : Event
  private_message : ℕ → Text → Event
  private_notice : ℕ → Text → Event

-- A language is its address, or null.
pub record User : Type 0 where
  pub away_message : Text
  pub away_since : ℕ
  pub staff_status : Text
  pub languages : List (Option ℕ)
  pub events : List Event

abbrev pub is_away : User → Bool
is_away u = not (is_empty u.away_message)

abbrev pub add_event : Event → User → User
add_event e u = record u { events = u.events ++ e ∷ [] }

abbrev pub change_nickname : Text → User → Error × User
change_nickname new_nickname u = (unknown_error, u)

unfoldable pub set_away : ℕ → Text → User → Error × User
set_away now reason u = (
  no_error,
  add_event (away_toggle reason) (record u { away_message = reason; away_since = now }),
)

unfoldable pub set_here : User → Error × User
set_here u = (no_error, add_event (away_toggle []) (record u { away_message = [] }))

unfoldable pub set_language_list : List (Option ℕ) → Bool → User → Error × User
set_language_list languages secret u =
    let changed = record u { languages = languages } in
    (no_error, if secret then changed else add_event language_change changed)

-- The argument of find_first_of is a C string that begins with NUL.
abbrev naughty_chars : Text
naughty_chars =
    0 ∷ b'!' ∷ b'"' ∷ b'#' ∷ b'$' ∷ b'%' ∷ b'&' ∷ 0x27 ∷ b'(' ∷ b')' ∷ b'*' ∷ b'+' ∷ b',' ∷ b'-'
    ∷ b'.' ∷ b'/' ∷ 0x5c ∷ b':' ∷ b';' ∷ b'<' ∷ b'=' ∷ b'>' ∷ b'?' ∷ b'@' ∷ b'[' ∷ 0x5c ∷ b']'
    ∷ b'^' ∷ b'`' ∷ b'{' ∷ b'|' ∷ b'}' ∷ b'~' ∷ []

unfoldable pub set_staff_off : User → Error × User
set_staff_off u = (no_error, add_event staff_status_change (record u { staff_status = [] }))

-- `to_upper` is that of aisutil; maxStaffStatusLength is 32.
unfoldable pub change_staff_status : (Text → Text) → Text → User → Error × User
unfolding set_staff_off c_string find_first_of
change_staff_status to_upper status u =
    let word : Text = elim (find_first_of (c_string naughty_chars) status) [
      | none ↦ take 32 status
      | some n ↦ take (min 32 n) status
    ] in
    if not (is_empty status)
    then (no_error, add_event staff_status_change (record u { staff_status = to_upper word }))
    else set_staff_off u

unfoldable pub send_message : ℕ → Text → User → Error × User
send_message from message u = (no_error, add_event (private_message from message) u)

unfoldable pub send_notice : ℕ → Text → User → Error × User
send_notice from message u = (no_error, add_event (private_notice from message) u)
