-- ===== src/Name/NetworkName.antt =====
-- Network names: Network::Name::checkValidity, home/kineircd/src/lib/network.cpp. The argument of
-- find_first_of is a C string that begins with NUL.
use kineircd.Prelude.{◌≡◌, [], ◌∷◌, drop, none, some}
use kineircd.Prelude.Text.{Text, c_string, find_first_of, find_first_of_nil}
use kineircd.Error.{Error, no_error, name_has_bad_chars}

abbrev bad_chars : Text
bad_chars = 0 ∷ 7 ∷ 10 ∷ 13 ∷ b' ' ∷ b',' ∷ b'.' ∷ b'/' ∷ b'@' ∷ 0x5c ∷ b':' ∷ []

unfoldable pub check_validity : Text → Error
unfolding c_string find_first_of
check_validity name = elim (find_first_of (c_string bad_chars) (drop 1 name)) [
  | none ↦ no_error
  | some n ↦ name_has_bad_chars
]

-- Every network name is valid, whatever its characters.
pub check_validity_accepts : (name : Text) → check_validity name ≡ no_error
unfolding check_validity
check_validity_accepts name = rw (find_first_of_nil (drop 1 name), check_validity)
