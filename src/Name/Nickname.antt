-- ===== src/Name/Nickname.antt =====
-- Nicknames: Client::Name::checkValidity, home/kineircd/src/lib/client.cpp.
use kineircd.Prelude.{
  ℕ, ◌/◌, ◌%◌, ◌≤◌, ◌<◌, ◌≡◌, refl, ◌≢◌, ◌⊎◌, ◌↔◌, [], ◌∷◌, arith, All, length, Bool, true, ◌&&◌,
  ◌||◌, if◌then◌else◌, leb, ltb, ◌==◌, get_or,
}
use kineircd.Prelude.Text.{Text, is_digit, is_alnum}
use kineircd.Error.{Error, no_error, name_too_long, nickname_begins_with_digit, name_has_bad_chars}

is_special_char : ℕ → Bool
is_special_char c = (leb 0x5b c && leb c 0x60) || (leb 0x7b c && leb c 0x7d)

-- The test of the loop. `(*this)[i] & 0x0080` is bit 7 of the character.
is_allowed : ℕ → Bool
unfolding is_special_char is_alnum
is_allowed c = ((c / 0x80) % 2 == 1) || is_alnum c || is_special_char c || c == b'-'

-- The loop over the characters.
check_chars : Text → Error
unfolding is_allowed
check_chars [] = no_error
check_chars (c ∷ cs) = if is_allowed c then check_chars cs else name_has_bad_chars

-- The limit is the configuration's maximum nickname length.
unfoldable pub check_validity : ℕ → Text → Error
unfolding check_chars is_digit
check_validity limit name =
    if ltb limit (length name)
    then name_too_long
    else if is_digit (get_or name 0 0) || get_or name 0 0 == b'-'
    then nickname_begins_with_digit
    else check_chars name

-- The characters of a nickname: digits, '-', 'A' to '}' (the letters and the special characters)
-- and those with bit 7 set.
abbrev pub IsNicknameChar : ℕ → Type 0
IsNicknameChar c =
    ((c / 0x80) % 2 ≡ 1) ⊎ ((0x30 ≤ c) × (c ≤ 0x39)) ⊎ ((0x41 ≤ c) × (c ≤ 0x7d)) ⊎ (c ≡ b'-')

abbrev pub StartsNickname : Text → Type 0
StartsNickname [] = Unit {0}
StartsNickname (c ∷ cs) = ((c < 0x30) ⊎ (0x39 < c)) × (c ≢ b'-')

is_allowed_iff : (c : ℕ) → (is_allowed c ≡ true) ↔ IsNicknameChar c
unfolding is_allowed
is_allowed_iff c = (λ e. ground arith, λ h. ground arith)

check_chars_iff : (s : Text) → (check_chars s ≡ no_error) ↔ All IsNicknameChar s
unfolding check_chars
check_chars_iff [] = (λ e. tt, λ h. refl)
check_chars_iff (c ∷ s) = (
  λ e. ground (arith, is_allowed_iff c, check_chars_iff s),
  λ h. ground (arith, is_allowed_iff c, check_chars_iff s),
)

-- A nickname is valid exactly when it is within the limit, does not begin with a digit or '-',
-- and has nickname characters only. The empty name is valid.
pub nickname_iff :
    (limit : ℕ) (name : Text)
    → (check_validity limit name ≡ no_error)
      ↔ ((length name ≤ limit) × StartsNickname name × All IsNicknameChar name)
unfolding check_validity
nickname_iff limit [] = (λ e. (omega arith, tt, tt), λ h. ground arith)
nickname_iff limit (c ∷ cs) =
    (λ e. ground (arith, check_chars_iff (c ∷ cs)), λ h. ground (arith, check_chars_iff (c ∷ cs)))
