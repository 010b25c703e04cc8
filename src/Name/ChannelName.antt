-- ===== src/Name/ChannelName.antt =====
-- Channel names: Channel::Name::checkValidity, home/kineircd/src/lib/channel.cpp. The prefixes
-- are the generated string Constants::standardChannelTypePrefixes, a parameter here.
use kineircd.Prelude.{
  ℕ, zero, suc, ◌≤◌, ◌≡◌, refl, ◌≢◌, [], ◌∷◌, arith, length, Bool, true, false, if◌then◌else◌, ltb,
  ◌==◌, get_or, drop, Option, none, some,
}
use kineircd.Prelude.Text.{Text, c_string, find_first_of, find_first_of_nil}
use kineircd.Error.{
  Error, no_error, name_too_long, name_has_bad_chars, name_is_a_mask,
  channel_name_nonstandard_prefix,
}

-- The configuration's limits on channel names.
pub record Limits : Type 0 where
  pub max_name_length : ℕ
  pub allow_mask_like_names : Bool

-- `while (*prefixes != L'\0') { if (first == *prefixes) break; }`: the pointer is never advanced.
-- The rest of the string when the loop ends, `none` when the fuel runs out first.
prefix_loop : ℕ → ℕ → Text → Option Text
prefix_loop zero first prefixes = none
prefix_loop (suc fuel) first [] = some []
prefix_loop (suc fuel) first (p ∷ ps) =
    let again = prefix_loop fuel first (p ∷ ps) in if first == p then some (p ∷ ps) else again

-- The arguments of find_first_of are C strings that begin with NUL.
abbrev mask_chars : Text
mask_chars = 0 ∷ 7 ∷ 10 ∷ 13 ∷ b' ' ∷ b',' ∷ b':' ∷ b'*' ∷ b'?' ∷ []

abbrev bad_chars : Text
bad_chars = 0 ∷ 7 ∷ 10 ∷ 13 ∷ b' ' ∷ b',' ∷ b':' ∷ []

-- `find_first_of(set, 1)`, as a position behind the first character, and the error that it makes.
check_chars : Bool → Text → Error
unfolding c_string find_first_of
check_chars true name = elim (find_first_of (c_string mask_chars) (drop 1 name)) [
  | none ↦ no_error
  | some n ↦
      let c = get_or (drop 1 name) n 0 in
      if c == b'*' then name_is_a_mask else if c == b'?' then name_is_a_mask else name_has_bad_chars
]
check_chars false name = elim (find_first_of (c_string bad_chars) (drop 1 name)) [
  | none ↦ no_error
  | some n ↦ name_has_bad_chars
]

-- `none` is a call that has not returned when the fuel has run out.
unfoldable pub check_validity : ℕ → Limits → Text → Text → Option Error
unfolding prefix_loop check_chars
check_validity fuel limits prefixes name =
    if ltb limits.max_name_length (length name)
    then some name_too_long
    else elim (prefix_loop fuel (get_or name 0 0) prefixes) [
      | none ↦ none
      | some [] ↦ some channel_name_nonstandard_prefix
      | some (p ∷ ps) ↦ some (check_chars limits.allow_mask_like_names name)
    ]

prefix_loop_stuck :
    (fuel first p : ℕ) (ps : Text) → first ≢ p → prefix_loop fuel first (p ∷ ps) ≡ none
unfolding prefix_loop
prefix_loop_stuck zero first p ps h = refl
prefix_loop_stuck (suc fuel) first p ps h = ground (arith, prefix_loop_stuck fuel first p ps)

-- A name within the limit whose first character is not the first prefix never gets an answer, no
-- matter whether a later prefix is the right one: the loop does not end at any fuel.
pub check_validity_diverges :
    (fuel : ℕ) (limits : Limits) (p : ℕ) (ps name : Text)
    → length name ≤ limits.max_name_length
    → get_or name 0 0 ≢ p
    → check_validity fuel limits (p ∷ ps) name ≡ none
unfolding check_validity
check_validity_diverges fuel limits p ps name h d =
    ground (arith, prefix_loop_stuck fuel (get_or name 0 0) p ps)

check_chars_accepts : (b : Bool) (name : Text) → check_chars b name ≡ no_error
unfolding check_chars
check_chars_accepts true name = rw (find_first_of_nil (drop 1 name), check_chars)
check_chars_accepts false name = rw (find_first_of_nil (drop 1 name), check_chars)

-- A name that begins with the first prefix is answered after one round of the loop: it is valid
-- exactly when it is within the limit, and no character is ever found bad.
pub check_validity_answers :
    (fuel : ℕ) (limits : Limits) (p : ℕ) (ps name : Text)
    → check_validity (suc fuel) limits (p ∷ ps) (p ∷ name)
      ≡ some (if ltb limits.max_name_length (suc (length name)) then name_too_long else no_error)
unfolding check_validity
check_validity_answers fuel limits p ps name =
    ground (arith, check_chars_accepts limits.allow_mask_like_names (p ∷ name))
