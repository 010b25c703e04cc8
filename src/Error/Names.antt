-- ===== src/Error/Names.antt =====
-- The names of errors: home/kineircd/src/lib/errors.cpp.tpl, whose list is made from the successes and
-- the errors of kineircd/autogen/errors.def, and the values of
-- home/kineircd/include/kineircd/errors.h.tpl.
use kineircd.Prelude.{
  ℕ, zero, suc, ◌+◌, ◌<◌, ◌≡◌, refl, ap, ◌∙◌, List, [], ◌∷◌, ◌++◌, Option, none, some, length,
  get_elem?, arith,
}
use kineircd.Prelude.Text.{Text}
use kineircd.Prelude.Int.{ℤ, pos, negsuc}
use kineircd.Error.{
  Error, no_error, no_error_or_data, unknown_error, channel_name_nonstandard_prefix,
  channel_name_prefix_unknown, entity_exists, name_has_bad_chars, name_is_a_mask, name_is_in_use,
  name_too_long, nickname_begins_with_digit, permission_denied, server_name_has_dot_dot,
  server_name_has_no_dot, servers_dont_match, text_too_long, text_too_short, unknown_charset,
  unregistered_entity, unsupported_by_entity,
}

-- The values of the enumeration: the successes count from 1, the errors from -1 down.
unfoldable pub error_code : Error → ℤ
error_code no_error = pos 1
error_code no_error_or_data = pos 2
error_code unknown_error = pos 0
error_code channel_name_nonstandard_prefix = negsuc 0
error_code channel_name_prefix_unknown = negsuc 1
error_code entity_exists = negsuc 2
error_code name_has_bad_chars = negsuc 3
error_code name_is_a_mask = negsuc 4
error_code name_is_in_use = negsuc 5
error_code name_too_long = negsuc 6
error_code nickname_begins_with_digit = negsuc 7
error_code permission_denied = negsuc 8
error_code server_name_has_dot_dot = negsuc 9
error_code server_name_has_no_dot = negsuc 10
error_code servers_dont_match = negsuc 11
error_code text_too_long = negsuc 12
error_code text_too_short = negsuc 13
error_code unknown_charset = negsuc 14
error_code unregistered_entity = negsuc 15
error_code unsupported_by_entity = negsuc 16

-- An entry of the list: the name, and the place of its text in the tags of the languages.
pub record ErrorInfo : Type 0 where
  pub name : Text
  pub tag : ℕ

-- The list, by what the definitions give for the unknown error, the successes and the errors.
unfoldable pub errors_info_list : ErrorInfo → List ErrorInfo → List ErrorInfo → List ErrorInfo
errors_info_list unknown successes errors = unknown ∷ successes ++ errors

-- The place in the list. The offset is counted from 1 over the successes.
unfoldable pub offset_error : List ErrorInfo → ℤ → ℕ
offset_error successes (pos zero) = 0 + (1 + length successes)
offset_error successes (pos (suc n)) = suc n
offset_error successes (negsuc n) = suc n + (1 + length successes)

-- `none` is a read behind the list.
unfoldable pub get_error_name : ErrorInfo → List ErrorInfo → List ErrorInfo → ℤ → Option Text
unfolding errors_info_list offset_error
get_error_name unknown successes errors error =
    elim (get_elem? (errors_info_list unknown successes errors) (offset_error successes error)) [
      | none ↦ none
      | some info ↦ some info.name
    ]

-- `tag_map` has the identifiers that the languages gave to the tags.
unfoldable pub get_error_language_tag :
    List ℕ → ErrorInfo → List ErrorInfo → List ErrorInfo → ℤ → Option ℕ
unfolding errors_info_list offset_error
get_error_language_tag tag_map unknown successes errors error =
    elim (get_elem? (errors_info_list unknown successes errors) (offset_error successes error)) [
      | none ↦ none
      | some info ↦ get_elem? tag_map info.tag
    ]

get_elem_append :
    (xs ys : List ErrorInfo) (n : ℕ) → get_elem? (xs ++ ys) (n + length xs) ≡ get_elem? ys n
get_elem_append [] ys n = let place : n + 0 ≡ n = omega arith in ap (get_elem? ys) place
get_elem_append (x ∷ xs) ys n =
    let place : n + suc (length xs) ≡ suc (n + length xs) = omega arith in
    ap (get_elem? (x ∷ (xs ++ ys))) place ∙ get_elem_append xs ys n

get_elem_front :
    (xs ys : List ErrorInfo) (n : ℕ) → n < length xs → get_elem? (xs ++ ys) n ≡ get_elem? xs n
get_elem_front [] ys n h = ground arith
get_elem_front (x ∷ xs) ys zero h = refl
get_elem_front (x ∷ xs) ys (suc n) h = get_elem_front xs ys n (omega arith)

-- The place behind the unknown error and the successes, as the offset counts it.
get_elem_behind :
    (unknown : ErrorInfo) (xs ys : List ErrorInfo) (k : ℕ)
    → get_elem? (unknown ∷ (xs ++ ys)) (k + (1 + length xs)) ≡ get_elem? ys k
get_elem_behind unknown xs ys k =
    let place : k + (1 + length xs) ≡ suc (k + length xs) = omega arith in
    ap (get_elem? (unknown ∷ (xs ++ ys))) place ∙ get_elem_append xs ys k

abbrev pub name_at : List ErrorInfo → ℕ → Option Text
name_at infos n = elim (get_elem? infos n) [ none ↦ none | some info ↦ some info.name ]

-- Whatever the successes and the errors are: a success has its own name, but the unknown error has
-- the name of the first error, and each error has the name of the next one, where the last reads
-- behind the list.
pub get_error_name_shifted :
    (unknown : ErrorInfo) (successes errors : List ErrorInfo) (n : ℕ)
    → n < length successes
    → (get_error_name unknown successes errors (pos (suc n)) ≡ name_at successes n)
      × (get_error_name unknown successes errors (pos 0) ≡ name_at errors 0)
      × ((k : ℕ) → get_error_name unknown successes errors (negsuc k) ≡ name_at errors (suc k))
unfolding get_error_name
get_error_name_shifted unknown successes errors n h = (
  rw (get_error_name, get_elem_front successes errors n h) refl,
  rw (get_error_name, get_elem_behind unknown successes errors 0) refl,
  λ k. rw (get_error_name, get_elem_behind unknown successes errors (suc k)) refl,
)
