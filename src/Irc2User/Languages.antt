-- ===== src/Irc2User/Languages.antt =====
-- LANGUAGE: handleLANGUAGE, home/kineircd/src/mod_irc2user/handlers.cpp. A language is its address,
-- or null.
pub mod Choice
use kineircd.Prelude.{
  ℕ, false, ◌+◌, ◌%◌, Bool, List, [], ◌∷◌, ◌++◌, Option, none, some, if◌then◌else◌, ltb, is_empty,
  get_elem?, ◌==◌,
}
use kineircd.Prelude.Text.{Text, codes, text_eq}
use kineircd.Prelude.Int.{ℤ}
use kineircd.Error.{is_ok}
use kineircd.User.{User, set_language_list}
use kineircd.Irc2.Tokens.{Tokens}
use kineircd.Irc2.Tokens.Listed.{listed}

-- What is read of a language's data.
pub record Data : Type 0 where
  pub address : ℕ
  pub code : Text
  pub name : Text
  pub note : Text
  pub maintainer : Text
  pub file_revision : ℤ
  pub tag_count : ℕ

-- The numerics: RPL_LANGUAGE (code, revision, maintainer, modes, name), the end of the list, and
-- the complaints.
pub data Reply : Type 0 where
  language : Text → ℤ → Text → Text → Text → Reply
  end_of_languages : Reply
  no_language : Text → Reply
  too_many_languages : ℕ → Reply
  unknown_error_reply : Reply

abbrev same_address : Option ℕ → ℕ → Bool
same_address none a = false
same_address (some b) a = b == a

abbrev star_if_empty : Text → Text
star_if_empty [] = b'*' ∷ []
star_if_empty (c ∷ s) = c ∷ s

module _ (default_language : Option ℕ) (highest_tag : ℕ) (delocalise : Text → Text) where
  -- The line of a language; `primary` is the user's first language.
  unfoldable pub language_line : Option ℕ → Data → Reply
  language_line primary d =
      let modes =
        (if same_address default_language d.address then b'd' ∷ [] else [])
        ++ (if ltb d.tag_count highest_tag then b'i' ∷ [] else [])
        ++ (if same_address primary d.address then b'S' ∷ [] else []) in
      language d.code d.file_revision
        (if is_empty d.maintainer then b'*' ∷ [] else delocalise d.maintainer) (star_if_empty modes)
        (delocalise
          (if is_empty d.note then d.name else d.name ++ codes " (" ++ d.note ++ codes ")"))

  -- The list of the languages, in the order of their codes. `none` is the use of the first
  -- language of a user who has none, which is made only where a language is listed.
  unfoldable pub list_languages : List Data → List (Option ℕ) → Option (List Reply)
  unfolding language_line
  list_languages [] languages = some (end_of_languages ∷ [])
  list_languages (d ∷ ds) [] = none
  list_languages (d ∷ ds) (primary ∷ languages) =
      let rest = list_languages ds (primary ∷ languages) in
      elim rest [ none ↦ none | some replies ↦ some (language_line primary d ∷ replies) ]

-- What is done with the list.
unfoldable pub finish : User → List Reply × Option (List (Option ℕ)) → List Reply × User
unfolding set_language_list
finish u (replies, none) = (replies, u)
finish u (replies, some []) = (replies, u)
finish u (replies, some (l ∷ ls)) =
    let (error, u') = set_language_list (l ∷ ls) false u in
    (replies ++ (if is_ok error then [] else unknown_error_reply ∷ []), u')

-- The languages that the user may have, `findByCode` and `toLower`.
module _ (find_by_code : Text → Option ℕ) (to_lower : Text → Text) where
  -- A code of the list: its language, which may be null, where it is accepted.
  unfoldable pub read_code : Text → Option (Option ℕ)
  read_code code = elim (find_by_code code) [
    | some l ↦ some (some l)
    | none ↦ if text_eq (to_lower code) (codes "none") then some none else none
  ]

module _ (max_languages : ℕ) (find_by_code : Text → Option ℕ) (to_lower : Text → Text) where
  -- The loop over the codes, with the list so far and the count, an unsigned char of 8 bits. The
  -- second part is the list at the end, if the loop was not left before.
  unfoldable pub read_codes :
      List Text → ℕ → List (Option ℕ) → List Reply × Option (List (Option ℕ))
  unfolding read_code
  read_codes [] count languages = ([], some languages)
  read_codes (code ∷ codes) count languages = elim (read_code find_by_code to_lower code) [
    | none ↦
        let (replies, result) = read_codes codes count languages in
        (no_language code ∷ replies, result)
    | some l ↦
        let n = (count + 1) % 256 in
        let after = read_codes codes n (languages ++ l ∷ []) in
        if ltb max_languages n then (too_many_languages max_languages ∷ [], none) else after
  ]

  -- The command with a parameter.
  unfoldable pub choose_languages : Tokens → Text → User → Option (List Reply × User)
  unfolding read_codes finish listed
  choose_languages t parameter u = elim (listed t parameter) [
    | none ↦ none
    | some codes ↦ some (finish u (read_codes codes 0 []))
  ]
