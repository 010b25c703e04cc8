-- ===== src/Irc2User/Languages/Choice.antt =====
-- The languages that LANGUAGE sets.
use kineircd.Prelude.{
  map, ℕ, ◌+◌, ◌%◌, ◌≡◌, ◌≤◌, ◌<◌, refl, ap, ◌∙◌, Bool-cases, true, false, List, [], ◌∷◌, ◌++◌,
  Option, none, some, if◌then◌else◌, ltb, leb, length, arith, All, Option-cases, inl, inr,
  append_assoc, append-nil, length-append,
}
use kineircd.Prelude.Text.{Text}
use kineircd.User.{User, language_change, add_event}
use kineircd.Irc2.Tokens.{Tokens, AreTokens}
use kineircd.Irc2.Tokens.Listed.{IsTarget, targets_text, listed-words}
use kineircd.Irc2User.Names.{Language, send_language_list}
use kineircd.Irc2User.Languages.{Reply, read_code, read_codes, finish, choose_languages}

-- The list at the end: all of them, where they are no more than the limit.
abbrev pub within_limit : ℕ → List (Option ℕ) → Option (List (Option ℕ))
within_limit max ls = if leb (length ls) max then some ls else none

-- The user with the list, where there is one that is not empty; the user is told of the change.
abbrev pub chosen : User → Option (List (Option ℕ)) → User
chosen u none = u
chosen u (some []) = u
chosen u (some (l ∷ ls)) = add_event language_change (record u { languages = l ∷ ls })

finish-chosen :
    (u : User) (r : List Reply × Option (List (Option ℕ))) → (finish u r).1 ≡ chosen u r.1
unfolding finish
finish-chosen u (replies, none) = refl
finish-chosen u (replies, some []) = refl
finish-chosen u (replies, some (l ∷ ls)) = refl

module _ (find_by_code : Text → Option ℕ) (to_lower : Text → Text) where
  -- The specification: the languages of the codes that are accepted, in order.
  abbrev pub accepted : List Text → List (Option ℕ)
  accepted [] = []
  accepted (code ∷ codes) = elim (read_code find_by_code to_lower code) [
    | none ↦ accepted codes
    | some l ↦ l ∷ accepted codes
  ]

module _ (max_languages : ℕ) (find_by_code : Text → Option ℕ) (to_lower : Text → Text) where
  read_codes-accepted :
      (codes : List Text) (n : ℕ) (ls : List (Option ℕ))
      → max_languages < 255
      → n ≡ length ls
      → n ≤ max_languages
      → (read_codes max_languages find_by_code to_lower codes n ls).1
        ≡ within_limit max_languages (ls ++ accepted find_by_code to_lower codes)
  unfolding read_codes
  read_codes-accepted [] n ls h e k =
      let fits : leb (length ls) max_languages ≡ true = ground arith in rw (append-nil ls, fits)
  read_codes-accepted (code ∷ codes) n ls h e k =
      elim (Option-cases (read_code find_by_code to_lower code)) [
        | inl f ↦ rw (read_codes, accepted, f) (read_codes-accepted codes n ls h e k)
        | inr (l, f) ↦
            let count : (n + 1) % 256 ≡ n + 1 = omega arith in
            let rest = accepted find_by_code to_lower codes in
            rw (read_codes, accepted, f, count)
              (elim (Bool-cases (ltb max_languages (n + 1))) [
                | inl over ↦
                    let full : leb (length (ls ++ l ∷ rest)) max_languages ≡ false =
                      ground (arith, length-append ls (l ∷ rest)) in
                    rw (over, full)
                | inr under ↦ rw under (
                    read_codes-accepted codes (n + 1) (ls ++ l ∷ []) h
                      (omega (arith, length-append ls (l ∷ []))) (ground arith)
                    ∙ ap (within_limit max_languages) (append_assoc ls (l ∷ []) rest))
              ])
      ]

  -- With a tokenizer that is as Irc2/Tokens asks, and a limit below 255: of a list of codes without
  -- commas, and without a space in front, the user gets the languages of all codes that are
  -- accepted, in order and with one event, where there is one of them and they are within the
  -- limit. Otherwise the user is as before.
  pub choose_languages-accepted :
      (t : Tokens)
      → AreTokens t
      → (codes : List Text) (u : User) → max_languages < 255
      → All IsTarget codes
      → (replies : List Reply) × (choose_languages max_languages find_by_code to_lower t
            (targets_text codes)
            u
          ≡ some (
            replies,
            chosen u (within_limit max_languages (accepted find_by_code to_lower codes)),
          ))
  unfolding choose_languages
  choose_languages-accepted t l codes u h a =
      let r = read_codes max_languages find_by_code to_lower codes 0 [] in
      (
        (finish u r).0,
        rw (choose_languages, listed-words t l codes a)
            (ap (λ v. some ((finish u r).0, v))
              (finish-chosen u r
                ∙ ap (chosen u) (read_codes-accepted codes 0 [] h refl (omega arith)))),
      )

  -- A user whose list of codes begins with one of the null language, where the codes that are
  -- accepted are within a limit below 255, with a tokenizer that is as Irc2/Tokens asks and codes
  -- without commas: afterwards the numeric that tells the user of the languages is not made. It
  -- uses the first language, which is null.
  pub choose_languages-null :
      (t : Tokens)
      → AreTokens t
      → (code : Text) (codes : List Text) (u : User) → max_languages < 255
      → All IsTarget (code ∷ codes)
      → read_code find_by_code to_lower code ≡ some none
      → length (accepted find_by_code to_lower (code ∷ codes)) ≤ max_languages
      → (language_of : Option ℕ → Option Language) (null_code : Text) → language_of none ≡ none
      → (replies : List Reply) × (u' : User) × (choose_languages max_languages find_by_code to_lower
            t
            (targets_text (code ∷ codes))
            u
          ≡ some (replies, u'))
        × (send_language_list null_code (map language_of u'.languages) ≡ none)
  unfolding send_language_list
  choose_languages-null t l code codes u h a e k language_of null_code z =
      let (replies, f) = choose_languages-accepted t l (code ∷ codes) u h a in
      let ls = accepted find_by_code to_lower (code ∷ codes) in
      let fits : leb (length ls) max_languages ≡ true = ground arith in
      let first : ls ≡ none ∷ accepted find_by_code to_lower codes = rw (accepted, e) in
      (replies, chosen u (within_limit max_languages ls), f, rw (fits, first, z))
