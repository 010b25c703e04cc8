-- ===== src/Irc2User/Names/Languages.antt =====
-- The list of languages that a user has.
use kineircd.Prelude.{
  ℕ, ◌≡◌, ◌≢◌, refl, sym, ap, ◌∙◌, List, [], ◌∷◌, ◌++◌, Option, none, some, append_assoc,
  append-nil,
}
use kineircd.Prelude.Text.{Text}
use kineircd.Irc2User.Names.{Language, language_codes, send_language_list}

module _ (null_code : Text) where
  abbrev code_of : Option Language → Text
  code_of none = null_code
  code_of (some l) = l.code

  -- The codes behind a code, each behind a comma.
  abbrev tail_codes : List (Option Language) → Text
  tail_codes [] = []
  tail_codes (l ∷ ls) = b',' ∷ (code_of l ++ tail_codes ls)

  -- The specification: the codes with commas between them.
  abbrev pub comma_codes : List (Option Language) → Text
  comma_codes [] = []
  comma_codes (l ∷ ls) = code_of l ++ tail_codes ls

  language_codes-tail :
      (ls : List (Option Language)) (c : ℕ) (t : Text)
      → language_codes null_code (c ∷ t) ls ≡ (c ∷ t) ++ tail_codes ls
  unfolding language_codes
  language_codes-tail [] c t = ap (λ s. c ∷ s) (sym (append-nil t))
  language_codes-tail (none ∷ ls) c t =
      language_codes-tail ls c _
      ∙ ap (λ s. c ∷ s)
          (append_assoc (t ++ b',' ∷ []) null_code (tail_codes ls)
            ∙ append_assoc t (b',' ∷ []) (null_code ++ tail_codes ls))
  language_codes-tail (some l ∷ ls) c t =
      language_codes-tail ls c _
      ∙ ap (λ s. c ∷ s)
          (append_assoc (t ++ b',' ∷ []) l.code (tail_codes ls)
            ∙ append_assoc t (b',' ∷ []) (l.code ++ tail_codes ls))

  -- A list that begins with a language, whose code is not empty, is sent as the codes of all its
  -- languages in order, with commas between them (a null language as the code that stands for
  -- none), and the name of the first.
  pub send_language_list-codes :
      (l : Language) (ls : List (Option Language))
      → l.code ≢ []
      → send_language_list null_code (some l ∷ ls) ≡ some (comma_codes (some l ∷ ls), l.name)
  unfolding send_language_list language_codes
  send_language_list-codes l ls h = ap (λ t. some (t, l.name)) (from_code l.code h)
    where
      from_code :
          (code : Text) → code ≢ [] → language_codes null_code code ls ≡ code ++ tail_codes ls
      from_code [] h = absurd (h refl)
      from_code (c ∷ t) h = language_codes-tail ls c t
